-- ===== src/TaskService/Delete.antt =====
-- `DeleteTask` and `BatchDeleteTasks` (video_recording_task_service.go) on the tables that they change.
pub mod Running
use video_meeting_recorder.Common.{
  ℕ, ◌≡◌, refl, sym, ap, ◌∙◌, Bool, true, false, not, ◌&&◌, ◌||◌, Option, take, zero, suc, none,
  some, List, [], ◌∷◌, contains, ◌==◌, ==_iff, if◌then◌else◌, Bool-cases, Option-cases, ◌⊎◌, inl,
  inr, arith,
}
use video_meeting_recorder.Common.Maps.{Map, lookup}
use video_meeting_recorder.Errors.{Result, ok, err, external, invalid_input, task_not_found}
use video_meeting_recorder.Task.{Task, Status, recording, connecting, same_status}
use video_meeting_recorder.InputConfig.{InputConfig}
use video_meeting_recorder.TaskService.{delete_task}

-- The rows of tasks, of input configurations, and of their connection, a task and a configuration each.
pub record Tables : Type 0 where
  pub tasks : Map Task
  pub configs : Map InputConfig
  pub links : List (ℕ × ℕ)

-- The configurations of some tasks.
unfoldable pub config_ids : List ℕ → List (ℕ × ℕ) → List ℕ
config_ids ids [] = []
config_ids ids ((task_id, config_id) ∷ links) =
    let rest = config_ids ids links in if contains task_id ids then config_id ∷ rest else rest

-- The update of the rows with these numbers; the time of the lock is not written.
unfoldable pub free_configs : List ℕ → Map InputConfig → Map InputConfig
free_configs ids [] = []
free_configs ids ((k, c) ∷ db) =
    let rest = free_configs ids db in
    (k, if contains k ids then record c { is_locked = false; locked_by = none } else c) ∷ rest

unfoldable pub delete_rows : List ℕ → Map Task → Map Task
delete_rows ids [] = []
delete_rows ids ((k, t) ∷ db) =
    let rest = delete_rows ids db in if contains k ids then rest else (k, t) ∷ rest

-- What the database answers: the query of the links, the update of the locks, and the deletion.
pub record Writes : Type 0 where
  pub links_read : Bool
  pub freed : Bool
  pub deleted : Bool

-- An error of the first two is passed over.
unfoldable pub free_locks : Writes → List ℕ → Tables → Tables
unfolding config_ids free_configs
free_locks w ids s =
    if w.links_read && w.freed
    then record s { configs = free_configs (config_ids ids s.links) s.configs }
    else s

unfoldable pub delete_ids : Writes → List ℕ → Tables → Result (Unit {0}) × Tables
unfolding free_locks delete_rows
delete_ids w ids s =
    let s' = free_locks w ids s in
    if w.deleted
    then (ok tt, record s' { tasks = delete_rows ids s'.tasks })
    else (err external, s')

unfoldable pub delete_stored : ℕ → Bool → Writes → ℕ → Tables → Result (Unit {0}) × Tables
unfolding delete_task delete_ids
delete_stored user_id is_admin w task_id s =
    elim (delete_task user_id is_admin (lookup task_id s.tasks) true) [
      | err e ↦ (err e, s)
      | ok t ↦ delete_ids w (task_id ∷ []) s
    ]

-- A task of the user, unless the user is an administrator, that does not run.
unfoldable pub can_delete_task : ℕ → Bool → Task → Bool
unfolding same_status
can_delete_task user_id is_admin t =
    if not is_admin && not (t.created_by == user_id)
    then false
    else not (same_status t.status recording || same_status t.status connecting)

-- The tasks of the numbers asked for, and those of them that may go.
unfoldable pub requested : List ℕ → Map Task → Map Task
requested ids [] = []
requested ids ((k, t) ∷ db) =
    let rest = requested ids db in if contains k ids then (k, t) ∷ rest else rest

unfoldable pub deletable : ℕ → Bool → Map Task → List ℕ
unfolding can_delete_task
deletable user_id is_admin [] = []
deletable user_id is_admin ((k, t) ∷ db) =
    let rest = deletable user_id is_admin db in
    if can_delete_task user_id is_admin t then k ∷ rest else rest

unfoldable pub is_nil : List ℕ → Bool
is_nil [] = true
is_nil (x ∷ xs) = false

unfoldable pub delete_allowed : Writes → List ℕ → Tables → Result (Unit {0}) × Tables
unfolding delete_ids
delete_allowed w [] s = (err invalid_input, s)
delete_allowed w (id ∷ ids) s = delete_ids w (id ∷ ids) s

-- Limit(5000) of the first query
abbrev pub row_limit : ℕ
row_limit = 5000

-- `read` is whether the database answers the first query.
unfoldable pub batch_delete_tasks :
    ℕ → Bool → Bool → Writes → List ℕ → Tables → Result (Unit {0}) × Tables
unfolding requested deletable delete_allowed is_nil
batch_delete_tasks user_id is_admin read w ids s =
    if is_nil ids
    then (err invalid_input, s)
    else if not read
    then (err external, s)
    else elim (take row_limit (requested ids s.tasks)) [
      | [] ↦ (err task_not_found, s)
      | t ∷ ts ↦ delete_allowed w (deletable user_id is_admin (t ∷ ts)) s
    ]

lookup-free :
    (ids : List ℕ) (k : ℕ) (db : Map InputConfig) (c : InputConfig)
    → lookup k db ≡ some c
    → contains k ids ≡ true
    → lookup k (free_configs ids db) ≡ some (record c { is_locked = false; locked_by = none })
unfolding lookup free_configs
lookup-free ids k [] c h i = absurd (ground arith)
lookup-free ids k ((j, d) ∷ db) c h i = ground (arith, lookup-free ids k db c)

-- The deletion of a task frees the locks of all its configurations, also one that another task holds.
pub delete_frees_foreign :
    (user_id task_id config_id : ℕ) (t : Task) (c : InputConfig) (s : Tables)
    → lookup task_id s.tasks ≡ some t
    → delete_task user_id false (some t) true ≡ ok t
    → contains config_id (config_ids (task_id ∷ []) s.links) ≡ true
    → lookup config_id s.configs ≡ some c
    → let r =
        delete_stored user_id false
          (record { links_read = true; freed = true; deleted = true })
          task_id
          s in
      (r.0 ≡ ok tt)
      × (lookup config_id r.1.configs ≡ some (record c { is_locked = false; locked_by = none }))
unfolding delete_stored delete_ids free_locks
delete_frees_foreign user_id task_id config_id t c s h d l k =
    rw (h, d, delete_stored)
      (refl, lookup-free (config_ids (task_id ∷ []) s.links) config_id s.configs c k l)
