-- ===== src/Scheduler.antt =====
-- internal/scheduler/video_scheduler.go: which tasks wait for their time in the cron scheduler. The
-- goroutines that a call starts are recorded in the state; a call reads the clock once.
pub mod Entries
pub mod Sync
pub mod Status
pub mod Launch
pub mod Monitor
pub mod Execute
pub mod Runs
pub mod Complete
mod Examples
mod RunExamples
use video_meeting_recorder.Common.{
  ℕ, suc, ◌+◌, Bool, true, false, not, ◌≡◌, ◌==◌, Option, none, some, List, [], ◌∷◌, Text, map,
  contains, without, if◌then◌else◌,
}
use video_meeting_recorder.Common.Int.{ℤ}
use video_meeting_recorder.Common.Maps.{Map, lookup, insert, delete, has_key}
use video_meeting_recorder.Common.Clock.{after}
use video_meeting_recorder.Errors.{
  Error, Result, ok, err, already_exists, internal, invalid_input, task_not_found,
  task_expired_business, task_in_progress, insufficient_quota,
}
use video_meeting_recorder.Task.{Task, pending, same_status, get_trigger_time}

-- github.com/robfig/cron/v3: a job is added for a trigger time and a task, and gets a new entry ID;
-- an entry is removed by its ID.
pub record Cron : Type 1 where
  pub Jobs : Type 0
  pub add_func : Jobs → ℕ → ℕ → Option (ℕ × Jobs)
  pub remove : Jobs → ℕ → Jobs
  pub live : Jobs → ℕ → Bool
  pub add_new :
      (j j' : Jobs) (time task e : ℕ) → add_func j time task ≡ some (e, j') → live j e ≡ false
  pub add_live :
      (j j' : Jobs) (time task e x : ℕ)
      → add_func j time task ≡ some (e, j')
      → live j' x ≡ (if x == e then true else live j x)
  pub remove_live :
      (j : Jobs) (e x : ℕ) → live (remove j e) x ≡ (if x == e then false else live j x)

module _ (C : Cron) where
  pub record Scheduler : Type 0 where
    pub cron : C.Jobs
    pub task_entries : Map ℕ
    pub entry_tasks : Map ℕ
    -- Tasks for which a goroutine with `executeTask` was started, newest first.
    pub executions : List ℕ
    -- Tasks for which a goroutine was started that marks them as failed.
    pub expirations : List ℕ

  -- s.cron.Remove and the two deletes
  unfoldable pub unlink : Scheduler → ℕ → ℕ → Scheduler
  unlink s task_id entry_id = record s {
    cron = C.remove s.cron entry_id;
    task_entries = delete task_id s.task_entries;
    entry_tasks = delete entry_id s.entry_tasks;
  }

  unfoldable pub link : Scheduler → ℕ → ℕ → C.Jobs → Scheduler
  link s task_id entry_id cron = record s {
    cron = cron;
    task_entries = insert task_id entry_id s.task_entries;
    entry_tasks = insert entry_id task_id s.entry_tasks;
  }

  -- s.cron.AddFunc and what follows it
  unfoldable pub schedule : Scheduler → ℕ → Task → Result (Unit {0}) × Scheduler
  unfolding link
  schedule s trigger t = elim (C.add_func s.cron trigger t.id) [
    | none ↦ (err internal, s)
    | some (entry_id, cron) ↦ (ok tt, link s t.id entry_id cron)
  ]

  unfoldable pub spawn_execution : Scheduler → ℕ → Scheduler
  spawn_execution s task_id = record s { executions = task_id ∷ s.executions }

  unfoldable pub spawn_expiration : Scheduler → ℕ → Scheduler
  spawn_expiration s task_id = record s { expirations = task_id ∷ s.expirations }

  unfoldable pub add_task : ℕ → Task → Scheduler → Result (Unit {0}) × Scheduler
  unfolding schedule spawn_execution
  add_task now t s =
      let trigger = get_trigger_time t in
      if has_key t.id s.task_entries
      then (err already_exists, s)
      else if after now t.end_time
      then (err task_expired_business, s)
      else if after now trigger
      then (ok tt, spawn_execution s t.id)
      else schedule s trigger t

  unfoldable pub remove_task : ℕ → Scheduler → Result (Unit {0}) × Scheduler
  unfolding unlink
  remove_task task_id s = elim (lookup task_id s.task_entries) [
    | none ↦ (err task_not_found, s)
    | some entry_id ↦ (ok tt, unlink s task_id entry_id)
  ]

  -- A pending task that is in no entry: expired, due, or to be scheduled.
  unfoldable pub place : ℕ → Task → Scheduler → Scheduler
  unfolding schedule spawn_execution spawn_expiration
  place now t s =
      let trigger = get_trigger_time t in
      if after now t.end_time
      then spawn_expiration s t.id
      else if after now trigger
      then spawn_execution s t.id
      else (schedule s trigger t).1

  -- One round of the first loop of `SyncPendingTasks`, for an entry of the map.
  unfoldable pub recheck_entry : ℕ → List ℕ → (ℕ → Option Task) → ℕ → ℕ → Scheduler → Scheduler
  unfolding unlink place
  recheck_entry now ids get_task task_id entry_id s =
      let s' = unlink s task_id entry_id in
      if not (contains task_id ids)
      then s'
      else elim (get_task task_id) [ none ↦ s' | some t ↦ place now t s' ]

  -- The loop over the map visits keys in any order, and may visit one that it has put back; a key
  -- that is gone is not visited.
  unfoldable pub recheck : ℕ → List ℕ → (ℕ → Option Task) → List ℕ → Scheduler → Scheduler
  unfolding recheck_entry
  recheck now ids get_task [] s = s
  recheck now ids get_task (task_id ∷ visits) s =
      recheck now ids get_task visits (elim (lookup task_id s.task_entries) [
        | none ↦ s
        | some entry_id ↦ recheck_entry now ids get_task task_id entry_id s
      ])

  -- The second loop: the pending tasks that are in no entry.
  unfoldable pub add_pending : ℕ → List Task → Scheduler → Scheduler
  unfolding place
  add_pending now [] s = s
  add_pending now (t ∷ ts) s =
      add_pending now ts (if has_key t.id s.task_entries then s else place now t s)

  abbrev pub task_ids : List Task → List ℕ
  task_ids ts = map (λ t. t.id) ts

  unfoldable pub sync_pending_tasks :
      ℕ
      → Option (List Task)
      → (ℕ → Option Task)
      → List ℕ
      → Scheduler
      → Result (Unit {0}) × Scheduler
  unfolding recheck add_pending
  sync_pending_tasks now none get_task visits s = (err internal, s)
  sync_pending_tasks now (some tasks) get_task visits s =
      (ok tt, add_pending now tasks (recheck now (task_ids tasks) get_task visits s))
