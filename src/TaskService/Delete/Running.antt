-- ===== src/TaskService/Delete/Running.antt =====
-- Which tasks a batch deletion keeps.
use video_meeting_recorder.Common.{
  ℕ, ◌≡◌, refl, ap, ◌∙◌, Bool, true, false, ◌&&◌, ◌||◌, take, zero, suc, none, some, List, [], ◌∷◌,
  contains, ◌==◌, ==_iff, Bool-cases, ◌⊎◌, inl, inr, arith,
}
use video_meeting_recorder.Common.Maps.{Map, lookup}
use video_meeting_recorder.Errors.{Result, err, task_not_found}
use video_meeting_recorder.Task.{Task, recording, connecting, same_status}
use video_meeting_recorder.TaskService.Delete.{
  Tables, Writes, free_locks, delete_rows, delete_ids, can_delete_task, requested, deletable,
  is_nil, delete_allowed, row_limit, batch_delete_tasks,
}

-- Every row with the number may not go.
Blocked : ℕ → Bool → ℕ → Map Task → Type 0
Blocked user_id is_admin k [] = Unit {0}
Blocked user_id is_admin k ((j, t) ∷ db) =
    ((j == k) ≡ true → can_delete_task user_id is_admin t ≡ false) × Blocked user_id is_admin k db

Blocked-requested :
    (user_id : ℕ) (is_admin : Bool) (k : ℕ) (ids : List ℕ) (db : Map Task)
    → Blocked user_id is_admin k db
    → Blocked user_id is_admin k (requested ids db)
unfolding Blocked requested
Blocked-requested user_id is_admin k ids [] b = tt
Blocked-requested user_id is_admin k ids ((j, t) ∷ db) (h, b) = elim (Bool-cases (contains j ids)) [
  | inl e ↦ rw e (h, Blocked-requested user_id is_admin k ids db b)
  | inr e ↦ rw e (Blocked-requested user_id is_admin k ids db b)
]

Blocked-take :
    (user_id : ℕ) (is_admin : Bool) (k n : ℕ) (db : Map Task)
    → Blocked user_id is_admin k db
    → Blocked user_id is_admin k (take n db)
unfolding Blocked
Blocked-take user_id is_admin k zero db b = tt
Blocked-take user_id is_admin k (suc n) [] b = tt
Blocked-take user_id is_admin k (suc n) ((j, t) ∷ db) (h, b) =
    (h, Blocked-take user_id is_admin k n db b)

Blocked-deletable :
    (user_id : ℕ) (is_admin : Bool) (k : ℕ) (db : Map Task)
    → Blocked user_id is_admin k db
    → contains k (deletable user_id is_admin db) ≡ false
unfolding Blocked deletable contains
Blocked-deletable user_id is_admin k [] b = refl
Blocked-deletable user_id is_admin k ((j, t) ∷ db) (h, b) =
    ground (arith, Blocked-deletable user_id is_admin k db b)

-- No number has two rows.
unfoldable pub Distinct : Map Task → Type 0
Distinct [] = Unit {0}
Distinct ((k, t) ∷ db) = (lookup k db ≡ none) × Distinct db

absent-Blocked :
    (user_id : ℕ) (is_admin : Bool) (k : ℕ) (db : Map Task)
    → lookup k db ≡ none
    → Blocked user_id is_admin k db
unfolding Blocked lookup
absent-Blocked user_id is_admin k [] h = tt
absent-Blocked user_id is_admin k ((j, t) ∷ db) h =
    (λ e. ground (arith, h), absent-Blocked user_id is_admin k db (ground (arith, h)))

row-Blocked :
    (user_id : ℕ) (is_admin : Bool) (k : ℕ) (t : Task) (db : Map Task)
    → Distinct db
    → lookup k db ≡ some t
    → can_delete_task user_id is_admin t ≡ false
    → Blocked user_id is_admin k db
unfolding Blocked lookup Distinct
row-Blocked user_id is_admin k t [] d h c = tt
row-Blocked user_id is_admin k t ((j, u) ∷ db) (n, d) h c = elim (Bool-cases (k == j)) [
  | inl e ↦
      let same : k ≡ j = (==_iff k j).0 e in
      let first : some u ≡ some t = ground (arith, h) in
      let row : u ≡ t = cc in
      (
        λ q. ap (can_delete_task user_id is_admin) row ∙ c,
        absent-Blocked user_id is_admin k db (ap (λ i. lookup i db) same ∙ n),
      )
  | inr e ↦
      (λ q. absurd (ground arith), row-Blocked user_id is_admin k t db d (ground (arith, h)) c)
]

lookup-delete_rows :
    (ids : List ℕ) (k : ℕ) (db : Map Task)
    → contains k ids ≡ false
    → lookup k (delete_rows ids db) ≡ lookup k db
unfolding lookup delete_rows
lookup-delete_rows ids k [] h = refl
lookup-delete_rows ids k ((j, t) ∷ db) h = ground (arith, lookup-delete_rows ids k db h)

is_running : Task → Bool
is_running t = same_status t.status recording || same_status t.status connecting

running-stays :
    (user_id : ℕ) (is_admin : Bool) (t : Task)
    → is_running t ≡ true
    → can_delete_task user_id is_admin t ≡ false
unfolding can_delete_task is_running
running-stays user_id is_admin t h = ground (arith, h)

delete_ids-kept :
    (w : Writes) (ids : List ℕ) (k : ℕ) (s : Tables)
    → contains k ids ≡ false
    → lookup k (delete_ids w ids s).1.tasks ≡ lookup k s.tasks
unfolding delete_ids free_locks
delete_ids-kept w ids k s h = elim (Bool-cases (w.links_read && w.freed)) [
  | inl p ↦ elim (Bool-cases w.deleted) [
    | inl q ↦ rw (p, q) (lookup-delete_rows ids k s.tasks h)
    | inr q ↦ rw (p, q) refl
  ]
  | inr p ↦ elim (Bool-cases w.deleted) [
    | inl q ↦ rw (p, q) (lookup-delete_rows ids k s.tasks h)
    | inr q ↦ rw (p, q) refl
  ]
]

allowed-kept :
    (w : Writes) (ids : List ℕ) (k : ℕ) (s : Tables)
    → contains k ids ≡ false
    → lookup k (delete_allowed w ids s).1.tasks ≡ lookup k s.tasks
unfolding delete_allowed
allowed-kept w [] k s h = refl
allowed-kept w (i ∷ ids) k s h = delete_ids-kept w (i ∷ ids) k s h

-- A batch deletion keeps every task that is recording or connecting, whoever asks and whatever is asked for.
pub running_kept :
    (user_id : ℕ) (is_admin read : Bool) (w : Writes) (ids : List ℕ) (s : Tables) (k : ℕ) (t : Task)
    → Distinct s.tasks
    → lookup k s.tasks ≡ some t
    → (t.status ≡ recording) ⊎ (t.status ≡ connecting)
    → lookup k (batch_delete_tasks user_id is_admin read w ids s).1.tasks ≡ some t
unfolding batch_delete_tasks is_running same_status
running_kept user_id is_admin read w ids s k t d h r = elim (Bool-cases (is_nil ids)) [
  | inl p ↦ rw p h
  | inr p ↦ elim (Bool-cases read) [
    | inr q ↦ rw (p, q) h
    | inl q ↦ rw (p, q) (go (take row_limit (requested ids s.tasks)) blocked)
  ]
]
  where
    stays : can_delete_task user_id is_admin t ≡ false
    stays = running-stays user_id is_admin t (running r)
      where
        running : (t.status ≡ recording) ⊎ (t.status ≡ connecting) → is_running t ≡ true
        running (inl e) = ground arith
        running (inr e) = ground arith

    blocked : Blocked user_id is_admin k (take row_limit (requested ids s.tasks))
    blocked = Blocked-take user_id is_admin k row_limit (requested ids s.tasks) (
        Blocked-requested user_id is_admin k ids s.tasks
          (row-Blocked user_id is_admin k t s.tasks d h stays))

    go :
        (l : Map Task)
        → Blocked user_id is_admin k l
        → lookup k
            (elim l as (λ x. Result (Unit {0}) × Tables) [
              | [] ↦ (err task_not_found, s)
              | u ∷ us ↦ delete_allowed w (deletable user_id is_admin (u ∷ us)) s
            ]).1.tasks
          ≡ some t
    go [] b = h
    go (u ∷ us) b =
        allowed-kept w (deletable user_id is_admin (u ∷ us)) k s
          (Blocked-deletable user_id is_admin k (u ∷ us) b)
        ∙ h
