-- ===== src/TaskService/Stuck/Fate.antt =====
-- ClearStuckTasks of video_recording_task_service.go: what becomes of each task.
use video_meeting_recorder.Common.{
  ℕ, ◌+◌, ◌*◌, ◌≡◌, refl, subst, ap, ◌∙◌, ◌≤◌, ◌<◌, ◌⊎◌, true, false, none, some, List, [], ◌∷◌,
  contains, length, take-short, ◌==◌, ==_iff, if◌then◌else◌, Bool-cases, inl, inr, arith,
}
use video_meeting_recorder.Common.Int.{pos}
use video_meeting_recorder.Common.Clock.{minute}
use video_meeting_recorder.Common.Maps.{Map, lookup, lookup-insert}
use video_meeting_recorder.Task.{Status, converting, failed, same_status}
use video_meeting_recorder.Conversion.{ConversionStatus}
use video_meeting_recorder.TaskService.Delete.{row_limit}
use video_meeting_recorder.TaskService.Stuck.{
  Row, Tables, ClearStuckTasksResult, Answers, timeout_or_default, is_stuck, stuck, cleared,
  unlock_all, clear_one, clear_each, nothing_cleared, clear_stuck_tasks,
}

-- Every entry under the number is the row.
Agrees : ℕ → Row → Map Row → Type 0
Agrees k r [] = Unit {0}
Agrees k r ((j, x) ∷ db) = ((j == k) ≡ true → x ≡ r) × Agrees k r db

-- No number has two rows.
unfoldable pub Distinct : Map Row → Type 0
Distinct [] = Unit {0}
Distinct ((k, r) ∷ db) = (lookup k db ≡ none) × Distinct db

keys : Map Row → List ℕ
keys [] = []
keys ((k, r) ∷ db) = k ∷ keys db

absent-Agrees : (k : ℕ) (r : Row) (db : Map Row) → lookup k db ≡ none → Agrees k r db
unfolding Agrees lookup
absent-Agrees k r [] h = tt
absent-Agrees k r ((j, x) ∷ db) h =
    (λ e. absurd (ground (arith, h, e)), absent-Agrees k r db (ground (arith, h)))

Distinct-Agrees :
    (k : ℕ) (r : Row) (db : Map Row) → Distinct db → lookup k db ≡ some r → Agrees k r db
unfolding Agrees lookup Distinct
Distinct-Agrees k r [] d h = tt
Distinct-Agrees k r ((j, x) ∷ db) (n, d) h = elim (Bool-cases (k == j)) [
  | inl e ↦
      let first : some x ≡ some r = ground (arith, h) in
      let row : x ≡ r = cc in
      (λ q. row, absent-Agrees k r db (ap (λ i. lookup i db) ((==_iff k j).0 e) ∙ n))
  | inr e ↦ (λ q. absurd (ground arith), Distinct-Agrees k r db d (ground (arith, h)))
]

stuck-Agrees : (m now k : ℕ) (r : Row) (db : Map Row) → Agrees k r db → Agrees k r (stuck m now db)
unfolding Agrees stuck
stuck-Agrees m now k r [] a = tt
stuck-Agrees m now k r ((j, x) ∷ db) (h, a) = elim (Bool-cases (is_stuck m now x)) [
  | inl e ↦ rw e (h, stuck-Agrees m now k r db a)
  | inr e ↦ rw e (stuck-Agrees m now k r db a)
]

-- The query returns a row exactly when it is stuck.
stuck-keys :
    (m now k : ℕ) (r : Row) (db : Map Row)
    → Agrees k r db
    → is_stuck m now r ≡ false
    → contains k (keys (stuck m now db)) ≡ false
unfolding Agrees stuck keys contains
stuck-keys m now k r [] a f = refl
stuck-keys m now k r ((j, x) ∷ db) (h, a) f = elim (Bool-cases (is_stuck m now x)) [
  | inr e ↦ rw e (stuck-keys m now k r db a f)
  | inl e ↦ elim (Bool-cases (j == k)) [
    | inl s ↦
        let same = subst (λ y. is_stuck m now y ≡ true) (h s) e in absurd (ground (arith, same, f))
    | inr s ↦ let rest = stuck-keys m now k r db a f in rw e (ground (arith, rest, s))
  ]
]

stuck_key :
    (m now k : ℕ) (r : Row) (db : Map Row)
    → lookup k db ≡ some r
    → is_stuck m now r ≡ true
    → contains k (keys (stuck m now db)) ≡ true
unfolding lookup stuck keys contains
stuck_key m now k r [] h f = absurd (ground arith)
stuck_key m now k r ((j, x) ∷ db) h f = elim (Bool-cases (k == j)) [
  | inl s ↦
      let first : some x ≡ some r = ground (arith, h) in
      let row : r ≡ x = cc in
      let here = subst (λ y. is_stuck m now y ≡ true) row f in rw here (ground (arith, s))
  | inr s ↦
      let rest = stuck_key m now k r db (ground (arith, h)) f in
      elim (Bool-cases (is_stuck m now x)) [
        | inl e ↦ rw e (ground (arith, rest))
        | inr e ↦ rw e rest
      ]
]

unlock_all-rows :
    (a : Answers) (id : ℕ) (x : ClearStuckTasksResult × Tables)
    → (unlock_all a id x).1.rows ≡ x.1.rows
unfolding unlock_all
unlock_all-rows a id (result, s) = ground arith

clear_one-row :
    (a : Answers) (m now k id : ℕ) (r : Row) (x : ClearStuckTasksResult × Tables)
    → a.saved id ≡ true
    → lookup k (clear_one a m now (id, r) x).1.rows
      ≡ (if k == id then some (cleared a m now r) else lookup k x.1.rows)
unfolding clear_one
clear_one-row a m now k id r (result, s) w =
    rw (w, unlock_all-rows) (lookup-insert k id (cleared a m now r) s.rows)

-- What the loop leaves under a number.
clear_each-row :
    (a : Answers) (m now k : ℕ) (r : Row) (rs : Map Row) (x : ClearStuckTasksResult × Tables)
    → ((id : ℕ) → a.saved id ≡ true)
    → Agrees k r rs
    → lookup k (clear_each a m now rs x).1.rows
      ≡ (if contains k (keys rs) then some (cleared a m now r) else lookup k x.1.rows)
unfolding clear_each keys contains Agrees
clear_each-row a m now k r [] x w g = refl
clear_each-row a m now k r ((id, y) ∷ rs) x w (h, g) =
    let rest = clear_each-row a m now k r rs (clear_one a m now (id, y) x) w g in
    let one = clear_one-row a m now k id y x (w id) in
    elim (Bool-cases (contains k (keys rs))) [
      | inl c ↦ rest ∙ rw c (ground arith)
      | inr c ↦ elim (Bool-cases (k == id)) [
        | inl s ↦ let same : y ≡ r = h (ground (arith, s)) in rest ∙ rw (c, one, s, same) refl
        | inr s ↦ rest ∙ rw (c, one, s) refl
      ]
    ]

length-stuck : (m now : ℕ) (db : Map Row) → length (stuck m now db) ≤ length db
unfolding stuck
length-stuck m now [] = omega arith
length-stuck m now ((k, r) ∷ db) = ground (arith, length-stuck m now db)

clear_stuck_tasks-row :
    (a : Answers) (now minutes k : ℕ) (r : Row) (s : Tables)
    → Distinct s.rows
    → length s.rows ≤ row_limit
    → a.found ≡ true
    → ((id : ℕ) → a.saved id ≡ true)
    → 0 < minutes
    → lookup k s.rows ≡ some r
    → lookup k (clear_stuck_tasks a now (pos minutes) s).1.rows ≡ (
        if contains k (keys (stuck minutes now s.rows))
        then some (cleared a minutes now r)
        else lookup k s.rows)
unfolding clear_stuck_tasks timeout_or_default
clear_stuck_tasks-row a now minutes k r s d l f w p h =
    let set : (minutes == 0) ≡ false = ground arith in
    let agrees = stuck-Agrees minutes now k r s.rows (Distinct-Agrees k r s.rows d h) in
    let short : length (stuck minutes now s.rows) ≤ row_limit =
      omega (arith, l, length-stuck minutes now s.rows) in
    rw (f, set, take-short row_limit (stuck minutes now s.rows) short)
      (clear_each-row a minutes now k r (stuck minutes now s.rows) (nothing_cleared, s) w agrees)

is_converting : (x : Status) → same_status x converting ≡ true → x ≡ converting
unfolding same_status
is_converting x h = ground arith

stuck_if :
    (m now : ℕ) (r : Row)
    → r.task.status ≡ converting
    → r.updated_at + m * minute < now
    → is_stuck m now r ≡ true
unfolding is_stuck same_status
stuck_if m now r c o = ground arith

free_if :
    (m now : ℕ) (r : Row)
    → ((r.task.status ≡ converting → ⊥) ⊎ (now ≤ r.updated_at + m * minute))
    → is_stuck m now r ≡ false
unfolding is_stuck same_status
free_if m now r (inl c) = elim (Bool-cases (same_status r.task.status converting)) [
  | inl e ↦ absurd (c (is_converting r.task.status e))
  | inr e ↦ rw e refl
]
free_if m now r (inr o) = ground arith

-- The database answers the query and saves every task, no number has two rows, and there are at most as
-- many rows as the query returns. Then a task that is being converted, and whose row was written more
-- than the given number of minutes ago, which is positive, is stored as failed, as is its conversion, with
-- the message, and is otherwise as it was; every other task stays as it was.
pub clear_stuck_tasks_lem :
    (a : Answers) (now minutes k : ℕ) (r : Row) (s : Tables)
    → Distinct s.rows
    → length s.rows ≤ 5000
    → a.found ≡ true
    → ((id : ℕ) → a.saved id ≡ true)
    → 0 < minutes
    → lookup k s.rows ≡ some r
    → let after = lookup k (clear_stuck_tasks a now (pos minutes) s).1.rows in
      (r.task.status ≡ converting
        → r.updated_at + minutes * minute < now
        → (r' : Row) × (after ≡ some r')
          × (r'.task ≡ record r.task { status = failed; error_msg = a.message minutes })
          × (r'.conversion_status ≡ ConversionStatus.failed))
      × ((r.task.status ≡ converting → ⊥) ⊎ (now ≤ r.updated_at + minutes * minute)
          → after ≡ some r)
unfolding cleared
clear_stuck_tasks_lem a now minutes k r s d l f w p h =
    let left = clear_stuck_tasks-row a now minutes k r s d l f w p h in
    (
      λ c o.
          let in_keys = stuck_key minutes now k r s.rows h (stuck_if minutes now r c o) in
          (cleared a minutes now r, left ∙ rw in_keys refl, refl, refl),
      λ n.
          let agrees = Distinct-Agrees k r s.rows d h in
          let not_in = stuck-keys minutes now k r s.rows agrees (free_if minutes now r n) in
          left ∙ rw not_in h,
    )
