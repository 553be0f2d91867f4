-- ===== src/Terminal/Stale.antt =====
-- What the clean-up of stale locks leaves.
use video_meeting_recorder.Common.{
  ℕ, zero, suc, ◌+◌, ◌≤◌, ◌≡◌, sym, true, false, Option, none, some, List, [], ◌∷◌, ◌⊎◌, inl, inr,
  ◌==◌, if◌then◌else◌, Bool-cases, subst, arith,
}
use video_meeting_recorder.Common.Maps.{Map, lookup, lookup-insert}
use video_meeting_recorder.Task.{Status}
use video_meeting_recorder.InputConfig.{InputConfig, unlock}
use video_meeting_recorder.Terminal.{
  keeps_lock, locked_rows, clear_row, clear_rows, clear_stale_terminal_locks, row_limit,
}
use video_meeting_recorder.Terminal.Consistent.{Table}

-- How many rows are locked.
abbrev pub count_locked : Map InputConfig → ℕ
count_locked [] = 0
count_locked ((k, c) ∷ db) = (if c.is_locked then 1 else 0) + count_locked db

-- The list has a row of the ID whose holder does not keep its lock.
abbrev Listed : (ℕ → Option Status) → ℕ → List InputConfig → Type 0
Listed get_status k [] = ⊥
Listed get_status k (d ∷ cs) =
    ((d.id ≡ k) × (keeps_lock get_status d.locked_by ≡ false)) ⊎ Listed get_status k cs

-- Every row that is locked, and should not be, has its ID in the list.
abbrev Covered : (ℕ → Option Status) → List InputConfig → Map InputConfig → Type 0
Covered get_status cs db =
    (k : ℕ) (c : InputConfig)
    → lookup k db ≡ some c
    → c.is_locked ≡ true
    → keeps_lock get_status c.locked_by ≡ false
    → Listed get_status k cs

locked_rows-Covered :
    (get_status : ℕ → Option Status) (n : ℕ) (db : Map InputConfig)
    → Table db
    → count_locked db ≤ n
    → Covered get_status (locked_rows n db) db
unfolding lookup locked_rows
locked_rows-Covered get_status n [] v h k c l p q = ground arith
locked_rows-Covered get_status n ((j, d) ∷ db) v h k c l p q =
    go n h (Bool-cases d.is_locked) (λ m. locked_rows-Covered get_status m db v.1)
  where
    skips :
        (m : ℕ) → d.is_locked ≡ false → locked_rows (suc m) ((j, d) ∷ db) ≡ locked_rows (suc m) db
    skips m e = ground arith

    go :
        (m : ℕ)
        → count_locked ((j, d) ∷ db) ≤ m
        → (d.is_locked ≡ true) ⊎ (d.is_locked ≡ false)
        → ((i : ℕ) → count_locked db ≤ i → Covered get_status (locked_rows i db) db)
        → Listed get_status k (locked_rows m ((j, d) ∷ db))
    go zero b (inl e) ih = ground arith
    go zero b (inr e) ih =
        let rest : lookup k db ≡ some c = ground arith in ih 0 (ground arith) k c rest p q
    go (suc m) b (inl e) ih = elim (Bool-cases (k == j)) [
      | inl s ↦
          let same : d ≡ c = ground arith in
          simp (e, Listed)
            (inl (
              ground (arith, v.0),
              subst (λ (x : InputConfig). keeps_lock get_status x.locked_by ≡ false) (sym same) q,
            ))
      | inr s ↦
          let rest : lookup k db ≡ some c = ground arith in
          simp (e, Listed) (inr (ih m (ground arith) k c rest p q))
    ]
    go (suc m) b (inr e) ih =
        let rest : lookup k db ≡ some c = ground arith in
        subst (Listed get_status k) (sym (skips m e)) (ih (suc m) (ground arith) k c rest p q)

clear_row-Covered :
    (get_status : ℕ → Option Status) (d : InputConfig) (cs : List InputConfig)
    (db : Map InputConfig)
    → Covered get_status (d ∷ cs) db
    → Covered get_status cs (clear_row get_status (λ k. true) d db)
unfolding clear_row unlock
clear_row-Covered get_status d cs db v k c l p q = ground (
  arith,
  lookup-insert k d.id (record d { is_locked = false; locked_by = none; locked_at = none }) db,
  v k c,
)

clear_rows-Covered :
    (get_status : ℕ → Option Status) (cs : List InputConfig) (db : Map InputConfig)
    → Covered get_status cs db
    → Covered get_status [] (clear_rows get_status (λ k. true) cs db)
unfolding clear_rows
clear_rows-Covered get_status [] db v = v
clear_rows-Covered get_status (d ∷ cs) db v =
    clear_rows-Covered get_status cs (clear_row get_status (λ k. true) d db)
      (clear_row-Covered get_status d cs db v)

-- After a clean-up of a table with at most a thousand locked rows that is read and whose updates all
-- succeed, every lock that is left belongs to a task that the database has as recording or connecting.
pub clear_stale_lem :
    (get_status : ℕ → Option Status) (db : Map InputConfig) (k : ℕ) (c : InputConfig)
    → Table db
    → count_locked db ≤ row_limit
    → lookup k (clear_stale_terminal_locks true get_status (λ i. true) db).1 ≡ some c
    → c.is_locked ≡ true
    → keeps_lock get_status c.locked_by ≡ true
unfolding clear_stale_terminal_locks
clear_stale_lem get_status db k c v n l p = elim (Bool-cases (keeps_lock get_status c.locked_by)) [
  | inl e ↦ e
  | inr e ↦ absurd (
      clear_rows-Covered get_status (locked_rows row_limit db) db
        (locked_rows-Covered get_status row_limit db v n) k c l p e)
]
