-- ===== src/Terminal/Consistent.antt =====
-- The table of configurations under any calls of the connector: each row stands under its ID, and is
-- locked exactly when it has a holder.
use video_meeting_recorder.Common.{
  ℕ, ◌≡◌, ◌≢◌, refl, Bool, true, false, not, ◌||◌, Option, none, some, List, [], ◌∷◌, inl, inr,
  ◌==◌, if◌then◌else◌, Bool-cases, Text, arith,
}
use video_meeting_recorder.Common.Maps.{Map, lookup, insert, delete}
use video_meeting_recorder.Errors.{Error, Result, ok, err, external, panic}
use video_meeting_recorder.State.{◌>>=◌, lift, ignore}
use video_meeting_recorder.Task.{Task, Status, TaskInputConfig}
use video_meeting_recorder.InputConfig.{InputConfig, lock, unlock, is_locked_by_task, validate}
use video_meeting_recorder.Terminal.{
  Db, Connect, get_config_id, get_huawei_config, save_config, refuse_locked, lock_terminal,
  unlock_terminal, give_up, call_conference, connect_to_conference, disconnect_from_conference,
  is_terminal_available, find_locked_by, unlock_terminal_by_task_id, locked_rows, clear_row,
  clear_rows, clear_stale_terminal_locks, row_limit,
}

unfoldable pub has_holder : Option ℕ → Bool
has_holder none = false
has_holder (some holder) = true

-- A row that stands under its ID and is locked exactly when it has a holder.
abbrev pub IsRow : ℕ → InputConfig → Type 0
IsRow k c = (c.id ≡ k) × (c.is_locked ≡ has_holder c.locked_by)

abbrev pub Table : Map InputConfig → Type 0
Table [] = Unit
Table ((k, c) ∷ db) = IsRow k c × Table db

delete-Table : (k : ℕ) (db : Map InputConfig) → Table db → Table (delete k db)
unfolding delete
delete-Table k [] v = tt
delete-Table k ((j, c) ∷ db) v = elim (Bool-cases (k == j)) [
  | inl e ↦ rw e (delete-Table k db v.1)
  | inr e ↦ rw e (v.0, delete-Table k db v.1)
]

-- A row is written back under its own ID.
insert-Table :
    (c : InputConfig) (db : Map InputConfig)
    → c.is_locked ≡ has_holder c.locked_by
    → Table db
    → Table (insert c.id c db)
unfolding insert
insert-Table c db w v = ((refl, w), delete-Table c.id db v)

lookup-IsRow :
    (k : ℕ) (c : InputConfig) (db : Map InputConfig) → Table db → lookup k db ≡ some c → IsRow k c
unfolding lookup
lookup-IsRow k c [] v h = ground arith
lookup-IsRow k c ((j, d) ∷ db) v h = ground (arith, lookup-IsRow k c db v.1)

unlocked : (c : InputConfig) → (unlock c).is_locked ≡ has_holder (unlock c).locked_by
unfolding unlock has_holder
unlocked c = refl

-- What a call leaves of a table: a table, a value as stated, and no panic.
record Leaves {A : Type 0} (Q : A → Type 0) (r : Result A × Map InputConfig) : Type 0 where
  table : Table r.1
  value : (a : A) → r.0 ≡ ok a → Q a
  no_panic : r.0 ≢ err panic

abbrev Keeps : {A : Type 0} → (A → Type 0) → Db A → Type 0
Keeps Q m = (db : Map InputConfig) → Table db → Leaves Q (m db)

abbrev Any : {A : Type 0} → A → Type 0
Any a = Unit

err-same :
    {A B : Type 0} (e : Error)
    → ◌≡◌ {A = Result B} (err e) (err panic)
    → ◌≡◌ {A = Result A} (err e) (err panic)
err-same e h = cc

err-ne-ok : {B : Type 0} (e : Error) (b : B) → err e ≡ ok b → ⊥
err-ne-ok e b h = cc

bind-Keeps :
    {A B : Type 0} (Q : A → Type 0) (R : B → Type 0) (m : Db A) (f : A → Db B)
    → Keeps Q m
    → ((a : A) → Q a → Keeps R (f a))
    → Keeps R (m >>= f)
bind-Keeps {A} {B} Q R m f k l db v = go (m db) (k db v)
  where
    go :
        (r : Result A × Map InputConfig)
        → Leaves Q r
        → Leaves R (elim r.0 as (λ x. Result B × Map InputConfig) [
          | err e ↦ (err e, r.1)
          | ok a ↦ f a r.1
        ])
    go (err e, d) w = record {
      table = w.table;
      value = λ b h. absurd (err-ne-ok e b h);
      no_panic = λ h. w.no_panic (err-same e h);
    }
    go (ok a, d) w = l a (w.value a refl) d w.table

-- A result that is no panic.
lift-Keeps : {A : Type 0} (r : Result A) → r ≢ err panic → Keeps Any (lift r)
lift-Keeps r n db v = record { table = v; value = λ a h. tt; no_panic = n }

ignore-Keeps : {A : Type 0} (Q : A → Type 0) (m : Db A) → Keeps Q m → Keeps Any (ignore m)
ignore-Keeps Q m k db v = record { table = (k db v).table; value = λ a h. tt; no_panic = λ h. cc }

abbrev Held : InputConfig → Type 0
Held c = c.is_locked ≡ has_holder c.locked_by

get_huawei_config-Keeps : (read : Bool) (k : ℕ) → Keeps Held (get_huawei_config read k)
unfolding get_huawei_config
get_huawei_config-Keeps read k db v = go (lookup k db) refl
  where
    go :
        (o : Option InputConfig)
        → lookup k db ≡ o
        → Leaves Held (elim o as (λ x. Result InputConfig × Map InputConfig) [
          | none ↦ (err external, db)
          | some c ↦ (if read then ok c else err external, db)
        ])
    go none e = record {
      table = v;
      value = λ c h. absurd (err-ne-ok external c h);
      no_panic = λ h. ground arith;
    }
    go (some c) e = record {
      table = v;
      value = λ d h. ground (arith, lookup-IsRow k c db v e);
      no_panic = λ h. ground arith;
    }

save_config-Keeps : (saved : Bool) (c : InputConfig) → Held c → Keeps Any (save_config saved c)
unfolding save_config
save_config-Keeps true c w db v = record {
  table = insert-Table c db w v;
  value = λ a h. tt;
  no_panic = λ h. cc;
}
save_config-Keeps false c w db v = record {
  table = v;
  value = λ a h. tt;
  no_panic = λ h. ground arith;
}

unlock_terminal-Keeps : (read saved : Bool) (k : ℕ) → Keeps Any (unlock_terminal read saved k)
unfolding unlock_terminal
unlock_terminal-Keeps read saved k =
    bind-Keeps Held Any (get_huawei_config read k) (λ c. save_config saved (unlock c))
      (get_huawei_config-Keeps read k) (λ c w. save_config-Keeps saved (unlock c) (unlocked c))

-- A row that is locked exactly when it has a holder is locked, or refused, without a panic.
lock_terminal-Keeps :
    (now task_id : ℕ) (status : Option Text) (saved : Bool) (c : InputConfig)
    → Held c
    → Keeps Any (lock_terminal now task_id status saved c)
unfolding lock_terminal lock has_holder
lock_terminal-Keeps now task_id status saved c w db v =
    let c' = record c { is_locked = true; locked_by = some task_id; locked_at = some now } in
    let k = save_config-Keeps saved c' refl db v in
    record {
      table = ground (arith, k.table);
      value = λ a h. tt;
      no_panic = λ h. ground (arith, k.no_panic);
    }

give_up-Keeps : (x : Connect) (k : ℕ) → Keeps Any (give_up x k)
unfolding give_up
give_up-Keeps x k =
    bind-Keeps Any Any _ _
      (ignore-Keeps Any _ (unlock_terminal-Keeps x.unlock_read x.unlock_saved k))
      (λ u w. lift-Keeps (err external) (λ h. ground arith))

call_conference-Keeps : (x : Connect) (k : ℕ) → Keeps Any (call_conference x k)
unfolding call_conference
call_conference-Keeps x k db v =
    let g = give_up-Keeps x k db v in
    elim (Bool-cases (x.first_call || x.second_call)) [
      | inr e ↦ rw e g
      | inl e ↦ elim (Bool-cases x.confirmed) [
        | inr d ↦ rw (e, d) g
        | inl d ↦ rw (e, d) (record { table = v; value = λ a h. tt; no_panic = λ h. cc })
      ]
    ]

get_config_id-ne-panic : (tcs : List TaskInputConfig) → get_config_id tcs ≢ err panic
unfolding get_config_id
get_config_id-ne-panic [] h = ground arith
get_config_id-ne-panic (tc ∷ tcs) h = ground (arith, get_config_id-ne-panic tcs)

validate-ne-panic : (c : InputConfig) → validate c ≢ err panic
unfolding validate
validate-ne-panic c h = ground arith

connect-Keeps : (x : Connect) (t : Task) → Keeps Any (connect_to_conference x t)
unfolding connect_to_conference
connect-Keeps x t =
    bind-Keeps Any Any _ _ (lift-Keeps _ (get_config_id-ne-panic t.task_input_configs)) λ k u.
      bind-Keeps Held Any _ _ (get_huawei_config-Keeps x.read k) λ c w.
        bind-Keeps Any Any _ _ (lift-Keeps _ (validate-ne-panic c)) λ n m.
          bind-Keeps Any Any _ _ (lock_terminal-Keeps x.now t.id x.status x.saved c w)
            λ n m. call_conference-Keeps x c.id

disconnect-Keeps :
    (read unlock_read unlock_saved : Bool) (t : Task)
    → Keeps Any (disconnect_from_conference read unlock_read unlock_saved t)
unfolding disconnect_from_conference
disconnect-Keeps read unlock_read unlock_saved t =
    bind-Keeps Any Any _ _ (lift-Keeps _ (get_config_id-ne-panic t.task_input_configs)) λ k u.
      bind-Keeps Held Any _ _ (get_huawei_config-Keeps read k)
        λ c w. ignore-Keeps Any _ (unlock_terminal-Keeps unlock_read unlock_saved c.id)

holder_safe :
    (c : InputConfig)
    → Held c
    → (if c.is_locked then refuse_locked c.locked_by else ok tt) ≢ err panic
unfolding refuse_locked has_holder
holder_safe c w h = ground arith

idle-ne-panic :
    (idle : Option Bool)
    → elim idle as (λ o. Result Bool) [ none ↦ err external | some b ↦ ok b ] ≢ err panic
idle-ne-panic none h = ground arith
idle-ne-panic (some b) h = ground arith

available-Keeps :
    (read : Bool) (idle : Option Bool) (k : ℕ) → Keeps Any (is_terminal_available read idle k)
unfolding is_terminal_available
available-Keeps read idle k = bind-Keeps Held Any _ _ (get_huawei_config-Keeps read k) λ c w.
    bind-Keeps Any Any _ _ (lift-Keeps _ (holder_safe c w)) λ n m. lift-Keeps _ (idle-ne-panic idle)

by_task_id-Keeps :
    (read saved : Bool) (task_id : ℕ) → Keeps Any (unlock_terminal_by_task_id read saved task_id)
unfolding unlock_terminal_by_task_id
by_task_id-Keeps read saved task_id db v = go read (find_locked_by task_id db)
  where
    same : Leaves Any (ok tt, db)
    same = record { table = v; value = λ a h. tt; no_panic = λ h. cc }

    go :
        (b : Bool) (o : Option InputConfig)
        → Leaves Any (
            if not b
            then (err external, db)
            else elim o as (λ x. Result (Unit {0}) × Map InputConfig) [
              | none ↦ (ok tt, db)
              | some c ↦
                  if is_locked_by_task task_id c
                  then save_config saved (unlock c) db
                  else (ok tt, db)
            ])
    go false o = record { table = v; value = λ a h. tt; no_panic = λ h. ground arith }
    go true none = same
    go true (some c) = elim (Bool-cases (is_locked_by_task task_id c)) [
      | inl e ↦ rw e (save_config-Keeps saved (unlock c) (unlocked c) db v)
      | inr e ↦ rw e same
    ]

clear_rows-Table :
    (get_status : ℕ → Option Status) (written : ℕ → Bool) (cs : List InputConfig)
    (db : Map InputConfig)
    → Table db
    → Table (clear_rows get_status written cs db)
unfolding clear_rows clear_row
clear_rows-Table get_status written [] db v = v
clear_rows-Table get_status written (c ∷ cs) db v =
    clear_rows-Table get_status written cs (clear_row get_status written c db)
      (ground (arith, insert-Table (unlock c) db (unlocked c) v))

clear-Keeps :
    (read : Bool) (get_status : ℕ → Option Status) (written : ℕ → Bool)
    → Keeps Any (clear_stale_terminal_locks read get_status written)
unfolding clear_stale_terminal_locks
clear-Keeps true get_status written db v = record {
  table = clear_rows-Table get_status written (locked_rows row_limit db) db v;
  value = λ a h. tt;
  no_panic = λ h. cc;
}
clear-Keeps false get_status written db v = record {
  table = v;
  value = λ a h. tt;
  no_panic = λ h. ground arith;
}

-- Calls of the connector.
pub data Call : Type 0 where
  connects : Connect → Task → Call
  disconnects : (read unlock_read unlock_saved : Bool) → Task → Call
  asks : (read : Bool) → Option Bool → ℕ → Call
  unlocks : (read saved : Bool) → ℕ → Call
  clears : (read : Bool) → (ℕ → Option Status) → (ℕ → Bool) → Call

abbrev no_value : {A : Type 0} → Result A → Result (Unit {0})
no_value (ok a) = ok tt
no_value (err e) = err e

unfoldable pub step : Call → Db (Unit {0})
step (connects x t) db = connect_to_conference x t db
step (disconnects read unlock_read unlock_saved t) db =
    disconnect_from_conference read unlock_read unlock_saved t db
step (asks read idle k) db = let r = is_terminal_available read idle k db in (no_value r.0, r.1)
step (unlocks read saved task_id) db = unlock_terminal_by_task_id read saved task_id db
step (clears read get_status written) db = clear_stale_terminal_locks read get_status written db

unfoldable pub run : List Call → Map InputConfig → Map InputConfig
unfolding step
run [] db = db
run (x ∷ xs) db = run xs (step x db).1

asks-Leaves : (r : Result Bool × Map InputConfig) → Leaves Any r → Leaves Any (no_value r.0, r.1)
asks-Leaves (ok b, d) w = record { table = w.table; value = λ a h. tt; no_panic = λ h. cc }
asks-Leaves (err e, d) w = record {
  table = w.table;
  value = λ a h. tt;
  no_panic = λ h. w.no_panic (err-same e h);
}

step-Keeps : (x : Call) → Keeps Any (step x)
unfolding step
step-Keeps (connects x t) db v = connect-Keeps x t db v
step-Keeps (disconnects read unlock_read unlock_saved t) db v =
    disconnect-Keeps read unlock_read unlock_saved t db v
step-Keeps (asks read idle k) db v =
    asks-Leaves (is_terminal_available read idle k db) (available-Keeps read idle k db v)
step-Keeps (unlocks read saved task_id) db v = by_task_id-Keeps read saved task_id db v
step-Keeps (clears read get_status written) db v = clear-Keeps read get_status written db v

run-Table : (xs : List Call) (db : Map InputConfig) → Table db → Table (run xs db)
unfolding run
run-Table [] db v = v
run-Table (x ∷ xs) db v = run-Table xs (step x db).1 (step-Keeps x db v).table

-- From a table whose rows stand under their IDs and are locked exactly when they have a holder, any
-- calls of the connector, whatever fails in them, leave such a table, and the call after them does not
-- panic on a missing holder.
pub run-step-ne-panic :
    (xs : List Call) (x : Call) (db : Map InputConfig)
    → Table db
    → Table (run xs db) × ((step x (run xs db)).0 ≢ err panic)
run-step-ne-panic xs x db v =
    (run-Table xs db v, (step-Keeps x (run xs db) (run-Table xs db v)).no_panic)
