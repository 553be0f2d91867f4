-- ===== src/Terminal/Exclusive.antt =====
-- A connection takes the terminal of its task only.
use video_meeting_recorder.Common.{
  ℕ, ◌≡◌, ◌≢◌, refl, true, false, Option, some, inl, inr, Bool-cases, Text, arith,
}
use video_meeting_recorder.Common.Maps.{Map, lookup, lookup-insert}
use video_meeting_recorder.Errors.{ok, err, external}
use video_meeting_recorder.Task.{Task}
use video_meeting_recorder.InputConfig.{InputConfig, lock, unlock, is_locked_by_task, validate}
use video_meeting_recorder.Terminal.{
  Connect, get_config_id, get_huawei_config, save_config, lock_terminal, unlock_terminal, give_up,
  call_conference, connect_to_conference, disconnect_from_conference, check_idle,
}

-- While another task holds the terminal of a task, connecting that task fails and leaves every
-- configuration as it is.
pub connect_foreign :
    (x : Connect) (t : Task) (db : Map InputConfig) (config_id : ℕ) (c : InputConfig) (holder : ℕ)
    → get_config_id t.task_input_configs ≡ ok config_id
    → lookup config_id db ≡ some c
    → c.is_locked ≡ true
    → c.locked_by ≡ some holder
    → holder ≢ t.id
    → connect_to_conference x t db ≡ (err external, db)
unfolding connect_to_conference get_huawei_config lock_terminal
connect_foreign x t db config_id c holder g l k b n = ground (arith, validate c)

-- Two tasks that have read a free row both lock it, whatever is stored in between, and the task that
-- saves last holds it: the check and the save are not one step.
pub lock_race :
    (c : InputConfig) (a b now later : ℕ) (db : Map InputConfig) (idle_a idle_b : Option Text)
    → c.is_locked ≡ false
    → check_idle idle_a ≡ ok tt
    → check_idle idle_b ≡ ok tt
    → let first = lock_terminal now a idle_a true c db in
      let second = lock_terminal later b idle_b true c first.1 in
      (first.0 ≡ ok tt)
      × (second.0 ≡ ok tt)
      × ((c' : InputConfig) × (lookup c.id second.1 ≡ some c') × (c'.locked_by ≡ some b))
unfolding lock_terminal lock save_config
lock_race c a b now later db idle_a idle_b f p q = (
  ground arith,
  ground arith,
  (
    record c { is_locked = true; locked_by = some b; locked_at = some later },
    ground (
      arith,
      lookup-insert c.id c.id
          (record c { is_locked = true; locked_by = some b; locked_at = some later })
          (lock_terminal now a idle_a true c db).1,
    ),
    refl,
  ),
)

-- After a disconnection that succeeds, whose writes succeed, the terminal of the task is free, also
-- when another task had locked it.
pub disconnect_frees :
    (t : Task) (db : Map InputConfig) (config_id : ℕ) (c : InputConfig)
    → get_config_id t.task_input_configs ≡ ok config_id
    → lookup config_id db ≡ some c
    → c.id ≡ config_id
    → let r = disconnect_from_conference true true true t db in
      (r.0 ≡ ok tt) × (lookup config_id r.1 ≡ some (unlock c))
unfolding disconnect_from_conference get_huawei_config unlock_terminal save_config
disconnect_frees t db config_id c g l i =
    (ground arith, ground (arith, lookup-insert config_id config_id (unlock c) db))

-- After a connection that succeeds, the task holds the terminal of its configuration.
pub connect_holds :
    (x : Connect) (t : Task) (db : Map InputConfig) (config_id : ℕ) (c : InputConfig)
    → get_config_id t.task_input_configs ≡ ok config_id
    → lookup config_id db ≡ some c
    → c.id ≡ config_id
    → (connect_to_conference x t db).0 ≡ ok tt
    → (d : InputConfig) × (lookup config_id (connect_to_conference x t db).1 ≡ some d)
      × (is_locked_by_task t.id d ≡ true)
unfolding connect_to_conference get_huawei_config lock_terminal save_config lock call_conference
    give_up
connect_holds x t db config_id c g l i h =
    let d = record c { is_locked = true; locked_by = some t.id; locked_at = some x.now } in
    elim (Bool-cases c.is_locked) [
      | inl e ↦ (c, ground (arith, validate c), ground (arith, validate c))
      | inr e ↦ (d, ground (arith, validate c, lookup-insert config_id c.id d db), ground arith)
    ]
