-- ===== src/Terminal.antt =====
-- internal/services/video_recording/huawei_conference_connector.go: the terminal of a recording task.
-- The state is the table of input configurations; what the database and the terminal answer are
-- arguments. `none` and an error that wraps no sentinel are `external`.
mod Examples
pub mod Exclusive
pub mod Consistent
pub mod Stale
use video_meeting_recorder.Common.{
  ℕ, zero, suc, Bool, true, false, not, ◌&&◌, ◌||◌, Option, none, some, List, [], ◌∷◌, Text, codes,
  text_eq, if◌then◌else◌,
}
use video_meeting_recorder.Common.Maps.{Map, lookup, insert}
use video_meeting_recorder.Errors.{Result, ok, err, external, panic}
use video_meeting_recorder.State.{St, ◌>>=◌, ◌>>◌, lift, ignore}
use video_meeting_recorder.Task.{
  Status, recording, connecting, ConfigType, huawei_auto, usb, stream, TaskInputConfig, Task,
  same_status,
}
use video_meeting_recorder.InputConfig.{
  InputConfig, is_holder, lock, unlock, is_locked_by_task, validate,
}

abbrev pub Db : Type 0 → Type 0
Db A = St (Map InputConfig) A

unfoldable pub is_huawei_auto : ConfigType → Bool
is_huawei_auto huawei_auto = true
is_huawei_auto _ = false

-- The first configuration of the task of type huawei_auto.
unfoldable pub get_config_id : List TaskInputConfig → Result ℕ
unfolding is_huawei_auto
get_config_id [] = err external
get_config_id (tc ∷ tcs) =
    let rest = get_config_id tcs in
    if is_huawei_auto tc.config_type then ok tc.input_config_id else rest

unfoldable pub get_huawei_config : Bool → ℕ → Db InputConfig
get_huawei_config read config_id db = elim (lookup config_id db) [
  | none ↦ (err external, db)
  | some c ↦ (if read then ok c else err external, db)
]

-- db.Save of a whole row
unfoldable pub save_config : Bool → InputConfig → Db (Unit {0})
save_config saved c db = if saved then (ok tt, insert c.id c db) else (err external, db)

-- The message of the refusal reads the holder through its pointer.
unfoldable pub refuse_locked : Option ℕ → Result (Unit {0})
refuse_locked none = err panic
refuse_locked (some holder) = err external

unfoldable pub check_idle : Option Text → Result (Unit {0})
check_idle none = err external
check_idle (some status) = if text_eq status (codes "idle") then ok tt else err external

-- `status` is what GetTerminalStatus answers.
unfoldable pub lock_terminal : ℕ → ℕ → Option Text → Bool → InputConfig → Db (Unit {0})
unfolding is_locked_by_task refuse_locked check_idle lock save_config
lock_terminal now task_id status saved c db =
    if c.is_locked
    then (if is_holder task_id c.locked_by then (ok tt, db) else (refuse_locked c.locked_by, db))
    else (lift (check_idle status) >>= λ u.
          lift (lock now task_id c) >>= λ c'. save_config saved c')
        db

unfoldable pub unlock_terminal : Bool → Bool → ℕ → Db (Unit {0})
unfolding get_huawei_config save_config unlock
unlock_terminal read saved config_id =
    get_huawei_config read config_id >>= λ c. save_config saved (unlock c)

-- What the surroundings answer to `ConnectToConference`: the first read, the terminal's status, the
-- save of the lock, the two calls, the confirmation, and the read and the save of an unlock.
pub record Connect : Type 0 where
  pub now : ℕ
  pub read : Bool
  pub status : Option Text
  pub saved : Bool
  pub first_call : Bool
  pub second_call : Bool
  pub confirmed : Bool
  pub unlock_read : Bool
  pub unlock_saved : Bool

unfoldable pub give_up : Connect → ℕ → Db (Unit {0})
unfolding unlock_terminal
give_up x config_id =
    ignore (unlock_terminal x.unlock_read x.unlock_saved config_id) >> lift (err external)

-- SafeCallConference, once more after the client was dropped, and WaitForConnection.
unfoldable pub call_conference : Connect → ℕ → Db (Unit {0})
unfolding give_up
call_conference x config_id =
    if not (x.first_call || x.second_call)
    then give_up x config_id
    else if x.confirmed
    then lift (ok tt)
    else give_up x config_id

unfoldable pub connect_to_conference : Connect → Task → Db (Unit {0})
unfolding get_config_id get_huawei_config lock_terminal call_conference validate
connect_to_conference x t = lift (get_config_id t.task_input_configs) >>= λ config_id.
    get_huawei_config x.read config_id >>= λ c. lift (validate c) >>= λ u.
    lock_terminal x.now t.id x.status x.saved c >>= λ u. call_conference x c.id

-- The hang-up is tried, and neither its error nor that of the unlock is returned.
unfoldable pub disconnect_from_conference : Bool → Bool → Bool → Task → Db (Unit {0})
unfolding get_config_id get_huawei_config unlock_terminal
disconnect_from_conference read unlock_read unlock_saved t =
    lift (get_config_id t.task_input_configs) >>= λ config_id.
    get_huawei_config read config_id >>= λ c. ignore (unlock_terminal unlock_read unlock_saved c.id)

-- `idle` is what IsTerminalIdle answers.
unfoldable pub is_terminal_available : Bool → Option Bool → ℕ → Db Bool
unfolding get_huawei_config refuse_locked
is_terminal_available read idle config_id = get_huawei_config read config_id >>= λ c.
    lift (if c.is_locked then refuse_locked c.locked_by else ok tt) >>= λ u.
    lift (elim idle [ none ↦ err external | some b ↦ ok b ])

-- The first row that the task holds; `none` is that there is none.
unfoldable pub find_locked_by : ℕ → Map InputConfig → Option InputConfig
unfolding is_holder
find_locked_by task_id [] = none
find_locked_by task_id ((k, c) ∷ db) =
    let rest = find_locked_by task_id db in if is_holder task_id c.locked_by then some c else rest

unfoldable pub unlock_terminal_by_task_id : Bool → Bool → ℕ → Db (Unit {0})
unfolding find_locked_by is_locked_by_task unlock save_config
unlock_terminal_by_task_id read saved task_id db =
    if not read then (err external, db) else elim (find_locked_by task_id db) [
      | none ↦ (ok tt, db)
      | some c ↦
          if is_locked_by_task task_id c then save_config saved (unlock c) db else (ok tt, db)
    ]

-- Whether the holder keeps the lock: its task is recording or connecting. `get_status` is the status
-- of a task that the database finds.
unfoldable pub keeps_lock : (ℕ → Option Status) → Option ℕ → Bool
unfolding same_status
keeps_lock get_status none = false
keeps_lock get_status (some holder) = elim (get_status holder) [
  | none ↦ false
  | some status ↦ same_status status recording || same_status status connecting
]

-- The rows that are locked, up to a number.
unfoldable pub locked_rows : ℕ → Map InputConfig → List InputConfig
locked_rows zero db = []
locked_rows (suc n) [] = []
locked_rows (suc n) ((k, c) ∷ db) = elim c.is_locked [
  | true ↦ c ∷ locked_rows n db
  | false ↦ locked_rows (suc n) db
]

-- One round of the loop; `written` is whether the update of that row succeeds.
unfoldable pub clear_row :
    (ℕ → Option Status) → (ℕ → Bool) → InputConfig → Map InputConfig → Map InputConfig
unfolding keeps_lock unlock
clear_row get_status written c db =
    if keeps_lock get_status c.locked_by
    then db
    else if written c.id
    then insert c.id (unlock c) db
    else db

unfoldable pub clear_rows :
    (ℕ → Option Status) → (ℕ → Bool) → List InputConfig → Map InputConfig → Map InputConfig
unfolding clear_row
clear_rows get_status written [] db = db
clear_rows get_status written (c ∷ cs) db =
    clear_rows get_status written cs (clear_row get_status written c db)

-- Limit(1000) of the query
abbrev pub row_limit : ℕ
row_limit = 1000

unfoldable pub clear_stale_terminal_locks : Bool → (ℕ → Option Status) → (ℕ → Bool) → Db (Unit {0})
unfolding locked_rows clear_rows
clear_stale_terminal_locks read get_status written db =
    if read
    then (ok tt, clear_rows get_status written (locked_rows row_limit db) db)
    else (err external, db)
