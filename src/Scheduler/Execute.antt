-- ===== src/Scheduler/Execute.antt =====
-- `executeTask` (video_scheduler.go) from the load of the task to the start of its monitor, on the row
-- of the task, the table of input configurations and the registry of processes.
pub mod Started
pub mod Leak
use video_meeting_recorder.Common.{
  ℕ, zero, suc, Bool, true, false, not, ◌&&◌, ◌||◌, Option, none, some, List, [], ◌∷◌, map, Text,
  codes, is_empty, length, ltb, ◌==◌, if◌then◌else◌,
}
use video_meeting_recorder.Common.Maps.{Map, lookup}
use video_meeting_recorder.Common.Clock.{after}
use video_meeting_recorder.Errors.{Error, Result, ok, err, external, invalid_input, task_not_found}
use video_meeting_recorder.State.{St, ◌>>=◌, ◌>>◌, lift, ignore}
use video_meeting_recorder.Task.{
  Status, pending, connecting, recording, failed, Task, TaskInputConfig, same_status,
}
use video_meeting_recorder.InputConfig.{InputConfig}
use video_meeting_recorder.Terminal.{
  Db, Connect, is_huawei_auto, connect_to_conference, disconnect_from_conference,
}
use video_meeting_recorder.Recorder.Source.{build_recording_input, has_stream, has_usb}
use video_meeting_recorder.Recorder.Command.{FFmpegConfig, build_input_args}
use video_meeting_recorder.Recorder.Registry.{Coordinator, Launch}
use video_meeting_recorder.Scheduler.Status.{update_task_status}
use video_meeting_recorder.Scheduler.Launch.{Attempt, Launched, start_recordings}

pub record World : Type 0 where
  pub task : Option Task
  pub configs : Map InputConfig
  pub coordinator : Coordinator

-- A change of the status: whether the database answers the read, and the write.
pub record Write : Type 0 where
  pub found : Bool
  pub written : Bool

-- What a disconnection meets: the read, and the read and the save of the unlock.
pub record Disconnect : Type 0 where
  pub read : Bool
  pub unlock_read : Bool
  pub unlock_saved : Bool

-- What the surroundings answer, in the order of the code. A query of the task's configurations may
-- fail; `error_text` is the message of an error.
pub record Answers : Type 0 where
  pub found : Bool
  pub now : ℕ
  pub to_connecting : Write
  pub task_configs : Option (List TaskInputConfig)
  pub has_connector : Bool
  pub connect : Connect
  pub delay_cancelled : Bool
  pub task_configs_again : Option (List TaskInputConfig)
  pub config_read : ℕ → Bool
  pub to_recording : Write
  pub launch : ℕ → Launch
  pub to_failed : Write
  pub disconnect : Disconnect
  pub paths_written : Bool
  pub error_text : Text

unfoldable pub load_task : Bool → St World Task
load_task found w = elim w.task [
  | none ↦ (err external, w)
  | some t ↦ (if found then ok t else err external, w)
]

unfoldable pub set_status : Write → Status → Text → St World (Unit {0})
set_status x status message w =
    elim (update_task_status (if x.found then w.task else none) x.written status message) [
      | ok t ↦ (ok tt, record w { task = some t })
      | err e ↦ (err e, w)
    ]

-- `updateTaskStatus` to failed, whose error is ignored, and the return.
unfoldable pub fail_with : {A : Type 0} → Answers → Text → St World A
unfolding set_status
fail_with x message = ignore (set_status x.to_failed failed message) >> lift (err external)

-- A call of the conference connector on the table of configurations.
abbrev pub on_configs : {A : Type 0} → Db A → St World A
on_configs m w = let (r, configs) = m w.configs in (r, record w { configs = configs })

unfoldable pub any_huawei_auto : List TaskInputConfig → Bool
unfolding is_huawei_auto
any_huawei_auto [] = false
any_huawei_auto (tc ∷ tcs) = is_huawei_auto tc.config_type || any_huawei_auto tcs

unfoldable pub query : {A : Type 0} → Answers → Option A → St World A
unfolding fail_with
query x none = fail_with x x.error_text
query x (some a) = lift (ok a)

-- The connection, if there is a terminal to control.
unfoldable pub join : Answers → Task → List TaskInputConfig → St World (Unit {0})
unfolding any_huawei_auto fail_with
join x t tcs w =
    if x.has_connector && any_huawei_auto tcs
    then (let (r, w') = on_configs (connect_to_conference x.connect t) w in
        elim r [ ok u ↦ (ok tt, w') | err e ↦ fail_with x x.error_text w' ])
    else (ok tt, w)

-- The configurations that the database finds, in the order of the task's list.
unfoldable pub load_configs : (ℕ → Bool) → List TaskInputConfig → Map InputConfig → List InputConfig
load_configs read [] db = []
load_configs read (tc ∷ tcs) db =
    let rest = load_configs read tcs db in
    if read tc.input_config_id
    then elim (lookup tc.input_config_id db) [ none ↦ rest | some c ↦ c ∷ rest ]
    else rest

unfoldable pub any_source : List InputConfig → Bool
unfolding has_usb has_stream
any_source [] = false
any_source (c ∷ cs) = has_usb c || has_stream c || any_source cs

unfoldable pub builds : Result (List Text) → Bool
builds (ok args) = true
builds (err e) = false

-- What the start of a configuration meets, with the input and the command that the code builds.
unfoldable pub attempt_of : FFmpegConfig → Answers → Task → InputConfig → Attempt
unfolding builds
attempt_of f x t c =
    let input = build_recording_input t.rtsp_stream_url c in
    record {
      config_id = c.id;
      source = input.type;
      launch = record (x.launch c.id) { command = builds (build_input_args f input) };
    }

-- `UpdateRecordingPaths`, whose error is only logged.
unfoldable pub update_recording_paths : Bool → Task → World → World
update_recording_paths written t w = elim w.task [
  | none ↦ w
  | some row ↦
      if written
      then record w {
        task = some (record row {
          recording_file = t.mkv_file_path;
          mkv_file_path = t.mkv_file_path;
          hls_preview_path = t.hls_preview_path;
        });
      }
      else w
]

unfoldable pub clean_up : Answers → Task → St World (Unit {0})
clean_up x t =
    if x.has_connector
    then ignore (
        on_configs (
          disconnect_from_conference x.disconnect.read x.disconnect.unlock_read
            x.disconnect.unlock_saved t))
    else lift (ok tt)

-- The recordings, and what follows when all have failed or one has started: the task that is monitored.
unfoldable pub record_all : Answers → List TaskInputConfig → List Attempt → Task → St World Task
unfolding fail_with clean_up update_recording_paths
record_all x tcs attempts t w =
    let l = start_recordings tcs w.coordinator t attempts in
    let w' = record w { coordinator = l.coordinator } in
    if l.errors == length attempts
    then (ignore (set_status x.to_failed failed (codes "所有录制启动失败"))
          >> clean_up x l.task
          >> lift (err external))
        w'
    else (ok l.task, update_recording_paths x.paths_written l.task w')

unfoldable pub no_configs : List TaskInputConfig → Bool
no_configs [] = true
no_configs (tc ∷ tcs) = false

unfoldable pub start_all : FFmpegConfig → Answers → Task → List TaskInputConfig → St World Task
unfolding load_configs any_source record_all fail_with no_configs
start_all f x t tcs w =
    let configs = load_configs x.config_read tcs w.configs in
    if no_configs tcs
    then fail_with x (codes "无录制配置：请至少添加一个输入配置（USB/流媒体）") w
    else if not (any_source configs)
    then fail_with x (codes "配置中没有可用的输入源（USB或流媒体）") w
    else (set_status x.to_recording recording []
          >> record_all x tcs (map (attempt_of f x t) configs) t)
        w

-- The checks of a loaded task, and all that follows them.
unfoldable pub execute_loaded : FFmpegConfig → Answers → Task → St World Task
unfolding query join start_all
execute_loaded f x t =
    if not (same_status t.status pending)
    then lift (err invalid_input)
    else if after x.now t.end_time
    then fail_with x (codes "任务已过期")
    else (set_status x.to_connecting connecting [] >>= λ u. query x x.task_configs >>= λ tcs.
        join x t tcs >>= λ u.
        lift (if ltb 0 t.record_delay_minutes && x.delay_cancelled then err external else ok tt)
        >>= λ u. query x x.task_configs_again >>= λ tcs. start_all f x t tcs)

-- The result is the task that is monitored; an error is a return before the monitor.
unfoldable pub execute_task : FFmpegConfig → Answers → St World Task
unfolding load_task execute_loaded
execute_task f x = load_task x.found >>= λ t. execute_loaded f x t
