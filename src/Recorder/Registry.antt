-- ===== src/Recorder/Registry.antt =====
-- The registry of recording processes (coordinator.go). A process has the state that the code reads
-- of its command and of its context; the results of the operating system are arguments.
use video_meeting_recorder.Common.{
  ℕ, suc, ◌+◌, Bool, true, false, not, ◌&&◌, ◌||◌, Option, none, some, List, [], ◌∷◌, Text,
  is_empty, codes, text_eq, has_prefix, ltb, leb, ◌==◌, if◌then◌else◌,
}
use video_meeting_recorder.Common.Maps.{Map, lookup, insert}
use video_meeting_recorder.Errors.{Result, ok, err, internal, task_not_found, ffmpeg_failed}
use video_meeting_recorder.Task.{Task}
use video_meeting_recorder.Recorder.Decimal.{decimal, get_process_key, key_prefix}
use video_meeting_recorder.Recorder.Source.{InputSourceType, usb}

pub record Process : Type 0 where
  pub task_id : ℕ
  pub config_type : Text
  -- Status is "running"; otherwise it is "stopped".
  pub running : Bool
  -- The number of the command, and whether its ProcessState is nil.
  pub cmd : ℕ
  pub alive : Bool
  -- CancelFunc has been called.
  pub cancelled : Bool
  pub output_path : Text
  pub hls_path : Text
  pub end_time : ℕ
  pub reconnect_count : ℕ
  pub max_reconnects : ℕ
  pub should_reconnect : Bool

abbrev pub Processes : Type 0
Processes = List (Text × Process)

pub record Coordinator : Type 0 where
  pub processes : Processes
  pub task_id_process_key_index : Map Text

unfoldable pub find_process : Text → Processes → Option Process
find_process key [] = none
find_process key ((k, p) ∷ ps) =
    let rest = find_process key ps in if text_eq k key then some p else rest

unfoldable pub remove_process : Text → Processes → Processes
remove_process key [] = []
remove_process key ((k, p) ∷ ps) =
    let rest = remove_process key ps in if text_eq k key then rest else (k, p) ∷ rest

unfoldable pub set_process : Text → Process → Processes → Processes
unfolding remove_process
set_process key p ps = (key, p) ∷ remove_process key ps

unfoldable pub is_process_alive : Coordinator → ℕ → Bool
is_process_alive c task_id = elim (lookup task_id c.task_id_process_key_index) [
  | none ↦ false
  | some key ↦ elim (find_process key c.processes) [ none ↦ false | some p ↦ p.alive ]
]

-- What the surroundings answer while a recording starts: the directories, the command line and the
-- number of the started FFmpeg command.
pub record Launch : Type 0 where
  pub directories : Bool
  pub command : Bool
  pub log_file : Bool
  pub started : Option ℕ
  pub mkv_path : Text
  pub m3u8_path : Text

unfoldable pub is_usb : InputSourceType → Bool
is_usb usb = true
is_usb _ = false

unfoldable pub new_process : ℕ → Text → InputSourceType → ℕ → Launch → ℕ → Process
unfolding is_usb
new_process task_id config_type input_type end_time l cmd = record {
  task_id = task_id;
  config_type = config_type;
  running = true;
  cmd = cmd;
  alive = true;
  cancelled = false;
  output_path = l.mkv_path;
  hls_path = l.m3u8_path;
  end_time = end_time;
  reconnect_count = 0;
  max_reconnects = 3;
  should_reconnect = text_eq config_type (codes "stream") && not (is_usb input_type);
}

unfoldable pub register : Coordinator → Process → Coordinator
unfolding set_process
register c p =
    let key = get_process_key p.task_id p.config_type in
    record {
      processes = set_process key p c.processes;
      task_id_process_key_index = insert p.task_id key c.task_id_process_key_index;
    }

unfoldable pub launch_ffmpeg : Launch → Result ℕ
launch_ffmpeg l =
    if not l.directories || not l.command || not l.log_file
    then err internal
    else elim l.started [ none ↦ err ffmpeg_failed | some cmd ↦ ok cmd ]

-- The paths that a start writes into the task.
unfoldable pub with_paths : Text → Launch → Task → Task
with_paths config_type l t =
    if text_eq config_type (codes "usb")
      || text_eq config_type (codes "huawei_auto")
      || text_eq config_type (codes "stream")
      || is_empty t.mkv_file_path
    then record t {
      recording_file = l.mkv_path;
      mkv_file_path = l.mkv_path;
      hls_preview_path = l.m3u8_path;
    }
    else t

-- What a start leaves: its result, the registry and the task, whose paths it may write.
pub record Started : Type 0 where
  pub result : Result (Unit {0})
  pub coordinator : Coordinator
  pub task : Task

-- The end of `StartRecordingWithConfig`, by the result of the launch.
unfoldable pub finish_start :
    Coordinator → Task → Text → InputSourceType → Launch → Result ℕ → Started
unfolding register new_process with_paths
finish_start c t config_type input_type l (err e) = record {
  result = err e;
  coordinator = c;
  task = t;
}
finish_start c t config_type input_type l (ok cmd) = record {
  result = ok tt;
  coordinator = register c (new_process t.id config_type input_type t.end_time l cmd);
  task = with_paths config_type l t;
}

-- `StartRecordingWithConfig`, with the type of the input that it builds.
unfoldable pub start_recording_with_config :
    Coordinator → Task → Text → InputSourceType → Launch → Started
unfolding launch_ffmpeg finish_start
start_recording_with_config c t config_type input_type l =
    finish_start c t config_type input_type l (launch_ffmpeg l)

-- process.CancelFunc() of a running process; its status stays until the monitor sees the exit.
unfoldable pub cancel_running : Process → Process
cancel_running p = if p.running then record p { cancelled = true } else p

unfoldable pub stop_matching : Text → Processes → Processes
unfolding cancel_running
stop_matching prefix [] = []
stop_matching prefix ((k, p) ∷ ps) =
    (k, if has_prefix k prefix then cancel_running p else p) ∷ stop_matching prefix ps

-- The key without a configuration type, of an older format.
unfoldable pub stop_legacy : Text → Processes → Processes
unfolding cancel_running
stop_legacy key [] = []
stop_legacy key ((k, p) ∷ ps) =
    (k, if text_eq k key then cancel_running p else p) ∷ stop_legacy key ps

unfoldable pub stop_recording : Coordinator → ℕ → Coordinator
unfolding stop_matching stop_legacy
stop_recording c task_id = record c {
  processes = stop_legacy (decimal task_id) (stop_matching (key_prefix task_id) c.processes);
}

-- The critical section of `monitorProcessWithKey` after the command number `cmd` has exited: the
-- status is changed whatever command the process has by then.
unfoldable pub mark_exited : Text → ℕ → Processes → Processes
mark_exited key cmd [] = []
mark_exited key cmd ((k, p) ∷ ps) =
    (
      k,
      if text_eq k key
          then record p { running = false; alive = if p.cmd == cmd then false else p.alive }
          else p,
    )
    ∷ mark_exited key cmd ps

-- Whether `monitorProcessWithKey` goes on to reconnect: the exit was an error, the monitor's context
-- is not cancelled, and the process wants it.
unfoldable pub wants_reconnect : Bool → Bool → Option Process → Bool
wants_reconnect failed ctx_done none = false
wants_reconnect failed ctx_done (some p) = failed && not ctx_done && p.should_reconnect

unfoldable pub monitor_exit : Coordinator → Text → ℕ → Bool → Bool → Coordinator × Bool
unfolding mark_exited wants_reconnect
monitor_exit c key cmd failed ctx_done =
    let processes = mark_exited key cmd c.processes in
    (
      record c { processes = processes },
      wants_reconnect failed ctx_done (find_process key processes),
    )

-- The end of `restartRecording`: the process gets a new command and a new context.
unfoldable pub finish_restart : Launch → Process → Result ℕ → Result (Unit {0}) × Process
finish_restart l p (err e) = (err e, p)
finish_restart l p (ok cmd) = (
  ok tt,
  record p {
    running = true;
    cmd = cmd;
    alive = true;
    cancelled = false;
    output_path = l.mkv_path;
    hls_path = l.m3u8_path;
  },
)

unfoldable pub restart_recording : ℕ → Launch → Process → Result (Unit {0}) × Process
unfolding launch_ffmpeg finish_restart
restart_recording now l p =
    if not l.directories
    then (err internal, p)
    else if leb p.end_time now
    then (err task_not_found, p)
    else finish_restart l p (launch_ffmpeg l)

-- The counts of `GetRecordingStatus`: all processes of the task, and those that run.
unfoldable pub count_matching : (Text → Bool) → Processes → ℕ × ℕ
count_matching test [] = (0, 0)
count_matching test ((k, p) ∷ ps) =
    let (total, runs) = count_matching test ps in
    if test k then (suc total, if p.running then suc runs else runs) else (total, runs)

-- "running" is `true`.
unfoldable pub get_recording_status : Coordinator → ℕ → Result Bool
unfolding count_matching
get_recording_status c task_id =
    let (total, runs) = count_matching (λ k. has_prefix k (key_prefix task_id)) c.processes in
    let (total', runs') = count_matching (λ k. text_eq k (decimal task_id)) c.processes in
    if ltb 0 (total + total') then ok (ltb 0 (runs + runs')) else err task_not_found
