-- ===== src/Scheduler/RunExamples.antt =====
-- Witnesses and tests of executions, their ends and their cancellations.
use video_meeting_recorder.Common.{
  ℕ, ◌*◌, ◌≡◌, refl, true, false, none, some, List, [], ◌∷◌, codes, contains, text_eq, arith,
}
use video_meeting_recorder.Common.Int.{pos}
use video_meeting_recorder.Common.Maps.{lookup, insert, delete}
use video_meeting_recorder.Common.Clock.{hour}
use video_meeting_recorder.Errors.{Error, ok, err, external}
use video_meeting_recorder.Task.{Task, recording, failed}
use video_meeting_recorder.InputConfig.{InputConfig, is_locked_by_task, lock, validate, is_foreign}
use video_meeting_recorder.Terminal.{Connect, get_config_id, check_idle, connect_to_conference}
use video_meeting_recorder.Recorder.Source.{has_usb, has_stream}
use video_meeting_recorder.Recorder.Command.{FFmpegConfig}
use video_meeting_recorder.Recorder.Registry.{stop_recording}
use video_meeting_recorder.Recorder.Stop.{idle}
use video_meeting_recorder.Scheduler.Execute.{
  World, Write, Disconnect, Answers, execute_task, any_source, load_configs, any_huawei_auto,
}
use video_meeting_recorder.Scheduler.Execute.Started.{Monitored, execute_task_lem}
use video_meeting_recorder.Scheduler.Execute.Leak.{failed_keeps_lock}
use video_meeting_recorder.Scheduler.Runs.{is_executing, begin, cancel}
use video_meeting_recorder.Scheduler.Runs.Cancel.{
  Call, begins, begins_monitor, ends_monitor, cancels, run_all, Ended, Orderly, initial,
  cancel_reaches, step,
}
use video_meeting_recorder.Scheduler.Complete.{Closing, System, complete_task, has_conversion}
use video_meeting_recorder.Scheduler.Complete.Ends.{HasStatus, complete_task_lem}
use video_meeting_recorder.Fixtures.{call, room, entry_cron}

abbrev calls : List Call
calls = begins 12 ∷ begins_monitor 0 500 ∷ cancels 12 ∷ ends_monitor 0 ∷ begins 12 ∷ []

calls-Orderly : Orderly calls initial
unfolding Orderly Ended step begin is_executing cancel lookup insert delete contains
calls-Orderly = (λ run l c. ground arith, (λ run l c. ground arith, tt))

cancel_reaches_example :
    let s = run_all calls initial in
    ((run other : ℕ)
      → lookup run s.live ≡ some 12
      → lookup other s.live ≡ some 12
      → contains run s.cancelled ≡ false
      → contains other s.cancelled ≡ false
      → (run ≡ other) × (is_executing 12 s ≡ true))
    × ((run : ℕ)
        → lookup run (cancel 12 s).1.live ≡ some 12
        → contains run (cancel 12 s).1.cancelled ≡ true)
cancel_reaches_example = cancel_reaches calls 12 calls-Orderly

abbrev settings : FFmpegConfig
settings = record {
  preset = codes "veryfast";
  crf = pos 23;
  max_video_bitrate = codes "4M";
  video_buf_size = codes "8M";
  default_audio_bitrate = codes "128";
  hls_segment_duration = pos 4;
  hls_list_size = pos 0;
  dshow_buffer_size = pos 0;
  dshow_thread_queue_size = pos 512;
}

abbrev answers : Connect
answers = record {
  now = 500;
  read = true;
  status = some (codes "idle");
  saved = true;
  first_call = true;
  second_call = false;
  confirmed = true;
  unlock_read = true;
  unlock_saved = true;
}

abbrev good : Write
good = record { found = true; written = true }

abbrev gone : Disconnect
gone = record { read = true; unlock_read = true; unlock_saved = true }

-- Everything goes well.
abbrev surroundings : Answers
surroundings = record {
  found = true;
  now = 99 * hour;
  to_connecting = good;
  task_configs = some call.task_input_configs;
  has_connector = true;
  connect = answers;
  delay_cancelled = false;
  task_configs_again = some call.task_input_configs;
  config_read = λ k. true;
  to_recording = good;
  launch = λ k. record {
    directories = true;
    command = true;
    log_file = true;
    started = some 40;
    mkv_path = codes "room.mkv";
    m3u8_path = codes "room.m3u8";
  };
  to_failed = good;
  disconnect = gone;
  paths_written = true;
  error_text = codes "no answer";
}

abbrev with_room : InputConfig → World
with_room c = record { task = some call; configs = (3, c) ∷ []; coordinator = idle }

execute_task_lem_example :
    let r = execute_task settings surroundings (with_room room) in
    ((t : Task) → r.0 ≡ ok t → Monitored t r.1)
    × ((e : Error) → r.0 ≡ err e → r.1.coordinator ≡ idle)
execute_task_lem_example = execute_task_lem settings surroundings (with_room room)

-- A terminal without a camera, a microphone or a stream.
abbrev bare : InputConfig
bare = record room { usb_camera_device = []; usb_audio_device = [] }

abbrev held : InputConfig
held = record bare { is_locked = true; locked_by = some 12; locked_at = some 500 }

connected : connect_to_conference answers call ((3, bare) ∷ []) ≡ (ok tt, (3, held) ∷ [])
unfolding connect_to_conference get_config_id lookup insert delete validate check_idle is_foreign
    text_eq lock
connected = refl

failed_keeps_lock_example :
    let r = execute_task settings surroundings (with_room bare) in
    (r.0 ≡ err external)
    × ((c : InputConfig) × (lookup 3 r.1.configs ≡ some c) × (is_locked_by_task 12 c ≡ true))
unfolding any_source load_configs any_huawei_auto has_usb has_stream get_config_id lookup
failed_keeps_lock_example =
    failed_keeps_lock settings surroundings call call.task_input_configs (with_room bare)
      ((3, held) ∷ []) 3 bare
      (record {
        loaded = refl;
        found = refl;
        waits = refl;
        in_time = refl;
        delay = refl;
        status_found = refl;
        status_written = refl;
        listed = refl;
        listed_again = refl;
        connector = refl;
        terminal = refl;
      })
      connected refl refl refl refl

-- The conversion is not accepted.
abbrev closing : Closing
closing = record {
  task_configs = call.task_input_configs;
  found = true;
  has_connector = true;
  disconnect = gone;
  to_converting = good;
  has_files = true;
  has_conversions = true;
  submitted = false;
  to_failed = good;
  lock_read = true;
  lock_saved = true;
}

abbrev recorded : Task
recorded = record call { status = recording; mkv_file_path = codes "room.mkv" }

abbrev system : System entry_cron
system = record {
  world = record { task = some recorded; configs = (3, held) ∷ []; coordinator = idle };
  scheduler = record {
    cron = [];
    task_entries = [];
    entry_tasks = [];
    executions = [];
    expirations = [];
  };
  runs = initial;
  files = [];
  conversions = [];
}

complete_task_lem_example :
    let s' = complete_task entry_cron closing 12 system in
    HasStatus entry_cron failed s'
    × (s'.world.coordinator ≡ stop_recording idle 12)
    × (lookup 12 s'.scheduler.task_entries ≡ none)
    × (s'.conversions ≡ 12 ∷ [])
unfolding has_conversion
complete_task_lem_example =
    complete_task_lem entry_cron closing 12 recorded system refl refl refl refl refl
