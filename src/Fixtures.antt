-- ===== src/Fixtures.antt =====
-- Sample data that several test modules share: a task, and a cron whose jobs are its live entry IDs.
use video_meeting_recorder.Common.{
  ℕ, suc, ◌+◌, ◌*◌, ◌≤◌, ◌≡◌, true, false, Option, none, some, List, [], ◌∷◌, codes, contains,
  without, contains-without, ◌==◌, if◌then◌else◌, arith,
}
use video_meeting_recorder.Common.Int.{pos}
use video_meeting_recorder.Common.Clock.{hour}
use video_meeting_recorder.Task.{Task, pending, ConfigType}
use video_meeting_recorder.InputConfig.{InputConfig}
use video_meeting_recorder.Scheduler.{Cron}

abbrev pub meeting : Task
meeting = record {
  id = 12;
  name = codes "standup";
  start_time = 100 * hour;
  end_time = 101 * hour;
  pre_join_minutes = pos 2;
  record_delay_minutes = 0;
  conference_number = codes "9001";
  input_config_id = none;
  rtsp_stream_url = [];
  status = pending;
  recording_file = [];
  recording_duration = 0;
  error_msg = [];
  mkv_file_path = [];
  hls_preview_path = [];
  mp4_file_path = [];
  extension_count = 0;
  last_extension_reason = [];
  created_by = 5;
  task_input_configs = [];
}

-- A camera and a microphone.
abbrev pub desk : InputConfig
desk = record {
  id = 1;
  name = codes "desk";
  config_type = some ConfigType.usb;
  huawei_enabled = false;
  server = [];
  username = [];
  terminal_number = [];
  camera_backend = codes "v4l2";
  usb_camera_name = [];
  usb_camera_device = codes "/dev/video0";
  audio_backend = codes "alsa";
  usb_audio_name = [];
  usb_audio_device = codes "hw:1";
  stream_protocol = [];
  stream_url = [];
  stream_username = [];
  stream_password = [];
  stream_enabled = false;
  is_locked = false;
  locked_by = none;
  locked_at = none;
}

-- The same with a terminal.
abbrev pub room : InputConfig
room = record desk {
  id = 3;
  config_type = some ConfigType.huawei_auto;
  huawei_enabled = true;
  server = codes "10.0.0.9";
  username = codes "api";
  terminal_number = codes "77";
}

-- The meeting with that terminal.
abbrev pub call : Task
call = record meeting {
  task_input_configs = record { input_config_id = 3; config_type = ConfigType.huawei_auto } ∷ [];
}

-- A number that is larger than every entry.
unfoldable pub next_entry : List ℕ → ℕ
next_entry [] = 1
next_entry (e ∷ es) = suc e + next_entry es

contains-le : (e : ℕ) (es : List ℕ) → contains e es ≡ true → suc e ≤ next_entry es
unfolding contains next_entry
contains-le e [] h = ground arith
contains-le e (x ∷ es) h = ground (arith, contains-le e es)

next_entry_new : (es : List ℕ) → contains (next_entry es) es ≡ false
next_entry_new es = ground (arith, contains-le (next_entry es) es)

unfoldable pub add_entry : List ℕ → ℕ → ℕ → Option (ℕ × List ℕ)
add_entry es time task = some (next_entry es, next_entry es ∷ es)

pub add_entry_new :
    (j j' : List ℕ) (time task e : ℕ) → add_entry j time task ≡ some (e, j') → contains e j ≡ false
unfolding add_entry
add_entry_new j j' time task e h = ground (arith, next_entry_new j)

pub add_entry_live :
    (j j' : List ℕ) (time task e x : ℕ)
    → add_entry j time task ≡ some (e, j')
    → contains x j' ≡ (if x == e then true else contains x j)
unfolding add_entry contains
add_entry_live j j' time task e x h = ground arith

abbrev pub entry_cron : Cron
entry_cron = record {
  Jobs = List ℕ;
  add_func = add_entry;
  remove = λ j e. without e j;
  live = λ j e. contains e j;
  add_new = add_entry_new;
  add_live = add_entry_live;
  remove_live = λ j e x. contains-without x e j;
}
