-- ===== src/Recorder/Examples.antt =====
-- Witnesses and tests of the recorder.
use video_meeting_recorder.Common.{
  ℕ, ◌≤◌, ◌<◌, ◌≡◌, refl, true, false, some, List, [], ◌∷◌, Text, codes, text_eq, arith,
}
use video_meeting_recorder.Common.Int.{pos}
use video_meeting_recorder.Errors.{ok}
use video_meeting_recorder.Fixtures.{meeting, desk}
use video_meeting_recorder.Recorder.Decimal.{get_process_key}
use video_meeting_recorder.InputConfig.{InputConfig}
use video_meeting_recorder.Recorder.Source.{usb, stream, build_recording_input}
use video_meeting_recorder.Recorder.Command.{
  audio_map, skips_audio, FFmpegConfig, build_input_args, is_numeric_string, build_usb_video_args,
  with_audio_args, build_usb_audio_args, build_stream_args, device_param,
}
use video_meeting_recorder.Recorder.Mapping.{count_inputs}
use video_meeting_recorder.Recorder.Mapping.Audio.{audio_in_range}
use video_meeting_recorder.Recorder.Registry.{
  Process, Coordinator, Launch, new_process, stop_recording,
}
use video_meeting_recorder.Recorder.Stop.{
  Call, starts, stops, exits, run, idle, stop_task, stop-after_run,
}
use video_meeting_recorder.Recorder.Reconnect.{elapsed, Next, reconnect, reconnect_ends}

abbrev launched : Launch
launched = record {
  directories = true;
  command = true;
  log_file = true;
  started = some 40;
  mkv_path = codes "standup.mkv";
  m3u8_path = codes "index.m3u8";
}

abbrev camera : Process
camera = new_process 12 (codes "usb") usb 500 launched 41

abbrev waiting : Process
waiting = record (new_process 12 (codes "stream") stream 500 launched 40) {
  running = false;
  alive = false;
}

abbrev calls : List Call
calls =
    starts (record meeting { id = 1 }) (codes "usb") usb launched
    ∷ starts meeting (codes "usb") usb launched
    ∷ stops 1
    ∷ exits (get_process_key 12 (codes "usb")) 40 true false
    ∷ []

abbrev twelve : ℕ
twelve = 12

stop-after_run_example :
    (stop_recording (run idle calls) 12).processes ≡ stop_task 12 (run idle calls).processes
stop-after_run_example = stop-after_run calls 12

reconnect_ends_example :
    (r : Process × Next) × (reconnect 4 0 (λ k. elapsed 600 launched) waiting ≡ some r)
    × (r.0.reconnect_count ≤ 3)
unfolding new_process
reconnect_ends_example =
    reconnect_ends 4 0 (λ k. elapsed 600 launched) waiting (omega arith) (omega arith)

abbrev registry : Coordinator
registry = record {
  processes = (get_process_key 12 (codes "stream"), waiting) ∷ [];
  task_id_process_key_index = [];
}

abbrev settings : FFmpegConfig
settings = record {
  preset = codes "veryfast";
  crf = pos 23;
  max_video_bitrate = codes "4M";
  video_buf_size = codes "8M";
  default_audio_bitrate = codes "128";
  hls_segment_duration = pos 4;
  hls_list_size = pos 0;
  dshow_buffer_size = pos 0;
  dshow_thread_queue_size = pos 512;
}

-- A stream and a camera, without a microphone.
abbrev hall : InputConfig
hall = record desk {
  usb_audio_device = [];
  stream_protocol = codes "rtsp";
  stream_url = codes "rtsp://hall/1";
  stream_enabled = true;
}

abbrev desk_args : List Text
desk_args =
    codes "-f"
    ∷ codes "v4l2"
    ∷ codes "-video_size"
    ∷ codes "1920x1080"
    ∷ codes "-framerate"
    ∷ codes "30"
    ∷ codes "-i"
    ∷ codes "/dev/video0"
    ∷ codes "-f"
    ∷ codes "alsa"
    ∷ codes "-i"
    ∷ codes "hw:1"
    ∷ []

abbrev hall_args : List Text
hall_args = codes "-rtsp_transport" ∷ codes "tcp" ∷ codes "-i" ∷ codes "rtsp://hall/1" ∷ []

desk_built : build_input_args settings (build_recording_input [] desk) ≡ ok desk_args
unfolding build_input_args build_recording_input build_usb_video_args text_eq with_audio_args
    build_usb_audio_args is_numeric_string device_param
desk_built = refl

hall_built : build_input_args settings (build_recording_input [] hall) ≡ ok hall_args
unfolding build_input_args build_recording_input text_eq build_stream_args with_audio_args
hall_built = refl

audio_in_range_example : 1 < count_inputs desk_args
unfolding audio_map build_recording_input skips_audio is_numeric_string
audio_in_range_example =
    audio_in_range settings [] desk desk_args 1 desk_built refl refl (λ e. refl)
