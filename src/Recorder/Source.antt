-- ===== src/Recorder/Source.antt =====
-- The recording input (coordinator.go), as `buildRecordingInput` makes it from an input configuration.
use video_meeting_recorder.Common.{
  Bool, true, false, not, ◌&&◌, ◌||◌, [], Text, is_empty, codes, text_eq, if◌then◌else◌,
}
use video_meeting_recorder.InputConfig.{InputConfig}

-- `unset` is the empty string.
pub data InputSourceType : Type 0 where
  unset usb rtsp rtmp stream mixed : InputSourceType

pub record RecordingInput : Type 0 where
  pub type : InputSourceType
  pub rtsp_url : Text
  pub stream_protocol : Text
  pub stream_url : Text
  pub stream_username : Text
  pub stream_password : Text
  pub camera_backend : Text
  pub audio_backend : Text
  pub camera_device : Text
  pub audio_device : Text
  pub camera_name : Text
  pub audio_name : Text
  pub has_audio : Bool

device_input : InputConfig → RecordingInput
device_input c = record {
  type = unset;
  rtsp_url = [];
  stream_protocol = [];
  stream_url = [];
  stream_username = [];
  stream_password = [];
  camera_backend = c.camera_backend;
  audio_backend = c.audio_backend;
  camera_device = c.usb_camera_device;
  audio_device = c.usb_audio_device;
  camera_name = c.usb_camera_name;
  audio_name = c.usb_audio_name;
  has_audio = false;
}

-- The RTSP stream of the task, kept for compatibility.
with_rtsp : Text → RecordingInput → RecordingInput
with_rtsp url i =
    if is_empty url then i else record i { type = rtsp; rtsp_url = url; has_audio = true }

-- An rtmp stream joins.
join_rtmp : InputSourceType → InputSourceType
join_rtmp rtsp = mixed
join_rtmp _ = rtmp

-- A stream of another protocol joins.
join_other : InputSourceType → InputSourceType
join_other rtsp = mixed
join_other rtmp = mixed
join_other _ = stream

-- The type after a stream of the given protocol joins.
unfoldable pub join_stream : Text → InputSourceType → InputSourceType
unfolding join_rtmp join_other
join_stream protocol t = if text_eq protocol (codes "rtmp") then join_rtmp t else join_other t

unfoldable pub has_stream : InputConfig → Bool
has_stream c = c.stream_enabled && not (is_empty c.stream_url)

with_stream : InputConfig → RecordingInput → RecordingInput
unfolding join_stream has_stream
with_stream c i =
    if has_stream c
    then record i {
      stream_protocol = c.stream_protocol;
      stream_url = c.stream_url;
      stream_username = c.stream_username;
      stream_password = c.stream_password;
      type = join_stream c.stream_protocol i.type;
      has_audio = true;
    }
    else i

-- The type after a USB device joins.
unfoldable pub join_usb : InputSourceType → InputSourceType
join_usb unset = usb
join_usb _ = mixed

unfoldable pub has_usb : InputConfig → Bool
has_usb c = not (is_empty c.usb_camera_device) || not (is_empty c.usb_audio_device)

with_usb : InputConfig → RecordingInput → RecordingInput
unfolding join_usb has_usb
with_usb c i =
    if has_usb c
    then record i {
      has_audio = i.has_audio || not (is_empty c.usb_audio_device);
      type = join_usb i.type;
    }
    else i

unfoldable pub build_recording_input : Text → InputConfig → RecordingInput
unfolding device_input with_rtsp with_stream with_usb
build_recording_input rtsp_url c = with_usb c (with_stream c (with_rtsp rtsp_url (device_input c)))
