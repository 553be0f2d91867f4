-- ===== src/Recorder/Command.antt =====
-- `buildInputArgs`, `buildRecordingCommand` and their helpers (coordinator.go). The segment and
-- playlist paths, which the code joins from the HLS directory, are arguments.
use video_meeting_recorder.Common.{
  ℕ, zero, suc, ◌+◌, ◌*◌, ◌/◌, ◌%◌, Bool, true, false, not, ◌&&◌, ◌||◌, List, [], ◌∷◌, ◌++◌, Text,
  is_empty, codes, text_eq, has_prefix, leb, ltb, if◌then◌else◌,
}
use video_meeting_recorder.Common.Int.{ℤ, pos, negsuc}
use video_meeting_recorder.Common.Clock.{second}
use video_meeting_recorder.Errors.{Result, ok, err, invalid_input, ◌>>=◌}
use video_meeting_recorder.Recorder.Decimal.{decimal, format_int}
use video_meeting_recorder.Recorder.Filename.{normalize_path, escape_simple}
use video_meeting_recorder.Recorder.Source.{
  InputSourceType, unset, usb, rtsp, rtmp, stream, mixed, RecordingInput,
}

-- The fields of config.FFmpeg that the commands use.
pub record FFmpegConfig : Type 0 where
  pub preset : Text
  pub crf : ℤ
  pub max_video_bitrate : Text
  pub video_buf_size : Text
  pub default_audio_bitrate : Text
  pub hls_segment_duration : ℤ
  pub hls_list_size : ℤ
  pub dshow_buffer_size : ℤ
  pub dshow_thread_queue_size : ℤ

unfoldable pub is_numeric_string : Text → Bool
is_numeric_string [] = false
is_numeric_string (c ∷ s) = leb b'0' c && leb c b'9' && (is_empty s || is_numeric_string s)

-- The device parameter: dshow wants `video=` or `audio=` before a name.
unfoldable pub device_param : Text → Text → Text → Text → Text
device_param backend mark name device =
    if text_eq backend (codes "dshow")
    then (if not (is_empty name)
        then mark ++ name
        else if has_prefix device mark
        then device
        else mark ++ device)
    else device

unfoldable pub is_camera_backend : Text → Bool
is_camera_backend b =
    text_eq b (codes "dshow") || text_eq b (codes "v4l2") || text_eq b (codes "avfoundation")

unfoldable pub is_audio_backend : Text → Bool
is_audio_backend b =
    text_eq b (codes "dshow")
    || text_eq b (codes "alsa")
    || text_eq b (codes "coreaudio")
    || text_eq b (codes "wasapi")

unfoldable pub dshow_video_args : FFmpegConfig → RecordingInput → List Text
dshow_video_args f i =
    if text_eq i.camera_backend (codes "dshow")
    then codes "-rtbufsize"
      ∷ format_int f.dshow_buffer_size
      ∷ codes "-thread_queue_size"
      ∷ format_int f.dshow_thread_queue_size
      ∷ []
    else []

unfoldable pub build_usb_video_args : FFmpegConfig → RecordingInput → Result (List Text)
unfolding is_camera_backend dshow_video_args
build_usb_video_args f i =
    if not (is_camera_backend i.camera_backend)
    then err invalid_input
    else if is_empty i.camera_device
    then err invalid_input
    else ok (
        codes "-f"
        ∷ i.camera_backend
        ∷ codes "-video_size"
        ∷ codes "1920x1080"
        ∷ codes "-framerate"
        ∷ codes "30"
        ∷ (dshow_video_args f i
            ++ codes "-i"
              ∷ device_param i.camera_backend (codes "video=") i.camera_name i.camera_device
              ∷ []))

unfoldable pub dshow_audio_args : FFmpegConfig → RecordingInput → List Text
dshow_audio_args f i =
    if text_eq i.audio_backend (codes "dshow")
    then codes "-thread_queue_size" ∷ format_int f.dshow_thread_queue_size ∷ []
    else []

-- The device is skipped: it is empty, or only a number names it.
unfoldable pub skips_audio : RecordingInput → Bool
skips_audio i =
    is_empty i.audio_device || (is_empty i.audio_name && is_numeric_string i.audio_device)

unfoldable pub build_usb_audio_args : FFmpegConfig → RecordingInput → Result (List Text)
unfolding is_audio_backend dshow_audio_args skips_audio
build_usb_audio_args f i =
    if not (is_audio_backend i.audio_backend)
    then err invalid_input
    else if skips_audio i
    then ok []
    else ok (
        codes "-f"
        ∷ i.audio_backend
        ∷ (dshow_audio_args f i
            ++ codes "-i"
              ∷ device_param i.audio_backend (codes "audio=") i.audio_name i.audio_device
              ∷ []))

unfoldable pub build_rtsp_args : RecordingInput → Result (List Text)
build_rtsp_args i =
    if is_empty i.rtsp_url
    then err invalid_input
    else ok (codes "-rtsp_transport" ∷ codes "tcp" ∷ codes "-i" ∷ i.rtsp_url ∷ [])

-- An empty protocol is rtsp.
unfoldable pub build_stream_args : RecordingInput → Result (List Text)
build_stream_args i =
    let plain = codes "-i" ∷ i.stream_url ∷ [] in
    if is_empty i.stream_url
    then err invalid_input
    else if text_eq i.stream_protocol (codes "rtmp")
    then ok plain
    else if is_empty i.stream_protocol || text_eq i.stream_protocol (codes "rtsp")
    then ok (codes "-rtsp_transport" ∷ codes "tcp" ∷ plain)
    else if text_eq i.stream_protocol (codes "srt")
    then ok plain
    else if text_eq i.stream_protocol (codes "hls")
    then ok plain
    else err invalid_input

-- The audio device of `buildInputArgs`, after the arguments that stand before it.
unfoldable pub with_audio_args : FFmpegConfig → RecordingInput → List Text → Result (List Text)
with_audio_args f i args =
    if is_empty i.audio_device
    then ok args
    else build_usb_audio_args f i >>= λ audio_args. ok (args ++ audio_args)

-- A camera that is refused leaves its error for the end, unless the audio fails first: both errors
-- are the same sentinel.
unfoldable pub camera_args : FFmpegConfig → RecordingInput → Result (List Text)
camera_args f i = if is_empty i.camera_device then ok [] else build_usb_video_args f i

unfoldable pub mixed_stream_args : RecordingInput → Result (List Text)
mixed_stream_args i =
    if not (is_empty i.rtsp_url)
    then build_rtsp_args i
    else if not (is_empty i.stream_url)
    then build_stream_args i
    else ok []

unfoldable pub input_args_of : InputSourceType → FFmpegConfig → RecordingInput → Result (List Text)
unfolding camera_args mixed_stream_args
input_args_of usb f i = camera_args f i >>= λ args. with_audio_args f i args
input_args_of rtsp f i = build_rtsp_args i
input_args_of rtmp f i = build_stream_args i
input_args_of stream f i = build_stream_args i
input_args_of mixed f i = mixed_stream_args i >>= λ args. with_audio_args f i args
input_args_of unset f i = err invalid_input

unfoldable pub build_input_args : FFmpegConfig → RecordingInput → Result (List Text)
unfolding input_args_of
build_input_args f i = input_args_of i.type f i

unfoldable pub is_stream : InputSourceType → Bool
is_stream stream = true
is_stream _ = false

-- A separate audio input: USB or mixed.
unfoldable pub has_separate_audio : InputSourceType → Bool
has_separate_audio usb = true
has_separate_audio mixed = true
has_separate_audio _ = false

unfoldable pub is_hls_input : RecordingInput → Bool
unfolding is_stream
is_hls_input i = is_stream i.type && text_eq i.stream_protocol (codes "hls")

-- The input that the audio stream is mapped from, if it is mapped.
unfoldable pub audio_map : RecordingInput → List ℕ
unfolding is_hls_input has_separate_audio
audio_map i =
    if is_hls_input i
    then []
    else if i.has_audio
    then (if has_separate_audio i.type then 1 else 0) ∷ []
    else []

-- "-map" and the index with ":a".
map_options : List ℕ → List Text
map_options [] = []
map_options (k ∷ ks) = codes "-map" ∷ (decimal k ++ codes ":a") ∷ map_options ks

codec_args : FFmpegConfig → RecordingInput → List Text
codec_args f i =
    codes "-c:v"
    ∷ codes "libx264"
    ∷ codes "-preset"
    ∷ f.preset
    ∷ codes "-crf"
    ∷ format_int f.crf
    ∷ codes "-maxrate"
    ∷ f.max_video_bitrate
    ∷ codes "-bufsize"
    ∷ f.video_buf_size
    ∷ codes "-pix_fmt"
    ∷ codes "yuv420p"
    ∷ (if i.has_audio
        then codes "-c:a" ∷ codes "aac" ∷ codes "-b:a" ∷ (f.default_audio_bitrate ++ codes "k") ∷ []
        else [])

-- "%.0f" of a duration in seconds: to the nearest, and to the even one from the middle.
unfoldable pub round_seconds : ℕ → ℕ
round_seconds d =
    let q = d / second in
    let r = d % second in
    if ltb (2 * r) second then q else if ltb second (2 * r) then q + 1 else q + q % 2

unfoldable pub duration_args : ℕ → List Text
unfolding round_seconds
duration_args d = if ltb 0 d then codes "-t" ∷ decimal (round_seconds d) ∷ [] else []

-- HLSListSize, or 6 where it is not positive.
unfoldable pub effective_list_size : ℤ → ℕ
effective_list_size (pos zero) = 6
effective_list_size (pos (suc n)) = suc n
effective_list_size (negsuc n) = 6

unfoldable pub hls_delete_threshold : ℤ → ℕ
unfolding effective_list_size
hls_delete_threshold size = effective_list_size size + 1

tee_spec : FFmpegConfig → Bool → Text → Text → Text → Text
unfolding normalize_path escape_simple effective_list_size hls_delete_threshold
tee_spec f windows mkv_path hls_segment_path hls_m3u8_path =
    escape_simple (normalize_path windows mkv_path)
    ++ (codes "|[f=hls:hls_time="
        ++ (format_int f.hls_segment_duration
            ++ (codes ":hls_list_size="
                ++ (decimal (effective_list_size f.hls_list_size)
                    ++ (codes ":hls_flags=delete_segments:hls_delete_threshold="
                        ++ (decimal (hls_delete_threshold f.hls_list_size)
                            ++ (codes ":hls_segment_filename="
                                ++ (escape_simple (normalize_path windows hls_segment_path)
                                    ++ (codes "]"
                                        ++ escape_simple
                                            (normalize_path windows hls_m3u8_path))))))))))

unfoldable pub output_args :
    FFmpegConfig → RecordingInput → Bool → Text → Text → Text → ℕ → List Text
unfolding codec_args duration_args audio_map map_options tee_spec
output_args f i windows mkv_path hls_segment_path hls_m3u8_path duration =
    codec_args f i
    ++ (duration_args duration
        ++ (codes "-flags"
            ∷ codes "+global_header"
            ∷ codes "-map"
            ∷ codes "0:v"
            ∷ (map_options (audio_map i)
                ++ codes "-f"
                  ∷ codes "tee"
                  ∷ tee_spec f windows mkv_path hls_segment_path hls_m3u8_path
                  ∷ [])))

unfoldable pub build_recording_command :
    FFmpegConfig → RecordingInput → Bool → Text → Text → Text → ℕ → Result (List Text)
unfolding build_input_args output_args
build_recording_command f i windows mkv_path hls_segment_path hls_m3u8_path duration =
    build_input_args f i >>= λ input_args. ok (
      codes "-y"
      ∷ (input_args ++ output_args f i windows mkv_path hls_segment_path hls_m3u8_path duration))
