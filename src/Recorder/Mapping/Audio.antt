-- ===== src/Recorder/Mapping/Audio.antt =====
-- The input that the audio is mapped from.
use video_meeting_recorder.Common.{
  ℕ, ◌<◌, ◌≡◌, ◌∙◌, true, false, not, ◌||◌, List, [], ◌∷◌, Text, is_empty, arith,
}
use video_meeting_recorder.Errors.{ok}
use video_meeting_recorder.InputConfig.{InputConfig}
use video_meeting_recorder.Recorder.Source.{
  unset, usb, mixed, RecordingInput, has_stream, build_recording_input,
}
use video_meeting_recorder.Recorder.Command.{
  FFmpegConfig, skips_audio, input_args_of, build_input_args, audio_map,
}
use video_meeting_recorder.Recorder.Mapping.{count_inputs, expected_inputs, count-build_inputs}

-- A mixed input has an RTSP address or a stream.
mixed_streams :
    (rtsp_url : Text) (c : InputConfig)
    → let i = build_recording_input rtsp_url c in
      i.type ≡ mixed → (not (is_empty i.rtsp_url) || not (is_empty i.stream_url)) ≡ true
unfolding build_recording_input
mixed_streams rtsp_url c h = ground arith

audio_index-lt :
    (i : RecordingInput) (k : ℕ)
    → audio_map i ≡ k ∷ []
    → skips_audio i ≡ false
    → (i.type ≡ usb → is_empty i.camera_device ≡ false)
    → (i.type ≡ mixed → (not (is_empty i.rtsp_url) || not (is_empty i.stream_url)) ≡ true)
    → (i.type ≡ unset → ⊥)
    → k < expected_inputs i.type i
unfolding audio_map expected_inputs
audio_index-lt i k m s u x n = ground arith

built_set :
    (f : FFmpegConfig) (i : RecordingInput) (args : List Text)
    → i.type ≡ unset
    → build_input_args f i ≡ ok args
    → ⊥
unfolding build_input_args input_args_of
built_set f i args e h = ground arith

-- The input that the command maps the audio from is one of those that its input arguments open, for the
-- input that is built from any configuration, if the arguments can be built, the audio device is not
-- skipped and a plain USB input has a camera.
pub audio_in_range :
    (f : FFmpegConfig) (rtsp_url : Text) (c : InputConfig) (args : List Text) (k : ℕ)
    → let i = build_recording_input rtsp_url c in
      build_input_args f i ≡ ok args
      → audio_map i ≡ k ∷ []
      → skips_audio i ≡ false
      → (i.type ≡ usb → is_empty i.camera_device ≡ false)
      → k < count_inputs args
audio_in_range f rtsp_url c args k h m s u =
    let i = build_recording_input rtsp_url c in
    rw (count-build_inputs f i args h)
      (audio_index-lt i k m s u (mixed_streams rtsp_url c) (λ e. built_set f i args e h))

no_device_map :
    (c : InputConfig)
    → has_stream c ≡ true
    → is_empty c.usb_camera_device ≡ false
    → is_empty c.usb_audio_device ≡ true
    → audio_map (build_recording_input [] c) ≡ 1 ∷ []
unfolding audio_map build_recording_input
no_device_map c s v a = ground arith

no_device_inputs :
    (c : InputConfig)
    → has_stream c ≡ true
    → is_empty c.usb_camera_device ≡ false
    → is_empty c.usb_audio_device ≡ true
    → expected_inputs (build_recording_input [] c).type (build_recording_input [] c) ≡ 1
unfolding expected_inputs skips_audio build_recording_input
no_device_inputs c s v a = ground arith

-- With a stream, a USB camera and no audio device, the audio is mapped from input 1, and the
-- command opens input 0 only.
pub audio_out_of_range :
    (f : FFmpegConfig) (c : InputConfig) (args : List Text)
    → let i = build_recording_input [] c in
      has_stream c ≡ true
      → is_empty c.usb_camera_device ≡ false
      → is_empty c.usb_audio_device ≡ true
      → build_input_args f i ≡ ok args
      → (audio_map i ≡ 1 ∷ []) × (count_inputs args ≡ 1)
audio_out_of_range f c args s v a h =
    let i = build_recording_input [] c in
    (no_device_map c s v a, count-build_inputs f i args h ∙ no_device_inputs c s v a)
