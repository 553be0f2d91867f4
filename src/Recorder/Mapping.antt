-- ===== src/Recorder/Mapping.antt =====
-- The inputs of a recording command against the input that its audio is mapped from.
pub mod Audio
use video_meeting_recorder.Common.{
  ℕ, ◌+◌, ◌<◌, ◌≡◌, refl, ◌∙◌, ap, true, false, not, ◌||◌, bit, inl, inr, List, [], ◌∷◌, ◌++◌, Text,
  is_empty, codes, text_eq, Bool-cases, arith,
}
use video_meeting_recorder.Errors.{Result, ok, err, ◌>>=◌}
use video_meeting_recorder.InputConfig.{InputConfig}
use video_meeting_recorder.Recorder.Source.{
  InputSourceType, unset, usb, rtsp, rtmp, stream, mixed, RecordingInput, has_stream,
  build_recording_input,
}
use video_meeting_recorder.Recorder.Command.{
  FFmpegConfig, build_usb_video_args, build_usb_audio_args, build_rtsp_args, build_stream_args,
  with_audio_args, skips_audio, dshow_video_args, dshow_audio_args, is_camera_backend,
  is_audio_backend, camera_args, mixed_stream_args, input_args_of, build_input_args, audio_map,
  device_param,
}

-- The arguments come in pairs of an option and its value; `-i` opens an input.
unfoldable pub count_inputs : List Text → ℕ
unfolding text_eq
count_inputs [] = 0
count_inputs (o ∷ []) = 0
count_inputs (o ∷ v ∷ rest) = bit (text_eq o (codes "-i")) + count_inputs rest

abbrev Paired : List Text → Type 0
Paired [] = Unit
Paired (o ∷ []) = ⊥
Paired (o ∷ v ∷ rest) = Paired rest

count-append :
    (xs ys : List Text) → Paired xs → count_inputs (xs ++ ys) ≡ count_inputs xs + count_inputs ys
unfolding count_inputs
count-append [] ys p = omega arith
count-append (o ∷ []) ys p = elim p [ ]
count-append (o ∷ v ∷ rest) ys p = omega (arith, count-append rest ys p)

-- Arguments in pairs with `n` inputs.
abbrev Opens : ℕ → List Text → Type 0
Opens n args = Paired args × (count_inputs args ≡ n)

-- What a successful step opens.
abbrev OkOpens : ℕ → Result (List Text) → Type 0
OkOpens n (ok args) = Opens n args
OkOpens n (err e) = Unit

Opens-append : (m n : ℕ) (xs ys : List Text) → Opens m xs → Opens n ys → Opens (m + n) (xs ++ ys)
Opens-append m n xs ys p q = (paired xs ys p.0 q.0, count-append xs ys p.0 ∙ (omega arith))
  where
    paired : (xs ys : List Text) → Paired xs → Paired ys → Paired (xs ++ ys)
    paired [] ys p q = q
    paired (o ∷ []) ys p q = elim p [ ]
    paired (o ∷ v ∷ rest) ys p q = paired rest ys p q

Opens-device : (device : Text) → Opens 1 (codes "-i" ∷ device ∷ [])
unfolding count_inputs
Opens-device device = (tt, refl)

Opens-video_options : (f : FFmpegConfig) (i : RecordingInput) → Opens 0 (dshow_video_args f i)
unfolding dshow_video_args count_inputs
Opens-video_options f i = elim (Bool-cases (text_eq i.camera_backend (codes "dshow"))) [
  | inl e ↦ rw e (tt, refl)
  | inr e ↦ rw e (tt, refl)
]

Opens-audio_options : (f : FFmpegConfig) (i : RecordingInput) → Opens 0 (dshow_audio_args f i)
unfolding dshow_audio_args count_inputs
Opens-audio_options f i = elim (Bool-cases (text_eq i.audio_backend (codes "dshow"))) [
  | inl e ↦ rw e (tt, refl)
  | inr e ↦ rw e (tt, refl)
]

Opens-option :
    (o v : Text) (n : ℕ) (xs : List Text)
    → text_eq o (codes "-i") ≡ false
    → Opens n xs
    → Opens n (o ∷ v ∷ xs)
unfolding count_inputs
Opens-option o v n xs h p = (p.0, rw h (omega (arith, p.1)))

OkOpens-video : (f : FFmpegConfig) (i : RecordingInput) → OkOpens 1 (build_usb_video_args f i)
unfolding build_usb_video_args text_eq
OkOpens-video f i = elim (Bool-cases (is_camera_backend i.camera_backend)) [
  | inr e ↦ rw e tt
  | inl e ↦ elim (Bool-cases (is_empty i.camera_device)) [
    | inl d ↦ rw (e, d) tt
    | inr d ↦
        rw (e, d)
          (Opens-option _ _ 1 _ refl (
            Opens-option _ _ 1 _ refl (
              Opens-option _ _ 1 _ refl (
                Opens-append 0 1 (dshow_video_args f i) _ (Opens-video_options f i)
                  (Opens-device _)))))
  ]
]

OkOpens-audio :
    (f : FFmpegConfig) (i : RecordingInput)
    → OkOpens (bit (not (skips_audio i))) (build_usb_audio_args f i)
unfolding build_usb_audio_args text_eq count_inputs
OkOpens-audio f i = elim (Bool-cases (is_audio_backend i.audio_backend)) [
  | inr e ↦ rw e tt
  | inl e ↦ elim (Bool-cases (skips_audio i)) [
    | inl d ↦ rw (e, d) (tt, refl)
    | inr d ↦
        rw (e, d)
          (Opens-option (codes "-f") i.audio_backend 1 _ refl (
            Opens-append 0 1 (dshow_audio_args f i) _ (Opens-audio_options f i) (
              Opens-device
                (device_param i.audio_backend (codes "audio=") i.audio_name i.audio_device))))
  ]
]

OkOpens-bind_ok :
    (m n : ℕ) (xs : List Text) (r : Result (List Text))
    → Opens m xs
    → OkOpens n r
    → OkOpens (m + n) (r >>= λ ys. ok (xs ++ ys))
OkOpens-bind_ok m n xs (ok ys) p q = Opens-append m n xs ys p q
OkOpens-bind_ok m n xs (err e) p q = tt

skipped : (i : RecordingInput) → is_empty i.audio_device ≡ true → bit (not (skips_audio i)) ≡ 0
unfolding skips_audio
skipped i e = rw e refl

OkOpens-with_audio :
    (f : FFmpegConfig) (i : RecordingInput) (m : ℕ) (xs : List Text)
    → Opens m xs
    → OkOpens (m + bit (not (skips_audio i))) (with_audio_args f i xs)
unfolding with_audio_args
OkOpens-with_audio f i m xs p = elim (Bool-cases (is_empty i.audio_device)) [
  | inl e ↦ rw e (p.0, p.1 ∙ (omega (arith, skipped i e)))
  | inr e ↦ rw e (
      OkOpens-bind_ok m (bit (not (skips_audio i))) xs (build_usb_audio_args f i) p
        (OkOpens-audio f i))
]

OkOpens-bind :
    (f : FFmpegConfig) (i : RecordingInput) (m : ℕ) (r : Result (List Text))
    → OkOpens m r
    → OkOpens (m + bit (not (skips_audio i))) (r >>= λ xs. with_audio_args f i xs)
OkOpens-bind f i m (ok xs) p = OkOpens-with_audio f i m xs p
OkOpens-bind f i m (err e) p = tt

OkOpens-rtsp : (i : RecordingInput) → OkOpens 1 (build_rtsp_args i)
unfolding build_rtsp_args count_inputs
OkOpens-rtsp i = elim (Bool-cases (is_empty i.rtsp_url)) [
  | inl e ↦ rw e tt
  | inr e ↦ rw e (tt, refl)
]

OkOpens-stream : (i : RecordingInput) → OkOpens 1 (build_stream_args i)
unfolding build_stream_args count_inputs
OkOpens-stream i = elim (Bool-cases (is_empty i.stream_url)) [
  | inl e ↦ rw e tt
  | inr e ↦ elim (Bool-cases (text_eq i.stream_protocol (codes "rtmp"))) [
    | inl a ↦ rw (e, a) (tt, refl)
    | inr a ↦
        elim (Bool-cases (is_empty i.stream_protocol || text_eq i.stream_protocol (codes "rtsp"))) [
          | inl b ↦ rw (e, a, b) (tt, refl)
          | inr b ↦ elim (Bool-cases (text_eq i.stream_protocol (codes "srt"))) [
            | inl c ↦ rw (e, a, b, c) (tt, refl)
            | inr c ↦ elim (Bool-cases (text_eq i.stream_protocol (codes "hls"))) [
              | inl d ↦ rw (e, a, b, c, d) (tt, refl)
              | inr d ↦ rw (e, a, b, c, d) tt
            ]
          ]
        ]
  ]
]

-- The inputs that the sources of `i` call for.
unfoldable pub expected_inputs : InputSourceType → RecordingInput → ℕ
expected_inputs unset i = 0
expected_inputs usb i = bit (not (is_empty i.camera_device)) + bit (not (skips_audio i))
expected_inputs rtsp i = 1
expected_inputs rtmp i = 1
expected_inputs stream i = 1
expected_inputs mixed i =
    bit (not (is_empty i.rtsp_url) || not (is_empty i.stream_url)) + bit (not (skips_audio i))

OkOpens-camera :
    (f : FFmpegConfig) (i : RecordingInput)
    → OkOpens (bit (not (is_empty i.camera_device))) (camera_args f i)
unfolding camera_args count_inputs
OkOpens-camera f i = elim (Bool-cases (is_empty i.camera_device)) [
  | inl e ↦ rw e (tt, refl)
  | inr e ↦ rw e (OkOpens-video f i)
]

OkOpens-mixed :
    (i : RecordingInput)
    → OkOpens (bit (not (is_empty i.rtsp_url) || not (is_empty i.stream_url))) (mixed_stream_args i)
unfolding mixed_stream_args count_inputs
OkOpens-mixed i = elim (Bool-cases (is_empty i.rtsp_url)) [
  | inr e ↦ rw e (OkOpens-rtsp i)
  | inl e ↦ elim (Bool-cases (is_empty i.stream_url)) [
    | inl d ↦ rw (e, d) (tt, refl)
    | inr d ↦ rw (e, d) (OkOpens-stream i)
  ]
]

OkOpens-inputs :
    (t : InputSourceType) (f : FFmpegConfig) (i : RecordingInput)
    → OkOpens (expected_inputs t i) (input_args_of t f i)
unfolding input_args_of expected_inputs
OkOpens-inputs unset f i = tt
OkOpens-inputs usb f i = OkOpens-bind f i _ (camera_args f i) (OkOpens-camera f i)
OkOpens-inputs rtsp f i = OkOpens-rtsp i
OkOpens-inputs rtmp f i = OkOpens-stream i
OkOpens-inputs stream f i = OkOpens-stream i
OkOpens-inputs mixed f i = OkOpens-bind f i _ (mixed_stream_args i) (OkOpens-mixed i)

ok-Opens :
    (n : ℕ) (r : Result (List Text)) (args : List Text)
    → OkOpens n r
    → r ≡ ok args
    → count_inputs args ≡ n
ok-Opens n (ok xs) args p e = ap count_inputs (ok_injective e) ∙ p.1
  where
    ok_injective : {xs ys : List Text} → Result.ok xs ≡ ok ys → ys ≡ xs
    ok_injective e = cc
ok-Opens n (err x) args p e = ground arith

-- The input arguments open the inputs that the branch of the type adds.
pub count-build_inputs :
    (f : FFmpegConfig) (i : RecordingInput) (args : List Text)
    → build_input_args f i ≡ ok args
    → count_inputs args ≡ expected_inputs i.type i
unfolding build_input_args
count-build_inputs f i args h =
    ok-Opens (expected_inputs i.type i) (input_args_of i.type f i) args (OkOpens-inputs i.type f i)
      h
