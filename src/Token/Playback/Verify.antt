-- ===== src/Token/Playback/Verify.antt =====
-- What Verify does with a token of Generate, and whose tokens it accepts.
use video_meeting_recorder.Common.{ℕ, ◌+◌, ◌/◌, ◌≤◌, ◌≡◌, arith}
use video_meeting_recorder.Errors.{ok, err, token_expired}
use video_meeting_recorder.Token.{Crypto, Documented, Json, RoundTrips, second, open_token-seal}
use video_meeting_recorder.Token.Playback.{
  Claims, VideoPlaybackToken, new_claims, generate, check_time, verify, time_remaining,
}

-- A token that Generate has made is accepted with its claims exactly until it expires, and the time that
-- remains is then at most the configured duration, rounded up to a second.
pub playback_verify-generate :
    (x : Crypto) (json : Json Claims) (t : VideoPlaybackToken) (now later file_id user_id : ℕ)
    → Documented x
    → RoundTrips json (new_claims now t.duration file_id user_id)
    → now ≤ later
    → let c = new_claims now t.duration file_id user_id in
      let r = verify x json t later (generate x json t now file_id user_id) in
      (later ≤ now + t.duration → (r ≡ ok c) × (time_remaining later c ≤ t.duration / second + 1))
      × (now + t.duration + second ≤ later → (r ≡ err token_expired) × (time_remaining later c ≡ 0))
unfolding generate new_claims verify check_time time_remaining
playback_verify-generate x json t now later file_id user_id laws reads l =
    let c = new_claims now t.duration file_id user_id in
    rw (open_token-seal x json t.secret_copy c laws reads)
      (λ p. (ground arith, ground arith), λ p. (ground arith, ground arith))
