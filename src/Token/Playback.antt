-- ===== src/Token/Playback.antt =====
-- internal/auth/videoplaybacktoken/video_playback_token.go: the tokens of recorded files. Clock readings
-- are in nanoseconds, Unix times in seconds, both since 1970.
pub mod Verify
use video_meeting_recorder.Common.{ℕ, ◌+◌, ◌-◌, ◌/◌, Bool, Text, length, ltb, if◌then◌else◌}
use video_meeting_recorder.Errors.{Result, ok, err, panic, token_expired, ◌>>=◌}
use video_meeting_recorder.Token.{Crypto, Json, second, seal, open_token}

pub record Claims : Type 0 where
  pub file_id : ℕ
  pub user_id : ℕ
  pub expires_at : ℕ
  pub issued_at : ℕ

pub record VideoPlaybackToken : Type 0 where
  pub secret_copy : Text
  pub duration : ℕ

-- The constructor panics on a secret of fewer than 32 bytes.
unfoldable pub new_video_playback_token : Text → ℕ → Result VideoPlaybackToken
new_video_playback_token secret duration =
    if ltb (length secret) 32
    then err panic
    else ok (record { secret_copy = secret; duration = duration })

unfoldable pub new_claims : ℕ → ℕ → ℕ → ℕ → Claims
new_claims now duration file_id user_id = record {
  file_id = file_id;
  user_id = user_id;
  expires_at = (now + duration) / second;
  issued_at = now / second;
}

unfoldable pub generate : Crypto → Json Claims → VideoPlaybackToken → ℕ → ℕ → ℕ → Text
unfolding new_claims seal
generate x json t now file_id user_id =
    seal x json t.secret_copy (new_claims now t.duration file_id user_id)

unfoldable pub is_expired : ℕ → Claims → Bool
is_expired now c = ltb c.expires_at (now / second)

unfoldable pub time_remaining : ℕ → Claims → ℕ
time_remaining now c = c.expires_at - now / second

unfoldable pub check_time : ℕ → Claims → Result Claims
unfolding is_expired
check_time now c = if ltb c.expires_at (now / second) then err token_expired else ok c

unfoldable pub verify : Crypto → Json Claims → VideoPlaybackToken → ℕ → Text → Result Claims
unfolding open_token check_time
verify x json t now token = open_token x json t.secret_copy token >>= check_time now
