-- ===== src/Errors.antt =====
-- The sentinel errors of internal/errors/errors.go that the modelled code returns. An error that
-- wraps a sentinel by `%w` is that sentinel; one that wraps none is `external`. A run-time panic, which
-- the code does not recover, is `panic`.
pub data Error : Type 0 where
  already_exists invalid_input forbidden internal task_not_found task_in_progress : Error
  ffmpeg_failed insufficient_quota recording_smart_extend task_expired_business : Error
  token_invalid token_expired token_not_yet_valid token_replayed : Error
  unauthorized user_disabled user_not_found ad_config_error : Error
  api_key_not_found not_found : Error
  external panic : Error

-- The error of a Go call, or its value where the error is nil.
pub data Result {ℓ} (A : Type ℓ) : Type ℓ where
  err : (error : Error) → Result A
  ok : (value : A) → Result A

module _ {ℓ κ} {A : Type ℓ} {B : Type κ} where
  infixl 5 ◌>>=◌
  -- `if err != nil { return err }`
  abbrev pub ◌>>=◌ : Result A → (A → Result B) → Result B
  err error >>= next = err error
  ok value >>= next = next value
