-- ===== src/Token/Hls/Verify.antt =====
-- What a token that Verify accepts is, and what it does with a token of Generate.
use video_meeting_recorder.Common.{
  ℕ, ◌+◌, ◌/◌, ◌≤◌, ◌≡◌, refl, ap, ◌∙◌, Bool, some, ◌∷◌, ◌++◌, Text, ltb, if◌then◌else◌, Bool-cases,
  inl, inr, ◌<◌, arith,
}
use video_meeting_recorder.Errors.{Error, Result, ok, err, token_expired, ◌>>=◌}
use video_meeting_recorder.Token.{
  Crypto, Documented, Json, RoundTrips, second, dot, decode_signature, read_claims, open_token,
  open_token-seal, opened_is_signed,
}
use video_meeting_recorder.Token.Hls.{
  HlsTokenClaims, HlsToken, new_claims, generate, check_time, record_jti, verify,
}

module _ (x : Crypto) (json : Json HlsTokenClaims) where
  verify_opened :
      (now : ℕ) (written : Bool) (token : Text) (h : HlsToken) (c : HlsTokenClaims)
      → open_token x json h.secret token ≡ ok c
      → (verify x json now written token h).0
        ≡ (if ltb c.expires_at (now / second) then err token_expired else ok c)
  unfolding verify check_time
  verify_opened now written token h c e = elim (Bool-cases (ltb c.expires_at (now / second))) [
    | inl d ↦ rw (e, verify, check_time, d) refl
    | inr d ↦ rw (e, verify, check_time, d) refl
  ]

  -- A token that Generate has made is accepted by Verify, with its claims, up to the second in which it
  -- expires, whatever tokens were verified meanwhile; after that second it is refused as expired.
  pub verify-generate :
      (h h' : HlsToken) (now later task_id user_id : ℕ) (written : Bool) (jti : Text)
      → Documented x
      → RoundTrips json (new_claims now h.token_duration jti task_id user_id)
      → h'.secret ≡ h.secret
      → let c = new_claims now h.token_duration jti task_id user_id in
        let r = (verify x json later written (generate x json h now jti task_id user_id) h').0 in
        (later ≤ now + h.token_duration → r ≡ ok c)
        × (now + h.token_duration + second ≤ later → r ≡ err token_expired)
  unfolding generate new_claims
  verify-generate h h' now later task_id user_id written jti laws reads same =
      let c = new_claims now h.token_duration jti task_id user_id in
      let token = generate x json h now jti task_id user_id in
      let opened : open_token x json h'.secret token ≡ ok c =
        ap (λ s. open_token x json s token) same ∙ open_token-seal x json h.secret c laws reads in
      let r = verify_opened later written token h' c opened in
      (λ p. r ∙ ground arith, λ p. r ∙ ground arith)

  settled :
      (now : ℕ) (written : Bool) (h : HlsToken) (o : Result HlsTokenClaims)
      → let r = elim (o >>= check_time now) as (λ y. Result HlsTokenClaims × HlsToken) [
        | err e ↦ (err e, h)
        | ok c ↦ (ok c, record_jti now written c h)
      ] in
        ((c : HlsTokenClaims) → r.0 ≡ ok c → (o ≡ ok c) × (c.expires_at < now / second → ⊥))
        × ((e : Error) → r.0 ≡ err e → r.1 ≡ h)
  unfolding check_time
  settled now written h (err e) = (λ c p. absurd (ground arith), λ e p. refl)
  settled now written h (ok d) = elim (Bool-cases (ltb d.expires_at (now / second))) [
    | inl p ↦ rw p (λ c q. absurd (ground arith), λ e q. refl)
    | inr p ↦ rw p (
      λ c q. (q, λ l. let same : d ≡ c = cc in ground (arith, ap HlsTokenClaims.expires_at same)),
      λ e q. absurd (ground arith),
    )
  ]

  -- A token that Verify accepts is two parts, the second of which is the signature of the first under the
  -- secret and the first the claims, which have not expired; a token that it refuses changes nothing.
  pub verify_sound :
      (now : ℕ) (written : Bool) (token : Text) (h : HlsToken)
      → let (r, h') = verify x json now written token h in
        ((c : HlsTokenClaims)
          → r ≡ ok c
          → (c.expires_at < now / second → ⊥)
            × ((encoded signature : Text) × (token ≡ encoded ++ dot ∷ signature)
                × (decode_signature x signature ≡ some (x.hmac h.secret encoded))
                × (read_claims x json encoded ≡ some c)))
        × ((e : Error) → r ≡ err e → h' ≡ h)
  unfolding verify
  verify_sound now written token h =
      let (passed, refused) = settled now written h (open_token x json h.secret token) in
      (λ c e. let (o, t) = passed c e in (t, opened_is_signed x json h.secret token c o), refused)
