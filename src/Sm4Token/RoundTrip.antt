-- ===== src/Sm4Token/RoundTrip.antt =====
-- What becomes of the tokens of GenerateTokenPair in internal/auth/sm4_token.go.
use video_meeting_recorder.Common.{
  ℕ, ◌+◌, ◌*◌, ◌/◌, ◌≤◌, ◌≡◌, refl, some, ◌++◌, Text, text_eq, length, take, drop, take-append,
  drop-append, length-append, ltb, if◌then◌else◌, true, false, arith, subst,
}
use video_meeting_recorder.Common.Clock.{second, hour}
use video_meeting_recorder.Errors.{Result, ok, err, token_invalid, token_expired}
use video_meeting_recorder.Token.{Json, RoundTrips, or_invalid}
use video_meeting_recorder.Sm4Token.{
  Aead, Documented, User, Claims, TokenPair, Sm4TokenService, access, refresh, claims_of,
  validate_claims, encrypt_token, generate_token, generate_token_pair, read_plaintext, open_bytes,
  decrypt_token, validate_token, validate_refresh_token,
}

module _ (x : Aead) (json : Json Claims) (laws : Documented x) where
  open_bytes-sealed :
      (n p : Text) (c : Claims)
      → length n ≡ x.nonce_size
      → json.unmarshal p ≡ some c
      → open_bytes x json (n ++ x.sealed n p) ≡ ok c
  unfolding open_bytes read_plaintext or_invalid
  open_bytes-sealed n p c size reads =
      rw (long, head, tail, laws.open_sealed-sealed n p, reads, open_bytes, read_plaintext) refl
    where
      long : ltb (length (n ++ x.sealed n p)) (x.nonce_size + x.overhead) ≡ false
      long = ground (arith, length-append n (x.sealed n p), laws.length-sealed n p)

      head : take x.nonce_size (n ++ x.sealed n p) ≡ n
      head = subst (λ k. take k (n ++ x.sealed n p) ≡ n) size (take-append n (x.sealed n p))

      tail : drop x.nonce_size (n ++ x.sealed n p) ≡ x.sealed n p
      tail =
          subst (λ k. drop k (n ++ x.sealed n p) ≡ x.sealed n p) size (drop-append n (x.sealed n p))

  -- Claims are encrypted, and decrypted again.
  pub encrypt_token_lem :
      (n : Text) (c : Claims)
      → length n ≡ x.nonce_size
      → RoundTrips json c
      → (t : Text) × (encrypt_token x json (some n) c ≡ ok t) × (decrypt_token x json t ≡ ok c)
  unfolding encrypt_token decrypt_token
  encrypt_token_lem n c size (p, w, r) = (
    x.raw_url_encode (n ++ x.sealed n p),
    rw (w, encrypt_token) refl,
    rw (laws.raw_url_inverse (n ++ x.sealed n p), decrypt_token) (open_bytes-sealed n p c size r),
  )

-- The claims up to the second of an instant, and that they have expired after it.
abbrev pub until : ℕ → ℕ → Claims → Result Claims
until due later c = if ltb (due / second) (later / second) then err token_expired else ok c

module _ (s : Sm4TokenService) (u : User) (now later : ℕ) (le : now ≤ later) where
  claims_in_time :
      (type : Text) (d : ℕ)
      → text_eq type type ≡ true
      → validate_claims later type (claims_of s now type d u)
        ≡ until (now + d) later (claims_of s now type d u)
  unfolding validate_claims claims_of
  claims_in_time type d e = rw (e, validate_claims) (ground arith)

  claims_of_other_type :
      (type expected : Text) (d : ℕ)
      → text_eq type expected ≡ false
      → validate_claims later expected (claims_of s now type d u) ≡ err token_invalid
  unfolding validate_claims claims_of
  claims_of_other_type type expected d e = rw (e, validate_claims) refl

module _ (x : Aead) (json : Json Claims) (s : Sm4TokenService) where
  -- GenerateTokenPair makes a pair, and from then on ValidateToken accepts its access token, with the
  -- claims of the user, until the second in which it expires, and refuses it as expired after that
  -- second; so does ValidateRefreshToken with its refresh token; and each of the two refuses the token of
  -- the other kind as invalid. The nonces have the right size, and the claims are written and read back.
  pub pair_accepted :
      (n m : Text) (u : User) (now later : ℕ)
      → Documented x
      → length n ≡ x.nonce_size
      → length m ≡ x.nonce_size
      → RoundTrips json (claims_of s now access (s.expire_hours * hour) u)
      → RoundTrips json (claims_of s now refresh (s.refresh_expire * hour) u)
      → now ≤ later
      → (p : TokenPair) × (generate_token_pair x json s now (some n, some m) u ≡ ok p)
        × (validate_token x json later p.access_token
            ≡ until
                (now + s.expire_hours * hour)
                later
                (claims_of s now access (s.expire_hours * hour) u))
        × (validate_refresh_token x json later p.refresh_token
            ≡ until
                (now + s.refresh_expire * hour)
                later
                (claims_of s now refresh (s.refresh_expire * hour) u))
        × (validate_token x json later p.refresh_token ≡ err token_invalid)
        × (validate_refresh_token x json later p.access_token ≡ err token_invalid)
  unfolding generate_token_pair generate_token validate_token validate_refresh_token text_eq
  pair_accepted n m u now later laws size_n size_m reads_a reads_r le =
      let ca = claims_of s now access (s.expire_hours * hour) u in
      let cr = claims_of s now refresh (s.refresh_expire * hour) u in
      let (ta, ea, da) = encrypt_token_lem x json laws n ca size_n reads_a in
      let (tr, er, dr) = encrypt_token_lem x json laws m cr size_m reads_r in
      (
        record { access_token = ta; refresh_token = tr; expires_at = now + s.expire_hours * hour },
        rw (ea, er, generate_token_pair, generate_token) refl,
        rw (da, validate_token)
            (claims_in_time s u now later le access (s.expire_hours * hour) refl),
        rw (dr, validate_refresh_token)
            (claims_in_time s u now later le refresh (s.refresh_expire * hour) refl),
        rw (dr, validate_token)
            (claims_of_other_type s u now later le refresh access (s.refresh_expire * hour) refl),
        rw (da, validate_refresh_token)
            (claims_of_other_type s u now later le access refresh (s.expire_hours * hour) refl),
      )
