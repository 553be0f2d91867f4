-- ===== src/Token/Examples.antt =====
-- Witnesses and tests of the token services, with simple stand-ins for base64, HMAC and JSON.
use video_meeting_recorder.Common.{
  ℕ, zero, suc, length, ◌+◌, ◌-◌, ◌*◌, ◌≤◌, ◌<◌, ◌≡◌, refl, true, false, Option, none, some, List,
  [], ◌∷◌, ◌++◌, Text, codes, contains, ltb, if◌then◌else◌, replicate, arith, ap, sym, ◌∙◌, subst,
}
use video_meeting_recorder.Errors.{Error, ok, err, token_expired}
use video_meeting_recorder.Token.{
  Crypto, Documented, Json, second, dot, decode_signature, read_claims, open_token, open_token-seal,
  seal,
}
use video_meeting_recorder.Token.Hls.{
  HlsTokenClaims, HlsToken, new_claims, generate, verify, max_int64, max_used_jtis, Jtis,
}
use video_meeting_recorder.Token.Hls.Verify.{verify-generate, verify_sound}
use video_meeting_recorder.Token.Hls.Cap.{
  Call, verifies, sweeps, run, Sane, Capped, below, run-Capped,
}

-- The codes from that of the dot on move up by one.
abbrev shift : Text → Text
shift [] = []
shift (c ∷ s) = (if ltb c dot then c else c + 1) ∷ shift s

abbrev unshift : Text → Text
unshift [] = []
unshift (c ∷ s) = (if ltb c dot then c else c - 1) ∷ unshift s

unshift-shift : (s : Text) → unshift (shift s) ≡ s
unshift-shift [] = refl
unshift-shift (c ∷ s) = ground (arith, unshift-shift s)

shift-dotless : (s : Text) → contains dot (shift s) ≡ false
unfolding contains
shift-dotless [] = refl
shift-dotless (c ∷ s) = ground (arith, shift-dotless s)

abbrev plain : Crypto
plain = record {
  hmac = λ key message. key ++ message;
  url_encode = shift;
  url_decode = λ s. some (unshift s);
  raw_url_encode = shift;
  raw_url_decode = λ s. some (unshift s);
  std_decode = λ s. none;
}

plain-Documented : Documented plain
plain-Documented = record {
  url_inverse = λ s. ap some (unshift-shift s);
  raw_url_inverse = λ s. ap some (unshift-shift s);
  url_dotless = shift-dotless;
  raw_url_dotless = shift-dotless;
}

abbrev hls_marshal : HlsTokenClaims → Option Text
hls_marshal c = some (c.task_id ∷ c.user_id ∷ c.expires_at ∷ c.issued_at ∷ c.jti)

abbrev hls_unmarshal : Text → Option HlsTokenClaims
hls_unmarshal (t ∷ u ∷ e ∷ i ∷ jti) =
    some (record { task_id = t; user_id = u; expires_at = e; issued_at = i; jti = jti })
hls_unmarshal _ = none

abbrev hls_json : Json HlsTokenClaims
hls_json = record { marshal = hls_marshal; unmarshal = hls_unmarshal }

abbrev previews : HlsToken
previews = record {
  secret = replicate 32 75;
  token_duration = 30 * second;
  used_jtis = [];
  db = none;
}

abbrev preview : HlsTokenClaims
preview = record {
  task_id = 12;
  user_id = 5;
  expires_at = 1030;
  issued_at = 1000;
  jti = codes "ab";
}

verify-generate_example :
    let r =
      (verify plain hls_json
        (1020 * second)
        true
        (generate plain hls_json previews (1000 * second) (codes "ab") 12 5)
        previews).0 in
    (1020 * second ≤ 1000 * second + 30 * second → r ≡ ok preview)
    × (1000 * second + 30 * second + second ≤ 1020 * second → r ≡ err token_expired)
unfolding new_claims
verify-generate_example =
    verify-generate plain hls_json previews previews (1000 * second) (1020 * second) 12 5 true
      (codes "ab") plain-Documented (12 ∷ 5 ∷ 1030 ∷ 1000 ∷ codes "ab", refl, refl) refl

abbrev token : Text
token = generate plain hls_json previews (1000 * second) (codes "ab") 12 5

verify_sound_example :
    let (r, h') = verify plain hls_json (1020 * second) true token previews in
    ((c : HlsTokenClaims)
      → r ≡ ok c
      → (c.expires_at < 1020 → ⊥)
        × ((encoded signature : Text) × (token ≡ encoded ++ dot ∷ signature)
            × (decode_signature plain signature ≡ some (replicate 32 75 ++ encoded))
            × (read_claims plain hls_json encoded ≡ some c)))
    × ((e : Error) → r ≡ err e → h' ≡ previews)
verify_sound_example = verify_sound plain hls_json (1020 * second) true token previews

abbrev calls : List Call
calls = verifies (1020 * second) true token ∷ sweeps (1060 * second) true ∷ []

token_opened : open_token plain hls_json (replicate 32 75) token ≡ ok preview
unfolding generate seal new_claims
token_opened =
    open_token-seal plain hls_json (replicate 32 75) preview plain-Documented
      (12 ∷ 5 ∷ 1030 ∷ 1000 ∷ codes "ab", refl, refl)

calls-Sane : Sane plain hls_json (replicate 32 75) calls
unfolding Sane
calls-Sane = (
  λ c e.
      let same : preview ≡ c = opened c e in
      subst (λ y. y.expires_at < max_int64) same (omega arith),
  tt,
)
  where
    opened :
        (c : HlsTokenClaims)
        → open_token plain hls_json (replicate 32 75) token ≡ ok c
        → preview ≡ c
    opened c e = let h : ok preview ≡ ok c = sym token_opened ∙ e in cc

-- So many identifiers that have not expired.
full : ℕ → Jtis
full zero = []
full (suc n) = (n ∷ [], 2000) ∷ full n

length-full : (n : ℕ) → length (full n) ≡ n
unfolding full
length-full zero = refl
length-full (suc n) = omega (arith, length-full n)

full-below : (n : ℕ) → below (full n) ≡ true
unfolding full below
full-below zero = refl
full-below (suc n) = ground (arith, full-below n)

full-Capped : (n : ℕ) → n ≤ max_used_jtis → Capped (full n)
unfolding Capped
full-Capped n h = (omega (arith, h, length-full n), full-below n)

-- An index that is at its limit, so that the next identifier drives one out.
abbrev crowded : HlsToken
crowded = record previews { used_jtis = full max_used_jtis }

run-Capped_example : Capped (run plain hls_json calls crowded).used_jtis
run-Capped_example =
    run-Capped plain hls_json calls crowded calls-Sane (full-Capped max_used_jtis (omega arith))
