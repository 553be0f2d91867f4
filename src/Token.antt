-- ===== src/Token.antt =====
-- What the two HMAC token services share (internal/auth/hlstoken/hls_token.go and
-- internal/auth/videoplaybacktoken/video_playback_token.go), whose Verify begin alike: a token is the
-- encoded claims, a dot and their signature. Texts are the bytes of Go strings. The standard library's
-- base64, HMAC and JSON are parameters.
mod Examples
pub mod Hls
pub mod Playback
use video_meeting_recorder.Common.{
  ℕ, ◌*◌, ◌≡◌, ◌⊎◌, inl, inr, refl, Bool, true, false, not, ◌&&◌, Option, none, some, List, [], ◌∷◌,
  ◌++◌, Text, text_eq, contains, ◌==◌, if◌then◌else◌, ap, sym, Bool-cases, ◌∙◌, text_eq_iff,
  text_eq_refl, arith,
}
use video_meeting_recorder.Errors.{Result, ok, err, token_invalid}

-- crypto/hmac with SHA-256 (the key first), and encoding/base64.
pub record Crypto : Type 0 where
  pub hmac : Text → Text → Text
  pub url_encode : Text → Text
  pub url_decode : Text → Option Text
  pub raw_url_encode : Text → Text
  pub raw_url_decode : Text → Option Text
  pub std_decode : Text → Option Text

-- What the code relies on: both encodings are undone by their decoders, and use no dot.
pub record Documented (x : Crypto) : Type 0 where
  pub url_inverse : (s : Text) → x.url_decode (x.url_encode s) ≡ some s
  pub raw_url_inverse : (s : Text) → x.raw_url_decode (x.raw_url_encode s) ≡ some s
  pub url_dotless : (s : Text) → contains 46 (x.url_encode s) ≡ false
  pub raw_url_dotless : (s : Text) → contains 46 (x.raw_url_encode s) ≡ false

-- encoding/json at a type of claims.
pub record Json (C : Type 0) : Type 0 where
  pub marshal : C → Option Text
  pub unmarshal : Text → Option C

-- These claims are written and read back.
abbrev pub RoundTrips : {C : Type 0} → Json C → C → Type 0
RoundTrips json c =
    (payload : Text) × (json.marshal c ≡ some payload) × (json.unmarshal payload ≡ some c)

abbrev pub dot : ℕ
dot = 46

-- time.Second
abbrev pub second : ℕ
second = 1000000000

abbrev pub prepend : ℕ → List Text → List Text
prepend c [] = (c ∷ []) ∷ []
prepend c (p ∷ ps) = (c ∷ p) ∷ ps

-- strings.Split(token, ".")
unfoldable pub split : Text → List Text
split [] = [] ∷ []
split (c ∷ s) = let rest = split s in if c == dot then [] ∷ rest else prepend c rest

-- The first of the three encodings that reads the signature.
unfoldable pub decode_signature : Crypto → Text → Option Text
decode_signature x signature = elim (x.raw_url_decode signature) [
  | some mac ↦ some mac
  | none ↦ elim (x.url_decode signature) [ some mac ↦ some mac | none ↦ x.std_decode signature ]
]

unfoldable pub sign : Crypto → Text → Text → Text
sign x secret payload = x.raw_url_encode (x.hmac secret payload)

-- The token of claims; the empty text when they are not written.
unfoldable pub seal : {C : Type 0} → Crypto → Json C → Text → C → Text
unfolding sign
seal x json secret c = elim (json.marshal c) [
  | none ↦ []
  | some payload ↦ let encoded = x.url_encode payload in encoded ++ dot ∷ sign x secret encoded
]

unfoldable pub read_claims : {C : Type 0} → Crypto → Json C → Text → Option C
read_claims x json encoded = elim (x.url_decode encoded) [
  | none ↦ none
  | some payload ↦ json.unmarshal payload
]

unfoldable pub or_invalid : {C : Type 0} → Option C → Result C
or_invalid none = err token_invalid
or_invalid (some c) = ok c

unfoldable pub open_parts : {C : Type 0} → Crypto → Json C → Text → List Text → Result C
unfolding decode_signature read_claims or_invalid
open_parts x json secret (encoded ∷ signature ∷ []) = elim (decode_signature x signature) [
  | none ↦ err token_invalid
  | some mac ↦
      if text_eq (x.hmac secret encoded) mac
      then or_invalid (read_claims x json encoded)
      else err token_invalid
]
open_parts x json secret _ = err token_invalid

-- The checks of Verify before that of the time.
unfoldable pub open_token : {C : Type 0} → Crypto → Json C → Text → Text → Result C
unfolding split open_parts
open_token x json secret token = open_parts x json secret (split token)

split-dotless : (s : Text) → contains dot s ≡ false → split s ≡ s ∷ []
unfolding split contains
split-dotless [] h = refl
split-dotless (c ∷ s) h = ground (arith, split-dotless s)

split-pair :
    (a b : Text)
    → contains dot a ≡ false
    → contains dot b ≡ false
    → split (a ++ dot ∷ b) ≡ a ∷ b ∷ []
unfolding split contains
split-pair [] b h k = rw (split-dotless b k) refl
split-pair (c ∷ a) b h k = ground (arith, split-pair a b)

-- strings.Join(parts, "."), of a first part and the others.
joined : Text → List Text → Text
joined p [] = p
joined p (q ∷ qs) = p ++ dot ∷ joined q qs

joined-cons : (c : ℕ) (p : Text) (ps : List Text) → joined (c ∷ p) ps ≡ c ∷ joined p ps
unfolding joined
joined-cons c p [] = refl
joined-cons c p (q ∷ qs) = refl

-- The parts are never none, and they joined are the text.
split-joined : (s : Text) → (p : Text) × (ps : List Text) × (split s ≡ p ∷ ps) × (joined p ps ≡ s)
unfolding split joined
split-joined [] = ([], [], refl, refl)
split-joined (c ∷ s) =
    let (p, ps, e, j) = split-joined s in
    elim (Bool-cases (c == dot)) [
      | inl d ↦ ([], p ∷ ps, rw (d, e) refl, ground (arith, j))
      | inr d ↦ (c ∷ p, ps, rw (d, e) refl, joined-cons c p ps ∙ ap (◌∷◌ c) j)
    ]

split_two : (s a b : Text) → split s ≡ a ∷ b ∷ [] → s ≡ a ++ dot ∷ b
unfolding joined
split_two s a b h =
    let (p, ps, e, j) = split-joined s in
    let parts : p ∷ ps ≡ a ∷ b ∷ [] = sym e ∙ h in
    sym j ∙ ap (λ q. elim q [ [] ↦ [] | q ∷ qs ↦ joined q qs ]) parts

seal_lem :
    {C : Type 0} (x : Crypto) (json : Json C) (secret : Text) (c : C) (payload : Text)
    → json.marshal c ≡ some payload
    → seal x json secret c ≡ x.url_encode payload ++ dot ∷ sign x secret (x.url_encode payload)
unfolding seal
seal_lem x json secret c payload h = rw (h, seal) refl

-- What is sealed is opened again.
pub open_token-seal :
    {C : Type 0} (x : Crypto) (json : Json C) (secret : Text) (c : C)
    → Documented x
    → RoundTrips json c
    → open_token x json secret (seal x json secret c) ≡ ok c
unfolding open_token open_parts decode_signature read_claims or_invalid sign
open_token-seal x json secret c laws (payload, w, r) =
    let encoded = x.url_encode payload in
    let mac = x.hmac secret encoded in
    rw
      (
        seal_lem x json secret c payload w,
        split-pair encoded (x.raw_url_encode mac) (laws.url_dotless payload)
            (laws.raw_url_dotless mac),
        laws.raw_url_inverse mac,
        text_eq_refl mac,
        laws.url_inverse payload,
        r,
        open_parts,
        decode_signature,
        read_claims,
      )
      refl

-- A token that is opened is two parts, the second the signature of the first, and the first the claims.
pub opened_is_signed :
    {C : Type 0} (x : Crypto) (json : Json C) (secret token : Text) (c : C)
    → open_token x json secret token ≡ ok c
    → (encoded signature : Text) × (token ≡ encoded ++ dot ∷ signature)
      × (decode_signature x signature ≡ some (x.hmac secret encoded))
      × (read_claims x json encoded ≡ some c)
unfolding open_token open_parts or_invalid
opened_is_signed {C} x json secret token c h = go (split token) (split_two token) h
  where
    go :
        (ps : List Text)
        → ((a b : Text) → ps ≡ a ∷ b ∷ [] → token ≡ a ++ dot ∷ b)
        → open_parts x json secret ps ≡ ok c
        → (encoded signature : Text) × (token ≡ encoded ++ dot ∷ signature)
          × (decode_signature x signature ≡ some (x.hmac secret encoded))
          × (read_claims x json encoded ≡ some c)
    go [] s h = absurd (ground arith)
    go (a ∷ []) s h = absurd (ground arith)
    go (a ∷ b ∷ []) s h =
        let (m, o) = signed (decode_signature x b) (read_claims x json a) h in
        (a, b, s a b refl, m, o)
      where
        signed :
            (m : Option Text) (o : Option C)
            → (elim m as (λ y. Result C) [
              | none ↦ err token_invalid
              | some mac ↦ if text_eq (x.hmac secret a) mac then or_invalid o else err token_invalid
            ])
              ≡ ok c
            → (m ≡ some (x.hmac secret a)) × (o ≡ some c)
        signed none o h = absurd (ground arith)
        signed (some mac) none h = absurd (ground arith)
        signed (some mac) (some d) h = ground (arith, text_eq_iff (x.hmac secret a) mac)
    go (a ∷ b ∷ d ∷ ps) s h = absurd (ground arith)
