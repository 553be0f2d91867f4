-- ===== src/Sm4Token.antt =====
-- internal/auth/sm4_token.go, and the rows it reads (internal/models/user.go, role.go, permission.go): the
-- tokens of a login, which are their claims, encrypted. SM4-GCM, base64 and JSON are parameters, and so
-- are the nonces that are drawn. Clock readings are in nanoseconds, Unix times in seconds, both since
-- 1970. A Go map that is only iterated is a list, whose order stands for that of the iteration.
mod Examples
pub mod RoundTrip
pub mod Refresh
use video_meeting_recorder.Common.{
  ℕ, ◌+◌, ◌*◌, ◌/◌, Bool, true, false, not, Option, none, some, List, [], ◌∷◌, ◌++◌, map, Text,
  codes, text_eq, length, take, drop, ltb, if◌then◌else◌, ◌≡◌,
}
use video_meeting_recorder.Common.Clock.{second, hour}
use video_meeting_recorder.Errors.{
  Result, ok, err, external, token_invalid, token_expired, token_not_yet_valid, ◌>>=◌,
}
use video_meeting_recorder.Token.{Json, or_invalid}

-- crypto/cipher's AEAD under the key of the service, and encoding/base64's RawURLEncoding.
pub record Aead : Type 0 where
  pub nonce_size : ℕ
  pub overhead : ℕ
  pub sealed : Text → Text → Text
  pub open_sealed : Text → Text → Option Text
  pub raw_url_encode : Text → Text
  pub raw_url_decode : Text → Option Text

-- What the code relies on: what is sealed is longer by the tag, and both encodings are undone.
pub record Documented (x : Aead) : Type 0 where
  pub length-sealed : (n p : Text) → length (x.sealed n p) ≡ length p + x.overhead
  pub open_sealed-sealed : (n p : Text) → x.open_sealed n (x.sealed n p) ≡ some p
  pub raw_url_inverse : (s : Text) → x.raw_url_decode (x.raw_url_encode s) ≡ some s

pub record Permission : Type 0 where
  pub resource : Text
  pub action : Text

pub record Role : Type 0 where
  pub id : ℕ
  pub name : Text
  pub permissions : List Permission

pub record User : Type 0 where
  pub id : ℕ
  pub username : Text
  pub is_active : Bool
  pub roles : List Role

pub record Claims : Type 0 where
  pub user_id : ℕ
  pub username : Text
  pub role_ids : List ℕ
  pub permissions : List Text
  pub is_admin : Bool
  pub token_type : Text
  pub issued_at : ℕ
  pub expires_at : ℕ
  pub not_before : ℕ
  pub issuer : Text

pub record TokenPair : Type 0 where
  pub access_token : Text
  pub refresh_token : Text
  pub expires_at : ℕ

-- The settings of the service; the key is in the `Aead`.
pub record Sm4TokenService : Type 0 where
  pub issuer : Text
  pub expire_hours : ℕ
  pub refresh_expire : ℕ
  pub grace_period : ℕ

abbrev pub default_grace : ℕ
default_grace = 30 * second

abbrev pub access : Text
access = codes "access"

abbrev pub refresh : Text
refresh = codes "refresh"

unfoldable pub has_role : Text → List Role → Bool
has_role name [] = false
has_role name (r ∷ rs) = let rest = has_role name rs in if text_eq r.name name then true else rest

unfoldable pub has_text : Text → List Text → Bool
has_text t [] = false
has_text t (s ∷ ss) = let rest = has_text t ss in if text_eq t s then true else rest

-- The keys of permMap.
unfoldable pub add_permission : Permission → List Text → List Text
unfolding has_text
add_permission p found =
    let key = p.resource ++ 58 ∷ p.action in if has_text key found then found else key ∷ found

unfoldable pub add_permissions : List Permission → List Text → List Text
unfolding add_permission
add_permissions [] found = found
add_permissions (p ∷ ps) found = add_permissions ps (add_permission p found)

unfoldable pub collect_permissions : List Role → List Text → List Text
unfolding add_permissions
collect_permissions [] found = found
collect_permissions (r ∷ rs) found = collect_permissions rs (add_permissions r.permissions found)

unfoldable pub claims_of : Sm4TokenService → ℕ → Text → ℕ → User → Claims
unfolding collect_permissions has_role
claims_of s now token_type duration u = record {
  user_id = u.id;
  username = u.username;
  role_ids = map Role.id u.roles;
  permissions = collect_permissions u.roles [];
  is_admin = has_role (codes "admin") u.roles;
  token_type = token_type;
  issued_at = now / second;
  expires_at = (now + duration) / second;
  not_before = now / second;
  issuer = s.issuer;
}

-- The time that validateClaims reads is an argument.
unfoldable pub validate_claims : ℕ → Text → Claims → Result Claims
validate_claims now expected_type c =
    if not (text_eq c.token_type expected_type)
    then err token_invalid
    else if ltb c.expires_at (now / second)
    then err token_expired
    else if ltb (now / second) c.not_before
    then err token_not_yet_valid
    else ok c

module _ (x : Aead) (json : Json Claims) where
  -- The nonce is none when the random source fails.
  unfoldable pub encrypt_token : Option Text → Claims → Result Text
  encrypt_token nonce c = elim (json.marshal c) [
    | none ↦ err external
    | some plaintext ↦ elim nonce [
      | none ↦ err external
      | some n ↦ ok (x.raw_url_encode (n ++ x.sealed n plaintext))
    ]
  ]

  unfoldable pub generate_token : Sm4TokenService → ℕ → Option Text → Text → ℕ → User → Result Text
  unfolding encrypt_token claims_of
  generate_token s now nonce token_type duration u =
      encrypt_token nonce (claims_of s now token_type duration u)

  -- One reading of the clock stands for the three; the nonces are those of the two tokens.
  unfoldable pub generate_token_pair :
      Sm4TokenService → ℕ → Option Text × Option Text → User → Result TokenPair
  unfolding generate_token
  generate_token_pair s now draws u =
      generate_token s now draws.0 access (s.expire_hours * hour) u >>= λ a.
      generate_token s now draws.1 refresh (s.refresh_expire * hour) u >>= λ r.
      ok (record { access_token = a; refresh_token = r; expires_at = now + s.expire_hours * hour })

  unfoldable pub read_plaintext : Option Text → Option Claims
  read_plaintext none = none
  read_plaintext (some plaintext) = json.unmarshal plaintext

  unfoldable pub open_bytes : Text → Result Claims
  unfolding read_plaintext or_invalid
  open_bytes bytes =
      if ltb (length bytes) (x.nonce_size + x.overhead)
      then err token_invalid
      else or_invalid
          (read_plaintext (x.open_sealed (take x.nonce_size bytes) (drop x.nonce_size bytes)))

  unfoldable pub decrypt_token : Text → Result Claims
  unfolding open_bytes
  decrypt_token token = elim (x.raw_url_decode token) [
    | none ↦ err token_invalid
    | some bytes ↦ open_bytes bytes
  ]

  unfoldable pub validate_token : ℕ → Text → Result Claims
  unfolding decrypt_token validate_claims
  validate_token now token = decrypt_token token >>= validate_claims now access

  unfoldable pub validate_refresh_token : ℕ → Text → Result Claims
  unfolding decrypt_token validate_claims
  validate_refresh_token now token = decrypt_token token >>= validate_claims now refresh
