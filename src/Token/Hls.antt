-- ===== src/Token/Hls.antt =====
-- internal/auth/hlstoken/hls_token.go: the tokens of the HLS preview and the index of their identifiers.
-- Clock readings are in nanoseconds, Unix times in seconds, both since 1970. A Go map is an association
-- list, whose order stands for that of an iteration.
pub mod Verify
pub mod Cap
use video_meeting_recorder.Common.{
  ℕ, zero, suc, ◌+◌, ◌-◌, ◌/◌, Bool, true, false, not, Option, none, some, List, [], ◌∷◌, ◌++◌,
  Text, codes, text_eq, is_empty, length, contains, ltb, leb, ◌==◌, if◌then◌else◌,
}
use video_meeting_recorder.Errors.{Result, ok, err, panic, token_expired, ◌>>=◌}
use video_meeting_recorder.Token.{Crypto, Json, second, split, seal, read_claims, open_token}

-- `jti` is the identifier of the token.
pub record HlsTokenClaims : Type 0 where
  pub task_id : ℕ
  pub user_id : ℕ
  pub expires_at : ℕ
  pub issued_at : ℕ
  pub jti : Text

abbrev pub Jtis : Type 0
Jtis = List (Text × ℕ)

-- `db` is the table hls_jti_records, if there is a database.
pub record HlsToken : Type 0 where
  pub secret : Text
  pub token_duration : ℕ
  pub used_jtis : Jtis
  pub db : Option Jtis

abbrev pub max_used_jtis : ℕ
max_used_jtis = 100000

-- The largest int64
abbrev pub max_int64 : ℕ
max_int64 = 9223372036854775807

unfoldable pub new_claims : ℕ → ℕ → Text → ℕ → ℕ → HlsTokenClaims
new_claims now duration jti task_id user_id = record {
  task_id = task_id;
  user_id = user_id;
  expires_at = (now + duration) / second;
  issued_at = now / second;
  jti = jti;
}

-- `jti` is what generateJti draws.
unfoldable pub generate : Crypto → Json HlsTokenClaims → HlsToken → ℕ → Text → ℕ → ℕ → Text
unfolding new_claims seal
generate x json h now jti task_id user_id =
    seal x json h.secret (new_claims now h.token_duration jti task_id user_id)

unfoldable pub delete_jti : Text → Jtis → Jtis
delete_jti k [] = []
delete_jti k ((j, e) ∷ u) = let rest = delete_jti k u in if text_eq k j then rest else (j, e) ∷ rest

unfoldable pub has_jti : Text → Jtis → Bool
has_jti k [] = false
has_jti k ((j, e) ∷ u) = let rest = has_jti k u in if text_eq k j then true else rest

-- The entries that are not expired at a Unix time.
unfoldable pub drop_expired : ℕ → Jtis → Jtis
drop_expired now [] = []
drop_expired now ((j, e) ∷ u) =
    let rest = drop_expired now u in if ltb e now then rest else (j, e) ∷ rest

-- The entry that expires first, the one so far where neither does.
unfoldable pub earlier : Text × ℕ → Text × ℕ → Text × ℕ
earlier best entry = if ltb entry.1 best.1 then entry else best

-- The scan for the entry that expires first, from the best one so far.
unfoldable pub oldest_from : Text × ℕ → Jtis → Text
unfolding earlier
oldest_from best [] = best.0
oldest_from best (entry ∷ u) = oldest_from (earlier best entry) u

unfoldable pub oldest : Jtis → Text
unfolding oldest_from
oldest u = oldest_from ([], max_int64) u

-- The loop that deletes the oldest entry while there are too many, on fuel.
unfoldable pub evict_oldest : ℕ → Jtis → Jtis
unfolding oldest delete_jti
evict_oldest zero u = u
evict_oldest (suc fuel) u =
    let rest = evict_oldest fuel (delete_jti (oldest u) u) in
    if leb (length u) max_used_jtis then u else rest

unfoldable pub enforce_cap : ℕ → Jtis → Jtis
unfolding drop_expired evict_oldest
enforce_cap now u =
    let kept = drop_expired now u in
    if leb (length u) max_used_jtis then u else evict_oldest (length kept) kept

-- The row is added if the key is new and the database answers.
unfoldable pub create_record : Bool → Text → ℕ → Jtis → Jtis
unfolding has_jti
create_record written jti expires_at rows =
    if not written then rows else if has_jti jti rows then rows else rows ++ (jti, expires_at) ∷ []

unfoldable pub record_jti : ℕ → Bool → HlsTokenClaims → HlsToken → HlsToken
unfolding enforce_cap create_record delete_jti
record_jti now written c h = if is_empty c.jti then h else elim h.db [
  | some rows ↦ record h { db = some (create_record written c.jti c.expires_at rows) }
  | none ↦ record h {
    used_jtis = enforce_cap (now / second) ((c.jti, c.expires_at) ∷ delete_jti c.jti h.used_jtis);
  }
]

unfoldable pub check_time : ℕ → HlsTokenClaims → Result HlsTokenClaims
check_time now c = if ltb c.expires_at (now / second) then err token_expired else ok c

-- `written` is whether the database takes the record.
unfoldable pub verify :
    Crypto → Json HlsTokenClaims → ℕ → Bool → Text → HlsToken → Result HlsTokenClaims × HlsToken
unfolding open_token check_time record_jti
verify x json now written token h = elim (open_token x json h.secret token >>= check_time now) [
  | err e ↦ (err e, h)
  | ok c ↦ (ok c, record_jti now written c h)
]

-- One tick of the sweeper; `deleted` is whether the database deletes its rows.
unfoldable pub evict_expired : ℕ → Bool → HlsToken → HlsToken
unfolding drop_expired
evict_expired now deleted h = elim h.db [
  | none ↦ record h { used_jtis = drop_expired (now / second) h.used_jtis }
  | some rows ↦ if deleted then record h { db = some (drop_expired (now / second) rows) } else h
]

unfoldable pub claims_of_parts : Crypto → Json HlsTokenClaims → List Text → Option HlsTokenClaims
unfolding read_claims
claims_of_parts x json (encoded ∷ signature ∷ []) = read_claims x json encoded
claims_of_parts x json _ = none

-- The signature is not looked at.
unfoldable pub parse_task_id_from_token : Crypto → Json HlsTokenClaims → Text → ℕ
unfolding claims_of_parts split
parse_task_id_from_token x json token = elim (claims_of_parts x json (split token)) [
  | none ↦ 0
  | some c ↦ c.task_id
]

unfoldable pub parse_user_id_from_token : Crypto → Json HlsTokenClaims → Text → ℕ
unfolding claims_of_parts split
parse_user_id_from_token x json token = elim (claims_of_parts x json (split token)) [
  | none ↦ 0
  | some c ↦ c.user_id
]

unfoldable pub is_expired : ℕ → HlsTokenClaims → Bool
is_expired now c = ltb c.expires_at (now / second)

-- The subtraction, which stops at 0 here, is 0 in the source too where it is negative.
unfoldable pub time_remaining : ℕ → HlsTokenClaims → ℕ
time_remaining now c = c.expires_at - now / second

unfoldable pub validate_user : HlsTokenClaims → ℕ → Bool
validate_user c user_id = c.user_id == user_id

unfoldable pub query_param : Text → List (Text × Text) → Option Text
query_param k [] = none
query_param k ((j, v) ∷ ps) = let rest = query_param k ps in if text_eq k j then some v else rest

unfoldable pub get_token_from_url : List (Text × Text) → Text
unfolding query_param
get_token_from_url params = elim (query_param (codes "token") params) [
  | some token ↦ token
  | none ↦ elim (query_param (codes "access_token") params) [ some token ↦ token | none ↦ [] ]
]

-- The constructor panics on a secret of fewer than 32 bytes.
unfoldable pub new_hls_token : Text → ℕ → Result HlsToken
new_hls_token secret duration =
    if ltb (length secret) 32
    then err panic
    else ok (record { secret = secret; token_duration = duration; used_jtis = []; db = none })

-- 63 is the question mark.
unfoldable pub generate_token_url :
    Crypto → Json HlsTokenClaims → Text → ℕ → Text → ℕ → ℕ → Text → ℕ → Result Text
unfolding generate new_hls_token
generate_token_url x json base_url now jti task_id user_id secret duration =
    new_hls_token secret duration >>= λ h.
    let separator = if contains 63 base_url then codes "&token=" else codes "?token=" in
    ok (base_url ++ separator ++ generate x json h now jti task_id user_id)
