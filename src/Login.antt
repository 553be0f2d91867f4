-- ===== src/Login.antt =====
-- internal/auth/rate_limiter.go and `Login` of internal/auth/local_auth.go: the failures of each user name
-- and the login that reads and records them. Times are nanoseconds since an origin.
mod Examples
pub mod Limiter
pub mod Capped
use video_meeting_recorder.Common.{
  ℕ, zero, suc, ◌+◌, Bool, true, false, not, ◌&&◌, Option, none, some, List, [], ◌∷◌, ◌++◌, Text,
  length, ltb, leb, if◌then◌else◌,
}
use video_meeting_recorder.Common.TextMaps.{TextMap, get, put, remove}
use video_meeting_recorder.IpValidator.{Net, check_ip_restrictions}
use video_meeting_recorder.Errors.{
  Error, Result, ok, err, external, internal, unauthorized, user_disabled, ad_config_error,
}

-- `DecryptFailureTracker`: the times of the failures of a user name, oldest first.
abbrev pub Failures : Type 0
Failures = TextMap (List ℕ)

-- `RateLimiter`, less its tracker.
pub record RateLimiter : Type 0 where
  pub max_failures : ℕ
  pub window : ℕ

-- A key that is missing has no failures.
unfoldable pub failures_of : Text → Failures → List ℕ
unfolding get
failures_of user f = elim (get user f) [ none ↦ [] | some times ↦ times ]

unfoldable pub record_failure : ℕ → Text → Failures → Failures
unfolding failures_of put
record_failure now user f = put user (failures_of user f ++ now ∷ []) f

-- The failures after the start of the window, `now - window`.
unfoldable pub keep_recent : ℕ → ℕ → List ℕ → List ℕ
keep_recent now window [] = []
keep_recent now window (t ∷ ts) =
    let rest = keep_recent now window ts in if ltb now (t + window) then t ∷ rest else rest

unfoldable pub should_block : RateLimiter → ℕ → Text → Failures → Bool × Failures
unfolding keep_recent failures_of put
should_block r now user f =
    let recent = keep_recent now r.window (failures_of user f) in
    (leb r.max_failures (length recent), put user recent f)

unfoldable pub clear : Text → Failures → Failures
unfolding remove
clear user f = remove user f

-- What a login keeps: the failures, the times of the last logins, newest first, and the users of the
-- sessions, newest first.
pub record Auth : Type 0 where
  pub failures : Failures
  pub last_logins : List (Text × ℕ)
  pub sessions : List Text

-- The row of a user, as the login reads it.
pub record User : Type 0 where
  pub username : Text
  pub is_active : Bool
  pub allowed_ips : List Text
  pub role_ips : List (List Text)

-- A request, and what the surroundings answer to it in the order of the code: the user that the
-- database finds; whether there is a limiter; whether the password is encrypted, and the secret valid
-- or empty; the password that is decrypted; the passwords that bcrypt accepts; the package net and
-- the client's address; whether the tokens are made; the writes of the last login and of the session.
pub record Request : Type 0 where
  pub username : Text
  pub password : Text
  pub user : Result User
  pub limited : Bool
  pub encrypted : Bool
  pub secret_valid : Bool
  pub decrypted : Option Text
  pub check_password : Text → Bool
  pub net : Net
  pub client_ip : Text
  pub tokens : Bool
  pub saved : Bool
  pub created : Bool

unfoldable pub record_if : Bool → ℕ → Text → Auth → Auth
unfolding record_failure
record_if limited now user a =
    if limited then record a { failures = record_failure now user a.failures } else a

unfoldable pub clear_if : Bool → Text → Auth → Auth
unfolding clear
clear_if limited user a = if limited then record a { failures = clear user a.failures } else a

-- The limit is looked at, and the old failures are dropped.
unfoldable pub blocks : RateLimiter → ℕ → Request → Auth → Bool × Auth
unfolding should_block
blocks r now q a =
    if q.limited
    then (let (blocked, f) = should_block r now q.username a.failures in
        (blocked, record a { failures = f }))
    else (false, a)

unfoldable pub with_tokens : ℕ → Request → User → Auth → Result (Unit {0}) × Auth
with_tokens now q u a = if not q.tokens then (err internal, a) else (
  ok tt,
  record a {
    last_logins = if q.saved then (u.username, now) ∷ a.last_logins else a.last_logins;
    sessions = if q.created then u.username ∷ a.sessions else a.sessions;
  },
)

unfoldable pub if_allowed : ℕ → Request → User → Result (Unit {0}) → Auth → Result (Unit {0}) × Auth
unfolding with_tokens
if_allowed now q u (err e) a = (err e, a)
if_allowed now q u (ok allowed) a = with_tokens now q u a

-- From the status of the user on.
unfoldable pub finish : ℕ → Request → User → Auth → Result (Unit {0}) × Auth
unfolding if_allowed
finish now q u a =
    if not u.is_active
    then (err user_disabled, a)
    else if_allowed now q u (check_ip_restrictions q.net q.client_ip u.allowed_ips u.role_ips) a

unfoldable pub check : ℕ → Request → User → Text → Auth → Result (Unit {0}) × Auth
unfolding record_if clear_if finish
check now q u password a =
    if not (q.check_password password)
    then (err unauthorized, record_if q.limited now q.username a)
    else finish now q u (clear_if q.limited q.username a)

-- The password that is checked, if it can be read.
unfoldable pub password_of : Request → Option Text
password_of q = if q.encrypted then q.decrypted else some q.password

unfoldable pub with_password : ℕ → Request → User → Option Text → Auth → Result (Unit {0}) × Auth
unfolding record_if check
with_password now q u none a = (err unauthorized, record_if q.limited now q.username a)
with_password now q u (some password) a = check now q u password a

-- Up to the password: the limit and the secret.
unfoldable pub begin : RateLimiter → ℕ → Request → Auth → Result (Unit {0}) × Auth
unfolding blocks
begin r now q a =
    let (blocked, a') = blocks r now q a in
    if blocked
    then (err external, a')
    else if q.encrypted && not q.secret_valid
    then (err ad_config_error, a')
    else (ok tt, a')

unfoldable pub go_on : ℕ → Request → User → Result (Unit {0}) × Auth → Result (Unit {0}) × Auth
unfolding password_of with_password
go_on now q u (err e, a) = (err e, a)
go_on now q u (ok go, a) = with_password now q u (password_of q) a

-- A login that no other one overlaps; `asked` and `resumed` are the times of its two looks at the failures.
unfoldable pub login : RateLimiter → ℕ → ℕ → Request → Auth → Result (Unit {0}) × Auth
unfolding begin go_on
login r asked resumed q a = elim q.user [
  | err e ↦ (err e, a)
  | ok u ↦ go_on resumed q u (begin r asked q a)
]

-- Logins that overlap: what they keep, and those that have asked the limiter and not yet checked the password.
abbrev pub Logins : Type 0
Logins = Auth × List (Request × User)

-- A login asks the limiter, or the one at a place goes on with its password. The limiter and the failures are
-- locked in each of the two, and not between.
pub data Step : Type 0 where
  asks : (now : ℕ) (q : Request) → Step
  answers : (now i : ℕ) → Step

unfoldable pub entered : Request → User → List (Request × User) → Result (Unit {0}) × Auth → Logins
entered q u ws (err e, a) = (a, ws)
entered q u ws (ok go, a) = (a, (q, u) ∷ ws)

-- The one at a place, and the others.
unfoldable pub pick {ℓ} : {A : Type ℓ} → ℕ → List A → Option (A × List A)
pick i [] = none
pick zero (x ∷ xs) = some (x, xs)
pick (suc i) (x ∷ xs) = elim (pick i xs) [ none ↦ none | some (y, ys) ↦ some (y, x ∷ ys) ]

unfoldable pub resumed : ℕ → Option ((Request × User) × List (Request × User)) → Logins → Logins
unfolding with_password password_of
resumed now none l = l
resumed now (some ((q, u), rest)) (a, ws) = ((with_password now q u (password_of q) a).1, rest)

unfoldable pub step : RateLimiter → Step → Logins → Logins
unfolding begin entered pick resumed
step r (asks now q) (a, ws) = elim q.user [
  | err e ↦ (a, ws)
  | ok u ↦ entered q u ws (begin r now q a)
]
step r (answers now i) (a, ws) = resumed now (pick i ws) (a, ws)
