-- ===== src/Sm4Token/Refresh.antt =====
-- The sessions of internal/auth/sm4_token.go (internal/models/session.go) and its cache of token pairs:
-- refresh, revocation and clean-up.
pub mod Cache
pub mod Grace
pub mod Replay
pub mod Detect
pub mod Unrecorded
use video_meeting_recorder.Common.{
  ℕ, ◌+◌, Bool, true, false, not, ◌&&◌, Option, none, some, List, [], ◌∷◌, ◌++◌, Text, text_eq, ltb,
  ◌==◌, if◌then◌else◌,
}
use video_meeting_recorder.Common.TextMaps.{TextMap, get, put, remove}
use video_meeting_recorder.Errors.{
  Result, ok, err, external, user_not_found, user_disabled, token_replayed,
}
use video_meeting_recorder.Token.{Json}
use video_meeting_recorder.Sm4Token.{
  Aead, User, Claims, TokenPair, Sm4TokenService, generate_token_pair, validate_refresh_token,
}

pub record TokenCacheEntry : Type 0 where
  pub token_pair : TokenPair
  pub expires_at : ℕ
  pub refresh_token : Text

-- The address and the agent of the client are left out.
pub record Session : Type 0 where
  pub token : Text
  pub user_id : ℕ
  pub created_at : ℕ
  pub expires_at : ℕ
  pub is_active : Bool
  pub last_used_at : Option ℕ

-- The cache and the tables sessions and users. `pending` has the revocations that are waiting for the
-- end of the grace period, with the time of it.
pub record Tokens : Type 0 where
  pub token_cache : TextMap TokenCacheEntry
  pub sessions : List Session
  pub users : List User
  pub pending : List (Text × ℕ)

-- Whether the database answers: the two queries of sessions, that of the user, the writes of the last
-- use and of the revocation; and the nonces that are drawn.
pub record Answers : Type 0 where
  pub session_read : Bool
  pub recent_read : Bool
  pub user_read : Bool
  pub last_used_written : Bool
  pub revoked : Bool
  pub nonces : Option Text × Option Text

unfoldable pub find_session : Text → List Session → Option Session
find_session t [] = none
find_session t (s ∷ ss) = let rest = find_session t ss in if text_eq s.token t then some s else rest

unfoldable pub find_user : ℕ → List User → Option User
find_user i [] = none
find_user i (u ∷ us) = let rest = find_user i us in if u.id == i then some u else rest

-- A session of the user that is younger than the grace period.
unfoldable pub has_recent : ℕ → ℕ → ℕ → List Session → Bool
has_recent now grace i [] = false
has_recent now grace i (s ∷ ss) =
    let rest = has_recent now grace i ss in
    if (s.user_id == i) && ltb now (s.created_at + grace) then true else rest

unfoldable pub deactivate : Session → Session
deactivate s = record s { is_active = false }

unfoldable pub touch : ℕ → Text → List Session → List Session
touch now t [] = []
touch now t (s ∷ ss) =
    let rest = touch now t ss in
    if text_eq s.token t then record s { last_used_at = some now } ∷ rest else s ∷ rest

unfoldable pub deactivate_token : Text → List Session → List Session
unfolding deactivate
deactivate_token t [] = []
deactivate_token t (s ∷ ss) =
    let rest = deactivate_token t ss in if text_eq s.token t then deactivate s ∷ rest else s ∷ rest

unfoldable pub deactivate_user : ℕ → List Session → List Session
unfolding deactivate
deactivate_user i [] = []
deactivate_user i (s ∷ ss) =
    let rest = deactivate_user i ss in
    if (s.user_id == i) && s.is_active then deactivate s ∷ rest else s ∷ rest

unfoldable pub drop_expired : ℕ → List Session → List Session
drop_expired now [] = []
drop_expired now (s ∷ ss) =
    let rest = drop_expired now ss in if ltb s.expires_at now then rest else s ∷ rest

unfoldable pub has_session : Text → List Session → Bool
unfolding find_session
has_session t ss = elim (find_session t ss) [ none ↦ false | some s ↦ true ]

-- The column token is unique.
unfoldable pub create_session : Bool → ℕ → ℕ → Text → ℕ → Tokens → Result (Unit {0}) × Tokens
unfolding has_session
create_session written now user_id token expires_at k =
    if not written
    then (err external, k)
    else if has_session token k.sessions
    then (err external, k)
    else (
      ok tt,
      record k {
        sessions =
            k.sessions
            ++ record {
              token = token;
              user_id = user_id;
              created_at = now;
              expires_at = expires_at;
              is_active = true;
              last_used_at = none;
            }
              ∷ [];
      },
    )

unfoldable pub revoke_session : Bool → Text → Tokens → Result (Unit {0}) × Tokens
unfolding deactivate_token
revoke_session written token k =
    if written
    then (ok tt, record k { sessions = deactivate_token token k.sessions })
    else (err external, k)

unfoldable pub revoke_user_sessions : Bool → ℕ → Tokens → Result (Unit {0}) × Tokens
unfolding deactivate_user
revoke_user_sessions written user_id k =
    if written
    then (ok tt, record k { sessions = deactivate_user user_id k.sessions })
    else (err external, k)

unfoldable pub clean_expired_sessions : ℕ → Bool → Tokens → Result (Unit {0}) × Tokens
unfolding drop_expired
clean_expired_sessions now written k =
    if written
    then (ok tt, record k { sessions = drop_expired now k.sessions })
    else (err external, k)

-- The timer of a refresh, when it has run down at `now`; `written` is whether the database is.
unfoldable pub revoke_later : ℕ → Bool → List (Text × ℕ) → List Session → List Session
unfolding deactivate_token
revoke_later now written [] ss = ss
revoke_later now written ((t, due) ∷ ps) ss =
    let rest = revoke_later now written ps in
    if not (ltb now due) && written then rest (deactivate_token t ss) else rest ss

unfoldable pub not_due : ℕ → List (Text × ℕ) → List (Text × ℕ)
not_due now [] = []
not_due now (p ∷ ps) = let rest = not_due now ps in if ltb now p.1 then p ∷ rest else rest

unfoldable pub run_timers : ℕ → Bool → Tokens → Tokens
unfolding revoke_later not_due
run_timers now written k = record k {
  sessions = revoke_later now written k.pending k.sessions;
  pending = not_due now k.pending;
}

unfoldable pub answered {ℓ} : {A : Type ℓ} → Bool → Option A → Option A
answered b o = if b then o else none

unfoldable pub cache : Sm4TokenService → ℕ → Text → TokenPair → Tokens → Tokens
unfolding put
cache s now token pair k = record k {
  token_cache =
      put token
        (record { token_pair = pair; expires_at = now + s.grace_period; refresh_token = token })
        k.token_cache;
}

-- The last use, the cache and the timer of a first refresh.
unfoldable pub used_first : Sm4TokenService → Answers → ℕ → Text → TokenPair → Tokens → Tokens
unfolding touch cache
used_first s a now token pair k =
    let kept = cache s now token pair k in
    record kept {
      sessions = if a.last_used_written then touch now token k.sessions else k.sessions;
      pending = (token, now + s.grace_period) ∷ k.pending;
    }

unfoldable pub replayed : Answers → Claims → Tokens → Result TokenPair × Tokens
unfolding revoke_user_sessions
replayed a c k = (err token_replayed, (revoke_user_sessions a.revoked c.user_id k).1)

unfoldable pub finish_again :
    Sm4TokenService → ℕ → Text → Result TokenPair → Tokens → Result TokenPair × Tokens
unfolding cache
finish_again s now token (err e) k = (err e, k)
finish_again s now token (ok pair) k = (ok pair, cache s now token pair k)

unfoldable pub finish_first :
    Sm4TokenService → Answers → ℕ → Text → Result TokenPair → Tokens → Result TokenPair × Tokens
unfolding used_first
finish_first s a now token (err e) k = (err e, k)
finish_first s a now token (ok pair) k = (ok pair, used_first s a now token pair k)

unfoldable pub used_within : Sm4TokenService → ℕ → Option ℕ → Bool
used_within s now none = false
used_within s now (some t) = ltb now (t + s.grace_period)

module _ (x : Aead) (json : Json Claims) (s : Sm4TokenService) (a : Answers) (now : ℕ) where
  unfoldable pub again_for : Text → Option User → Tokens → Result TokenPair × Tokens
  unfolding finish_again generate_token_pair
  again_for token none k = (err user_not_found, k)
  again_for token (some u) k =
      finish_again s now token (generate_token_pair x json s now a.nonces u) k

  unfoldable pub first_for : Text → Option User → Tokens → Result TokenPair × Tokens
  unfolding finish_first generate_token_pair
  first_for token none k = (err user_not_found, k)
  first_for token (some u) k =
      if not u.is_active
      then (err user_disabled, k)
      else finish_first s a now token (generate_token_pair x json s now a.nonces u) k

  unfoldable pub first_use : Text → Claims → Tokens → Result TokenPair × Tokens
  unfolding first_for find_user answered
  first_use token c k = first_for token (answered a.user_read (find_user c.user_id k.users)) k

  -- The session is not active any more.
  unfoldable pub used_before : Text → Claims → Session → Tokens → Result TokenPair × Tokens
  unfolding again_for replayed used_within has_recent find_user answered
  used_before token c session k =
      if used_within s now session.last_used_at
        && a.recent_read
        && has_recent now s.grace_period c.user_id k.sessions
      then again_for token (answered a.user_read (find_user c.user_id k.users)) k
      else replayed a c k

  unfoldable pub refresh_found : Text → Claims → Option Session → Tokens → Result TokenPair × Tokens
  unfolding first_use used_before
  refresh_found token c none k = first_use token c k
  refresh_found token c (some session) k =
      if session.is_active then first_use token c k else used_before token c session k

  unfoldable pub refresh_uncached : Text → Claims → Tokens → Result TokenPair × Tokens
  unfolding refresh_found find_session answered
  refresh_uncached token c k =
      refresh_found token c (answered a.session_read (find_session token k.sessions)) k

  unfoldable pub refresh_cached :
      Text → Claims → Option TokenCacheEntry → Tokens → Result TokenPair × Tokens
  unfolding refresh_uncached remove
  refresh_cached token c none k = refresh_uncached token c k
  refresh_cached token c (some entry) k =
      if ltb now entry.expires_at
      then (ok entry.token_pair, k)
      else refresh_uncached token c (record k { token_cache = remove token k.token_cache })

  unfoldable pub refresh_valid : Text → Result Claims → Tokens → Result TokenPair × Tokens
  unfolding refresh_cached get
  refresh_valid token (err e) k = (err e, k)
  refresh_valid token (ok c) k = refresh_cached token c (get token k.token_cache) k

  -- RefreshAccessToken: its context is never done. The code reads the cache under one lock and writes it
  -- under another. The call is one step here; Refresh/Grace has its two parts.
  unfoldable pub refresh_access_token : Text → Tokens → Result TokenPair × Tokens
  unfolding refresh_valid validate_refresh_token
  refresh_access_token token k = refresh_valid token (validate_refresh_token x json now token) k
