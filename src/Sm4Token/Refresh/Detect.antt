-- ===== src/Sm4Token/Refresh/Detect.antt =====
-- The whole course of a refresh token in internal/auth/sm4_token.go: its first use, the timer that ends its
-- session, and its replay.
use video_meeting_recorder.Common.{
  ℕ, ◌+◌, ◌≤◌, ◌≡◌, refl, ap, sym, ◌∙◌, subst, Bool, true, false, not, ◌&&◌, Option, none, some,
  List, [], ◌∷◌, Text, text_eq, ltb, if◌then◌else◌, Bool-cases, inl, inr, arith,
}
use video_meeting_recorder.Common.TextMaps.{get}
use video_meeting_recorder.Errors.{Result, ok, err, token_replayed}
use video_meeting_recorder.Token.{Json}
use video_meeting_recorder.Sm4Token.{
  Aead, User, Claims, TokenPair, Sm4TokenService, validate_refresh_token,
}
use video_meeting_recorder.Sm4Token.Refresh.{
  TokenCacheEntry, Session, Tokens, Answers, find_session, deactivate, touch, deactivate_token,
  used_within, revoke_later, run_timers, cache, used_first, finish_first, first_for, first_use,
  refresh_found, refresh_valid, refresh_access_token,
}
use video_meeting_recorder.Sm4Token.Refresh.Cache.{Holds, refresh-Caches}
use video_meeting_recorder.Sm4Token.Refresh.Replay.{
  signed_out, others, past_cache, uncached_found, replay_signs_out,
}

unfoldable pub if_token : Text → Session → Session
if_token t s = if text_eq s.token t then deactivate s else s

pub find-deactivate :
    (t t' : Text) (ss : List Session)
    → find_session t (deactivate_token t' ss)
      ≡ elim (find_session t ss) [ none ↦ none | some s ↦ some (if_token t' s) ]
unfolding find_session deactivate_token deactivate if_token
find-deactivate t t' [] = refl
find-deactivate t t' (s ∷ ss) = ground (arith, find-deactivate t t' ss)

find-touch :
    (now : ℕ) (t : Text) (ss : List Session) (s : Session)
    → find_session t ss ≡ some s
    → find_session t (touch now t ss) ≡ some (record s { last_used_at = some now })
unfolding find_session touch
find-touch now t [] s h = absurd (ground arith)
find-touch now t (r ∷ ss) s h = ground (arith, find-touch now t ss s)

find_token :
    (t : Text) (ss : List Session) (s : Session)
    → find_session t ss ≡ some s
    → text_eq s.token t ≡ true
unfolding find_session
find_token t [] s h = absurd (ground arith)
find_token t (r ∷ ss) s h = ground (arith, find_token t ss s)

-- The session of a token is found, inactive, with a last use.
Spent : Text → Option ℕ → List Session → Type 0
Spent t l ss =
    (s : Session) × (find_session t ss ≡ some s) × (s.is_active ≡ false) × (s.last_used_at ≡ l)

if_token-Spent :
    (t' : Text) (l : Option ℕ) (s : Session)
    → s.is_active ≡ false
    → s.last_used_at ≡ l
    → ((if_token t' s).is_active ≡ false) × ((if_token t' s).last_used_at ≡ l)
unfolding if_token deactivate
if_token-Spent t' l s d u = ground arith

deactivate-Spent :
    (t t' : Text) (l : Option ℕ) (ss : List Session)
    → Spent t l ss
    → Spent t l (deactivate_token t' ss)
unfolding Spent
deactivate-Spent t t' l ss (s, f, d, u) =
    let (d', u') = if_token-Spent t' l s d u in
    (if_token t' s, find-deactivate t t' ss ∙ rw f refl, d', u')

revoke_later-Spent :
    (t : Text) (l : Option ℕ) (now : ℕ) (written : Bool) (ps : List (Text × ℕ)) (ss : List Session)
    → Spent t l ss
    → Spent t l (revoke_later now written ps ss)
unfolding revoke_later
revoke_later-Spent t l now written [] ss h = h
revoke_later-Spent t l now written ((t', due) ∷ ps) ss h =
    elim (Bool-cases (not (ltb now due) && written)) [
      | inl e ↦
          rw (e, revoke_later)
            (revoke_later-Spent t l now written ps _ (deactivate-Spent t t' l ss h))
      | inr e ↦ rw (e, revoke_later) (revoke_later-Spent t l now written ps ss h)
    ]

spend :
    (t : Text) (l : Option ℕ) (ss : List Session) (s : Session)
    → find_session t ss ≡ some s
    → s.last_used_at ≡ l
    → Spent t l (deactivate_token t ss)
unfolding Spent if_token deactivate
spend t l ss s f u =
    let e = find_token t ss s f in
    (if_token t s, find-deactivate t t ss ∙ rw f refl, ground arith, ground arith)

module _ (s : Sm4TokenService) (a : Answers) (now : ℕ) (token : Text) where
  finish_first_ok :
      (r : Result TokenPair) (k : Tokens) (p : TokenPair)
      → (finish_first s a now token r k).0 ≡ ok p
      → (finish_first s a now token r k).1 ≡ used_first s a now token p k
  unfolding finish_first
  finish_first_ok (err e) k p h = absurd (ground arith)
  finish_first_ok (ok q) k p h =
      let same : q ≡ p = cc in ap (λ y. used_first s a now token y k) same

  module _ (x : Aead) (json : Json Claims) where
    pub first_for_ok :
        (o : Option User) (k : Tokens) (p : TokenPair)
        → (first_for x json s a now token o k).0 ≡ ok p
        → (first_for x json s a now token o k).1 ≡ used_first s a now token p k
    unfolding first_for
    first_for_ok none k p = λ h. absurd (ground arith)
    first_for_ok (some u) k p = elim (Bool-cases u.is_active) [
      | inl e ↦ rw (e, first_for) (finish_first_ok _ k p)
      | inr e ↦ rw (e, first_for) (λ h. absurd (ground arith))
    ]

    found_active :
        (c : Claims) (session : Session) (k : Tokens) (p : TokenPair)
        → session.is_active ≡ true
        → (refresh_found x json s a now token c (some session) k).0 ≡ ok p
        → (refresh_found x json s a now token c (some session) k).1 ≡ used_first s a now token p k
    unfolding refresh_found first_use
    found_active c session k p live = rw (live, refresh_found) (first_for_ok _ k p)

    -- After a first use, and the timers of the end of its grace period, the session of the token is spent.
    used_first-Spent :
        (later : ℕ) (session : Session) (k : Tokens) (p : TokenPair)
        → find_session token k.sessions ≡ some session
        → a.last_used_written ≡ true
        → now + s.grace_period ≤ later
        → Spent token (some now) (run_timers later true (used_first s a now token p k)).sessions
    unfolding run_timers used_first cache revoke_later
    used_first-Spent later session k p found written le =
        let due : (not (ltb later (now + s.grace_period)) && true) ≡ true = ground arith in
        rw (written, revoke_later, due)
          (revoke_later-Spent token (some now) later true k.pending _ (
            spend token (some now) (touch now token k.sessions)
              (record session { last_used_at = some now })
              (find-touch now token k.sessions session found) refl))

    first_use_lem :
        (c : Claims) (session : Session) (k : Tokens) (p : TokenPair)
        → validate_refresh_token x json now token ≡ ok c
        → ((e : TokenCacheEntry) → get token k.token_cache ≡ some e → ltb now e.expires_at ≡ false)
        → a.session_read ≡ true
        → find_session token k.sessions ≡ some session
        → session.is_active ≡ true
        → (refresh_access_token x json s a now token k).0 ≡ ok p
        → (k' : Tokens) × (k'.sessions ≡ k.sessions)
          × ((refresh_access_token x json s a now token k).1 ≡ used_first s a now token p k')
    unfolding refresh_access_token refresh_valid
    first_use_lem c session k p v old read found live q =
        let (k₁, past, same, u, w) =
          past_cache x json s a now token c (get token k.token_cache) k old in
        let ends =
          ap (λ r. refresh_valid x json s a now token r k) v
          ∙ past
          ∙ uncached_found x json s a now token c (some session) k₁ read
              (ap (find_session token) same ∙ found) in
        (
          k₁,
          same,
          ap (λ r. r.1) ends ∙ found_active c session k₁ p live (ap (λ r. r.0) (sym ends) ∙ q),
        )

pub held_expired :
    (token : Text) (p : TokenPair) (due later : ℕ) (k : Tokens)
    → Holds token p due k
    → due ≤ later
    → (e : TokenCacheEntry) → get token (run_timers later true k).token_cache ≡ some e
    → ltb later e.expires_at ≡ false
unfolding run_timers
held_expired token p due later k held le e h =
    let same : record { token_pair = p; expires_at = due; refresh_token = token } ≡ e = cc in
    let at : due ≡ e.expires_at = ap TokenCacheEntry.expires_at same in ground arith

-- A refresh token with an active session that has been used once is refused as replayed from the end of the
-- grace period on, once the timers have run: a first refresh makes a pair, and the same token at that time
-- or later, if it is still valid, is refused and signs its user out of every session. The database
-- answers the queries of the session and the writes, and no entry of the cache is fresh at the start.
pub replay_detected :
    (x : Aead) (json : Json Claims) (s : Sm4TokenService) (a a' : Answers) (now later : ℕ)
    (token : Text) (c c' : Claims) (session : Session) (k : Tokens) (p : TokenPair)
    → validate_refresh_token x json now token ≡ ok c
    → ((e : TokenCacheEntry) → get token k.token_cache ≡ some e → ltb now e.expires_at ≡ false)
    → (a.session_read ≡ true) × (a'.session_read ≡ true)
    → (a.last_used_written ≡ true) × (a'.revoked ≡ true)
    → find_session token k.sessions ≡ some session
    → session.is_active ≡ true
    → (refresh_access_token x json s a now token k).0 ≡ ok p
    → now + s.grace_period ≤ later
    → validate_refresh_token x json later token ≡ ok c'
    → let k' = run_timers later true (refresh_access_token x json s a now token k).1 in
      let (r, k'') = refresh_access_token x json s a' later token k' in
      (r ≡ err token_replayed)
      × (signed_out c'.user_id k''.sessions ≡ true)
      × (others c'.user_id k''.sessions ≡ others c'.user_id k'.sessions)
unfolding refresh_access_token Spent used_within
replay_detected x json s a a' now later token c c' session k p v old (read, read')
      (written, revoked) found live q le v' =
    let r₁ = refresh_access_token x json s a now token k in
    let k' = run_timers later true r₁.1 in
    let held : Holds token p (now + s.grace_period) r₁.1 =
      refresh-Caches token s a now p x json (validate_refresh_token x json now token) k old q in
    let (k₁, same, ends) =
      first_use_lem s a now token x json c session k p v old read found live q in
    let spent : Spent token (some now) k'.sessions =
      subst (λ y. Spent token (some now) (run_timers later true y).sessions) (sym ends)
        (used_first-Spent s a now token x json later session k₁ p
          (ap (find_session token) same ∙ found) written le) in
    let (session', f, dead, last) = spent in
    replay_signs_out x json s a' later token c' session' k' v'
      (held_expired token p (now + s.grace_period) later r₁.1 held le) read' f dead
      (ap (used_within s later) last ∙ ground arith) revoked
