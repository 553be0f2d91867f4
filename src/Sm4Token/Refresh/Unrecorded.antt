-- ===== src/Sm4Token/Refresh/Unrecorded.antt =====
-- The refresh tokens without a session in internal/auth/sm4_token.go: those that a refresh has made, since
-- only a login calls CreateSession.
use video_meeting_recorder.Common.{
  ℕ, ◌+◌, ◌≤◌, ◌≡◌, refl, ap, sym, ◌∙◌, Bool, true, false, not, ◌&&◌, none, some, List, [], ◌∷◌,
  Text, ltb, Bool-cases, inl, inr, arith,
}
use video_meeting_recorder.Common.TextMaps.{get}
use video_meeting_recorder.Errors.{ok}
use video_meeting_recorder.Token.{Json}
use video_meeting_recorder.Sm4Token.{
  Aead, User, Claims, TokenPair, Sm4TokenService, generate_token_pair, validate_refresh_token,
}
use video_meeting_recorder.Sm4Token.Refresh.{
  TokenCacheEntry, Session, Tokens, Answers, find_session, find_user, answered, deactivate, touch,
  deactivate_user, revoke_user_sessions, revoke_later, run_timers, used_first, finish_first,
  first_for, first_use, refresh_found, refresh_uncached, refresh_valid, refresh_access_token,
}
use video_meeting_recorder.Sm4Token.Refresh.Cache.{Holds, refresh-Caches}
use video_meeting_recorder.Sm4Token.Refresh.Replay.{past_cache}
use video_meeting_recorder.Sm4Token.Refresh.Detect.{find-deactivate, first_for_ok, held_expired}

touch-none :
    (now : ℕ) (t : Text) (ss : List Session)
    → find_session t ss ≡ none
    → find_session t (touch now t ss) ≡ none
unfolding find_session touch
touch-none now t [] h = refl
touch-none now t (s ∷ ss) h = ground (arith, touch-none now t ss)

deactivate_user-none :
    (i : ℕ) (t : Text) (ss : List Session)
    → find_session t ss ≡ none
    → find_session t (deactivate_user i ss) ≡ none
unfolding find_session deactivate_user deactivate
deactivate_user-none i t [] h = refl
deactivate_user-none i t (s ∷ ss) h = ground (arith, deactivate_user-none i t ss)

revoke_later-none :
    (t : Text) (now : ℕ) (written : Bool) (ps : List (Text × ℕ)) (ss : List Session)
    → find_session t ss ≡ none
    → find_session t (revoke_later now written ps ss) ≡ none
unfolding revoke_later
revoke_later-none t now written [] ss h = h
revoke_later-none t now written ((t', due) ∷ ps) ss h =
    elim (Bool-cases (not (ltb now due) && written)) [
      | inl e ↦
          rw (e, revoke_later)
            (revoke_later-none t now written ps _ (find-deactivate t t' ss ∙ rw h refl))
      | inr e ↦ rw (e, revoke_later) (revoke_later-none t now written ps ss h)
    ]

module _ (x : Aead) (json : Json Claims) (s : Sm4TokenService) (a : Answers) (now : ℕ)
    (token : Text) where
  uncached_none :
      (c : Claims) (k : Tokens)
      → find_session token k.sessions ≡ none
      → refresh_uncached x json s a now token c k
        ≡ first_for x json s a now token (answered a.user_read (find_user c.user_id k.users)) k
  unfolding refresh_uncached refresh_found first_use answered
  uncached_none c k h = elim (Bool-cases a.session_read) [
    | inl e ↦ rw (e, h, refresh_uncached, refresh_found, first_use) refl
    | inr e ↦ rw (e, refresh_uncached, refresh_found, first_use) refl
  ]

  refresh_none :
      (c : Claims) (k : Tokens)
      → validate_refresh_token x json now token ≡ ok c
      → ((e : TokenCacheEntry) → get token k.token_cache ≡ some e → ltb now e.expires_at ≡ false)
      → find_session token k.sessions ≡ none
      → (k' : Tokens) × (k'.sessions ≡ k.sessions)
        × (k'.users ≡ k.users)
        × (refresh_access_token x json s a now token k
            ≡ first_for x json s a now token
                (answered a.user_read (find_user c.user_id k.users))
                k')
  unfolding refresh_access_token refresh_valid
  refresh_none c k v old h =
      let (k₁, past, same, users, w) =
        past_cache x json s a now token c (get token k.token_cache) k old in
      (
        k₁,
        same,
        users,
        ap (λ r. refresh_valid x json s a now token r k) v
            ∙ past
            ∙ uncached_none c k₁ (ap (find_session token) same ∙ h)
            ∙ ap
                (λ us.
                  first_for x json s a now token (answered a.user_read (find_user c.user_id us)) k₁)
                users,
      )

  first_for_active :
      (u : User) (p : TokenPair) (k : Tokens)
      → u.is_active ≡ true
      → generate_token_pair x json s now a.nonces u ≡ ok p
      → (first_for x json s a now token (some u) k).0 ≡ ok p
  unfolding first_for finish_first
  first_for_active u p k live g = ground (arith, live, g)

  used_first-none :
      (p : TokenPair) (k : Tokens)
      → find_session token k.sessions ≡ none
      → find_session token (used_first s a now token p k).sessions ≡ none
  unfolding used_first
  used_first-none p k h = elim (Bool-cases a.last_used_written) [
    | inl e ↦ rw (e, used_first) (touch-none now token k.sessions h)
    | inr e ↦ rw (e, used_first) h
  ]

-- A refresh token without a session is refreshed again and again: after a first refresh by it, the end of
-- the grace period with its timers, and a revocation of all the sessions of any user, the same token,
-- while it is valid and its user is active, gives a new pair, and is not refused as replayed.
pub unrecorded_again :
    (x : Aead) (json : Json Claims) (s : Sm4TokenService) (a a' : Answers) (now later i : ℕ)
    (token : Text) (c c' : Claims) (u : User) (k : Tokens) (p p' : TokenPair)
    → validate_refresh_token x json now token ≡ ok c
    → ((e : TokenCacheEntry) → get token k.token_cache ≡ some e → ltb now e.expires_at ≡ false)
    → find_session token k.sessions ≡ none
    → (refresh_access_token x json s a now token k).0 ≡ ok p
    → now + s.grace_period ≤ later
    → validate_refresh_token x json later token ≡ ok c'
    → a'.user_read ≡ true
    → find_user c'.user_id k.users ≡ some u
    → u.is_active ≡ true
    → generate_token_pair x json s later a'.nonces u ≡ ok p'
    → let k' = run_timers later true (refresh_access_token x json s a now token k).1 in
      (refresh_access_token x json s a' later token (revoke_user_sessions true i k').1).0 ≡ ok p'
unfolding run_timers revoke_user_sessions answered refresh_valid refresh_access_token
unrecorded_again x json s a a' now later i token c c' u k p p' v old h q le v' read found live g =
    let r₁ = refresh_access_token x json s a now token k in
    let k₂ = (revoke_user_sessions true i (run_timers later true r₁.1)).1 in
    let (k₁, same, users, ends) = refresh_none x json s a now token c k v old h in
    let state : r₁.1 ≡ used_first s a now token p k₁ =
      ap (λ r. r.1) ends
      ∙ first_for_ok s a now token x json _ k₁ p (ap (λ r. r.0) (sym ends) ∙ q) in
    let held : Holds token p (now + s.grace_period) r₁.1 =
      refresh-Caches token s a now p x json (validate_refresh_token x json now token) k old q in
    let none₁ : find_session token r₁.1.sessions ≡ none =
      ap (λ y. find_session token y.sessions) state
      ∙ used_first-none x json s a now token p k₁ (ap (find_session token) same ∙ h) in
    let none₂ : find_session token k₂.sessions ≡ none =
      deactivate_user-none i token _
        (revoke_later-none token later true r₁.1.pending r₁.1.sessions none₁) in
    let (k₃, same', users', ends') =
      refresh_none x json s a' later token c' k₂ v'
        (held_expired token p (now + s.grace_period) later r₁.1 held le) none₂ in
    let user : answered a'.user_read (find_user c'.user_id k₂.users) ≡ some u =
      ap (λ y. answered y (find_user c'.user_id k₂.users)) read
      ∙ (ap (λ y. find_user c'.user_id y.users) state
          ∙ (ap (find_user c'.user_id) users ∙ found)) in
    ap (λ r. r.0) ends'
    ∙ ap (λ o. (first_for x json s a' later token o k₃).0) user
    ∙ first_for_active x json s a' later token u p' k₃ live g
