-- ===== src/Sm4Token/Refresh/Grace.antt =====
-- The grace period of RefreshAccessToken in internal/auth/sm4_token.go: what the cache answers while
-- other calls change the sessions.
use video_meeting_recorder.Common.{
  all, ℕ, ◌+◌, ◌<◌, ◌≡◌, ap, ◌∙◌, subst, Bool, true, false, not, some, List, [], ◌∷◌, Text, text_eq,
  text_eq_iff, ltb, Bool-cases, inl, inr, arith, lt→ltb,
}
use video_meeting_recorder.Common.TextMaps.{get}
use video_meeting_recorder.Errors.{ok}
use video_meeting_recorder.Token.{Json}
use video_meeting_recorder.Sm4Token.{
  Aead, User, Claims, TokenPair, Sm4TokenService, validate_refresh_token,
}
use video_meeting_recorder.Sm4Token.Refresh.{
  TokenCacheEntry, Tokens, Answers, create_session, revoke_session, revoke_user_sessions,
  clean_expired_sessions, run_timers, refresh_uncached, refresh_access_token,
}
use video_meeting_recorder.Sm4Token.Refresh.Cache.{
  cached_of, Holds, hit_valid, refresh_valid_other, refresh_found_other, refresh-Caches,
}

-- A call of the service, and a change of the table of the users by another. A refresh looks into the cache under
-- one lock and goes on without it: `resumes` is the rest of a refresh that found nothing in the cache, when it
-- began before the others.
pub data Call : Type 0 where
  refreshes : (now : ℕ) (answers : Answers) (token : Text) → Call
  resumes : (now : ℕ) (answers : Answers) (token : Text) (claims : Claims) → Call
  creates : (written : Bool) (now user_id : ℕ) (token : Text) (expires_at : ℕ) → Call
  revokes : (written : Bool) (token : Text) → Call
  revokes_user : (written : Bool) (user_id : ℕ) → Call
  cleans : (now : ℕ) (written : Bool) → Call
  fires : (now : ℕ) (written : Bool) → Call
  users_become : (users : List User) → Call

module _ (x : Aead) (json : Json Claims) (s : Sm4TokenService) where
  abbrev pub step : Call → Tokens → Tokens
  step (refreshes now a token) k = (refresh_access_token x json s a now token k).1
  step (resumes now a token c) k = (refresh_uncached x json s a now token c k).1
  step (creates written now user_id token due) k =
      (create_session written now user_id token due k).1
  step (revokes written token) k = (revoke_session written token k).1
  step (revokes_user written i) k = (revoke_user_sessions written i k).1
  step (cleans now written) k = (clean_expired_sessions now written k).1
  step (fires now written) k = run_timers now written k
  step (users_become us) k = record k { users = us }

  abbrev pub run : List Call → Tokens → Tokens
  run [] k = k
  run (c ∷ cs) k = run cs (step c k)

-- A refresh comes before an instant; one that has looked into the cache earlier is by another token.
unfoldable pub before : Text → ℕ → Call → Bool
before token due (refreshes now a t) = ltb now due
before token due (resumes now a t c) = not (text_eq token t)
before token due _ = true

module _ (token : Text) where
  module _ (x : Aead) (json : Json Claims) (s : Sm4TokenService) (p : TokenPair) (due : ℕ) where
    refresh_keeps :
        (a : Answers) (now : ℕ) (t : Text) (k : Tokens)
        → Holds token p due k
        → ltb now due ≡ true
        → Holds token p due (refresh_access_token x json s a now t k).1
    unfolding refresh_access_token
    refresh_keeps a now t k h l = elim (Bool-cases (text_eq token t)) [
      | inl e ↦
          let same : token ≡ t = (text_eq_iff token t).0 e in
          subst (λ t. Holds token p due (refresh_access_token x json s a now t k).1) same
            (ap (cached_of token)
                (hit_valid token x json s p due a now k (validate_refresh_token x json now token) h
                  l).0
              ∙ h)
      | inr e ↦
          refresh_valid_other token s now t e x json a (validate_refresh_token x json now t) k ∙ h
    ]

    step_keeps :
        (c : Call) (k : Tokens)
        → before token due c ≡ true
        → Holds token p due k
        → Holds token p due (step x json s c k)
    unfolding before refresh_uncached create_session revoke_session revoke_user_sessions
        clean_expired_sessions run_timers
    step_keeps (refreshes now a t) k l h = refresh_keeps a now t k h l
    step_keeps (resumes now a t c) k l h =
        refresh_found_other token s now t (ground (arith, l)) x json a c _ k ∙ h
    step_keeps (creates written now i t e) k l h = ground arith
    step_keeps (revokes written t) k l h = ground arith
    step_keeps (revokes_user written i) k l h = ground arith
    step_keeps (cleans now written) k l h = ground arith
    step_keeps (fires now written) k l h = h
    step_keeps (users_become us) k l h = h

    run_keeps :
        (cs : List Call) (k : Tokens)
        → all (before token due) cs ≡ true
        → Holds token p due k
        → Holds token p due (run x json s cs k)
    unfolding all
    run_keeps [] k l h = h
    run_keeps (c ∷ cs) k l h =
        run_keeps cs (step x json s c k) (ground arith) (step_keeps c k (ground arith) h)

-- A refresh that makes a new pair of tokens makes it for the whole grace period: whatever refreshes,
-- logins, revocations, clean-ups, timers and changes of the users come meanwhile, to refresh by the same
-- token again, while it is valid, gives the same pair and changes nothing. Refreshes may overlap, but no
-- other refresh by the same token has found nothing in the cache and not yet ended when the pair is made.
pub refresh_repeats :
    (x : Aead) (json : Json Claims) (s : Sm4TokenService) (a a' : Answers) (now later : ℕ)
    (token : Text) (k : Tokens) (cs : List Call) (p : TokenPair) (c : Claims)
    → ((e : TokenCacheEntry) → get token k.token_cache ≡ some e → ltb now e.expires_at ≡ false)
    → (refresh_access_token x json s a now token k).0 ≡ ok p
    → all (before token (now + s.grace_period)) cs ≡ true
    → later < now + s.grace_period
    → validate_refresh_token x json later token ≡ ok c
    → let k' = run x json s cs (refresh_access_token x json s a now token k).1 in
      refresh_access_token x json s a' later token k' ≡ (ok p, k')
unfolding refresh_access_token
refresh_repeats x json s a a' now later token k cs p c old q l t v =
    let due = now + s.grace_period in
    let k₁ = (refresh_access_token x json s a now token k).1 in
    let held : Holds token p due k₁ =
      refresh-Caches token s a now p x json (validate_refresh_token x json now token) k old q in
    let k' = run x json s cs k₁ in
    let kept : Holds token p due k' = run_keeps token x json s p due cs k₁ l held in
    (hit_valid token x json s p due a' later k' (validate_refresh_token x json later token) kept
        (lt→ltb _ _ t)).1
      c v
