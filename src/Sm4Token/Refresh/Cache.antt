-- ===== src/Sm4Token/Refresh/Cache.antt =====
-- What RefreshAccessToken of internal/auth/sm4_token.go does to the entry of a token in the cache.
use video_meeting_recorder.Common.{
  ℕ, ◌+◌, ◌≡◌, refl, ◌∙◌, subst, true, false, ◌&&◌, Option, none, some, Text, text_eq, text_eq_refl,
  ltb, Bool-cases, inl, inr, arith,
}
use video_meeting_recorder.Common.TextMaps.{get, get-put, get-remove}
use video_meeting_recorder.Errors.{Result, ok, err}
use video_meeting_recorder.Token.{Json}
use video_meeting_recorder.Sm4Token.{Aead, User, Claims, TokenPair, Sm4TokenService}
use video_meeting_recorder.Sm4Token.Refresh.{
  TokenCacheEntry, Session, Tokens, Answers, revoke_user_sessions, cache, used_first, used_within,
  has_recent, replayed, finish_again, finish_first, again_for, first_for, first_use, used_before,
  refresh_found, refresh_uncached, refresh_cached, refresh_valid,
}

module _ (token : Text) where
  abbrev pub cached_of : Tokens → Option TokenCacheEntry
  cached_of k = get token k.token_cache

  module _ (s : Sm4TokenService) (now : ℕ) (t : Text) (other : text_eq token t ≡ false) where
    cache_other : (p : TokenPair) (k : Tokens) → cached_of (cache s now t p k) ≡ cached_of k
    unfolding cache
    cache_other p k = get-put token t _ k.token_cache ∙ rw other refl

    used_first_other :
        (a : Answers) (p : TokenPair) (k : Tokens)
        → cached_of (used_first s a now t p k) ≡ cached_of k
    unfolding used_first
    used_first_other a p k = cache_other p k

    module _ (x : Aead) (json : Json Claims) (a : Answers) where
      finish_again_other :
          (r : Result TokenPair) (k : Tokens) → cached_of (finish_again s now t r k).1 ≡ cached_of k
      unfolding finish_again
      finish_again_other (err e) k = refl
      finish_again_other (ok p) k = cache_other p k

      finish_first_other :
          (r : Result TokenPair) (k : Tokens)
          → cached_of (finish_first s a now t r k).1 ≡ cached_of k
      unfolding finish_first
      finish_first_other (err e) k = refl
      finish_first_other (ok p) k = used_first_other a p k

      again_for_other :
          (o : Option User) (k : Tokens)
          → cached_of (again_for x json s a now t o k).1 ≡ cached_of k
      unfolding again_for
      again_for_other none k = refl
      again_for_other (some u) k = finish_again_other _ k

      first_for_other :
          (o : Option User) (k : Tokens)
          → cached_of (first_for x json s a now t o k).1 ≡ cached_of k
      unfolding first_for
      first_for_other none k = refl
      first_for_other (some u) k = elim (Bool-cases u.is_active) [
        | inl e ↦ rw (e, first_for) (finish_first_other _ k)
        | inr e ↦ rw (e, first_for) refl
      ]

      replayed_other : (c : Claims) (k : Tokens) → cached_of (replayed a c k).1 ≡ cached_of k
      unfolding replayed revoke_user_sessions
      replayed_other c k = elim (Bool-cases a.revoked) [
        | inl e ↦ rw (e, replayed, revoke_user_sessions) refl
        | inr e ↦ rw (e, replayed, revoke_user_sessions) refl
      ]

      used_before_other :
          (c : Claims) (session : Session) (k : Tokens)
          → cached_of (used_before x json s a now t c session k).1 ≡ cached_of k
      unfolding used_before
      used_before_other c session k =
          elim (Bool-cases (
            used_within s now session.last_used_at
            && a.recent_read
            && has_recent now s.grace_period c.user_id k.sessions)) [
              | inl e ↦ rw (e, used_before) (again_for_other _ k)
              | inr e ↦ rw (e, used_before) (replayed_other c k)
            ]

      pub refresh_found_other :
          (c : Claims) (o : Option Session) (k : Tokens)
          → cached_of (refresh_found x json s a now t c o k).1 ≡ cached_of k
      unfolding refresh_found first_use
      refresh_found_other c none k = first_for_other _ k
      refresh_found_other c (some session) k = elim (Bool-cases session.is_active) [
        | inl e ↦ rw (e, refresh_found) (first_for_other _ k)
        | inr e ↦ rw (e, refresh_found) (used_before_other c session k)
      ]

      refresh_cached_other :
          (c : Claims) (o : Option TokenCacheEntry) (k : Tokens)
          → cached_of (refresh_cached x json s a now t c o k).1 ≡ cached_of k
      unfolding refresh_cached refresh_uncached
      refresh_cached_other c none k = refresh_found_other c _ k
      refresh_cached_other c (some entry) k = elim (Bool-cases (ltb now entry.expires_at)) [
        | inl e ↦ rw (e, refresh_cached) refl
        | inr e ↦
            rw (e, refresh_cached)
              (refresh_found_other c _ _ ∙ (get-remove token t k.token_cache ∙ rw other refl))
      ]

      pub refresh_valid_other :
          (r : Result Claims) (k : Tokens)
          → cached_of (refresh_valid x json s a now t r k).1 ≡ cached_of k
      unfolding refresh_valid
      refresh_valid_other (err e) k = refl
      refresh_valid_other (ok c) k = refresh_cached_other c _ k

  -- The entry of the token, as a refresh at the start of the grace period has left it.
  abbrev pub Holds : TokenPair → ℕ → Tokens → Type 0
  Holds p due k =
      cached_of k ≡ some (record { token_pair = p; expires_at = due; refresh_token = token })

  module _ (x : Aead) (json : Json Claims) (s : Sm4TokenService) (p : TokenPair) (due : ℕ) where
    pub hit_valid :
        (a : Answers) (now : ℕ) (k : Tokens) (r : Result Claims)
        → Holds p due k
        → ltb now due ≡ true
        → ((refresh_valid x json s a now token r k).1 ≡ k)
          × ((c : Claims) → r ≡ ok c → refresh_valid x json s a now token r k ≡ (ok p, k))
    unfolding refresh_valid refresh_cached
    hit_valid a now k (err e) h l = (refl, λ c q. absurd (ground arith))
    hit_valid a now k (ok c) h l = (
      rw (h, refresh_valid, refresh_cached, l) refl,
      λ d q. rw (h, refresh_valid, refresh_cached, l) refl,
    )

  -- A pair that is returned past the cache is cached.
  module _ (s : Sm4TokenService) (a : Answers) (now : ℕ) (p : TokenPair) where
    abbrev Caches : Result TokenPair × Tokens → Type 0
    Caches r = r.0 ≡ ok p → Holds p (now + s.grace_period) r.1

    cache-Holds : (k : Tokens) → Holds p (now + s.grace_period) (cache s now token p k)
    unfolding cache
    cache-Holds k = get-put token token _ k.token_cache ∙ rw (text_eq_refl token) refl

    finish_again-Caches :
        (r : Result TokenPair) (k : Tokens) → Caches (finish_again s now token r k)
    unfolding finish_again
    finish_again-Caches (err e) k q = absurd (ground arith)
    finish_again-Caches (ok p') k q =
        let same : p ≡ p' = cc in
        subst (λ y. Holds p (now + s.grace_period) (cache s now token y k)) same (cache-Holds k)

    finish_first-Caches :
        (r : Result TokenPair) (k : Tokens) → Caches (finish_first s a now token r k)
    unfolding finish_first used_first
    finish_first-Caches (err e) k q = absurd (ground arith)
    finish_first-Caches (ok p') k q =
        let same : p ≡ p' = cc in
        subst (λ y. Holds p (now + s.grace_period) (cache s now token y k)) same (cache-Holds k)

    module _ (x : Aead) (json : Json Claims) where
      again_for-Caches :
          (o : Option User) (k : Tokens) → Caches (again_for x json s a now token o k)
      unfolding again_for
      again_for-Caches none k q = absurd (ground arith)
      again_for-Caches (some u) k q = finish_again-Caches _ k q

      first_for-Caches :
          (o : Option User) (k : Tokens) → Caches (first_for x json s a now token o k)
      unfolding first_for
      first_for-Caches none k = λ q. absurd (ground arith)
      first_for-Caches (some u) k = elim (Bool-cases u.is_active) [
        | inl e ↦ rw (e, first_for) (finish_first-Caches _ k)
        | inr e ↦ rw (e, first_for) (λ q. absurd (ground arith))
      ]

      used_before-Caches :
          (c : Claims) (session : Session) (k : Tokens)
          → Caches (used_before x json s a now token c session k)
      unfolding used_before replayed
      used_before-Caches c session k =
          elim (Bool-cases (
            used_within s now session.last_used_at
            && a.recent_read
            && has_recent now s.grace_period c.user_id k.sessions)) [
              | inl e ↦ rw (e, used_before) (again_for-Caches _ k)
              | inr e ↦ rw (e, used_before) (λ q. absurd (ground arith))
            ]

      refresh_found-Caches :
          (c : Claims) (o : Option Session) (k : Tokens)
          → Caches (refresh_found x json s a now token c o k)
      unfolding refresh_found first_use
      refresh_found-Caches c none k = first_for-Caches _ k
      refresh_found-Caches c (some session) k = elim (Bool-cases session.is_active) [
        | inl e ↦ rw (e, refresh_found) (first_for-Caches _ k)
        | inr e ↦ rw (e, refresh_found) (used_before-Caches c session k)
      ]

      refresh_cached-Caches :
          (c : Claims) (o : Option TokenCacheEntry) (k : Tokens)
          → ((e : TokenCacheEntry) → o ≡ some e → ltb now e.expires_at ≡ false)
          → Caches (refresh_cached x json s a now token c o k)
      unfolding refresh_cached refresh_uncached
      refresh_cached-Caches c none k old = refresh_found-Caches c _ k
      refresh_cached-Caches c (some entry) k old =
          rw (old entry refl, refresh_cached) (refresh_found-Caches c _ _)

      pub refresh-Caches :
          (r : Result Claims) (k : Tokens)
          → ((e : TokenCacheEntry) → cached_of k ≡ some e → ltb now e.expires_at ≡ false)
          → Caches (refresh_valid x json s a now token r k)
      unfolding refresh_valid
      refresh-Caches (err e) k old q = absurd (ground arith)
      refresh-Caches (ok c) k old q = refresh_cached-Caches c _ k old q
