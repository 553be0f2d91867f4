-- ===== src/Sm4Token/Refresh/Replay.antt =====
-- The detection of a replayed refresh token in internal/auth/sm4_token.go: a token whose session is not
-- active any more, after the grace period; and the tokens that have no session.
use video_meeting_recorder.Common.{
  ℕ, ◌≡◌, refl, ap, ◌∙◌, Bool, true, false, not, ◌&&◌, Option, none, some, List, [], ◌∷◌, Text, ltb,
  ◌==◌, if◌then◌else◌, arith,
}
use video_meeting_recorder.Common.TextMaps.{get, remove}
use video_meeting_recorder.Errors.{ok, err, token_replayed}
use video_meeting_recorder.Token.{Json}
use video_meeting_recorder.Sm4Token.{Aead, Claims, Sm4TokenService, validate_refresh_token}
use video_meeting_recorder.Sm4Token.Refresh.{
  TokenCacheEntry, Session, Tokens, Answers, find_session, answered, deactivate, deactivate_user,
  used_within, revoke_user_sessions, replayed, used_before, refresh_found, refresh_uncached,
  refresh_cached, refresh_valid, refresh_access_token,
}

-- No session of the user is active.
unfoldable pub signed_out : ℕ → List Session → Bool
signed_out i [] = true
signed_out i (s ∷ ss) = not ((s.user_id == i) && s.is_active) && signed_out i ss

-- The sessions of the other users.
unfoldable pub others : ℕ → List Session → List Session
others i [] = []
others i (s ∷ ss) = let rest = others i ss in if s.user_id == i then rest else s ∷ rest

deactivate_user_lem :
    (i : ℕ) (ss : List Session)
    → (signed_out i (deactivate_user i ss) ≡ true) × (others i (deactivate_user i ss) ≡ others i ss)
unfolding signed_out others deactivate_user deactivate
deactivate_user_lem i [] = (refl, refl)
deactivate_user_lem i (s ∷ ss) = ground (arith, deactivate_user_lem i ss)

module _ (x : Aead) (json : Json Claims) (s : Sm4TokenService) (a : Answers) (now : ℕ) where
  -- Past the cache, only the cache may differ.
  pub past_cache :
      (token : Text) (c : Claims) (o : Option TokenCacheEntry) (k : Tokens)
      → ((e : TokenCacheEntry) → o ≡ some e → ltb now e.expires_at ≡ false)
      → (k' : Tokens) × (refresh_cached x json s a now token c o k
          ≡ refresh_uncached x json s a now token c k')
        × (k'.sessions ≡ k.sessions)
        × (k'.users ≡ k.users)
        × (k'.pending ≡ k.pending)
  unfolding refresh_cached
  past_cache token c none k old = (k, refl, refl, refl, refl)
  past_cache token c (some entry) k old = (
    record k { token_cache = remove token k.token_cache },
    rw (old entry refl, refresh_cached) refl,
    refl,
    refl,
    refl,
  )

  signed_out_by : Claims → Tokens → Tokens
  signed_out_by c k = record k { sessions = deactivate_user c.user_id k.sessions }

  found_replays :
      (token : Text) (c : Claims) (session : Session) (k : Tokens)
      → session.is_active ≡ false
      → used_within s now session.last_used_at ≡ false
      → a.revoked ≡ true
      → refresh_found x json s a now token c (some session) k
        ≡ (err token_replayed, signed_out_by c k)
  unfolding refresh_found used_before replayed revoke_user_sessions signed_out_by
  found_replays token c session k dead used revoked = ground (arith, dead, used, revoked)

  pub uncached_found :
      (token : Text) (c : Claims) (o : Option Session) (k : Tokens)
      → a.session_read ≡ true
      → find_session token k.sessions ≡ o
      → refresh_uncached x json s a now token c k ≡ refresh_found x json s a now token c o k
  unfolding refresh_uncached answered
  uncached_found token c o k read found =
      ap
        (λ y.
          refresh_found x json s a now token c (if y then find_session token k.sessions else none)
            k)
        read
      ∙ ap (λ y. refresh_found x json s a now token c y k) found

  -- A refresh token whose session is found, is not active, and was used a grace period ago or earlier, is
  -- refused as replayed when it is valid and not in the cache any more; the sessions of its user are then
  -- all inactive and those of the others unchanged, if the database writes that.
  pub replay_signs_out :
      (token : Text) (c : Claims) (session : Session) (k : Tokens)
      → validate_refresh_token x json now token ≡ ok c
      → ((e : TokenCacheEntry) → get token k.token_cache ≡ some e → ltb now e.expires_at ≡ false)
      → a.session_read ≡ true
      → find_session token k.sessions ≡ some session
      → session.is_active ≡ false
      → used_within s now session.last_used_at ≡ false
      → a.revoked ≡ true
      → let (r, k') = refresh_access_token x json s a now token k in
        (r ≡ err token_replayed)
        × (signed_out c.user_id k'.sessions ≡ true)
        × (others c.user_id k'.sessions ≡ others c.user_id k.sessions)
  unfolding refresh_access_token refresh_valid signed_out_by
  replay_signs_out token c session k v old read found dead used revoked =
      let (k₁, past, same, u, p) = past_cache token c (get token k.token_cache) k old in
      let ends : refresh_access_token x json s a now token k
          ≡ (err token_replayed, signed_out_by c k₁) =
        ap (λ r. refresh_valid x json s a now token r k) v
        ∙ past
        ∙ uncached_found token c (some session) k₁ read (ap (find_session token) same ∙ found)
        ∙ found_replays token c session k₁ dead used revoked in
      let (out, kept) = deactivate_user_lem c.user_id k₁.sessions in
      (
        ap (λ r. r.0) ends,
        ap (λ r. signed_out c.user_id r.1.sessions) ends ∙ out,
        ap (λ r. others c.user_id r.1.sessions) ends ∙ kept ∙ ap (others c.user_id) same,
      )
