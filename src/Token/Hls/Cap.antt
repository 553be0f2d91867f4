-- ===== src/Token/Hls/Cap.antt =====
-- The size of the index of identifiers.
use video_meeting_recorder.Common.{
  ℕ, zero, suc, ◌/◌, ◌≤◌, ◌<◌, ◌≡◌, refl, subst, sym, Bool, true, ◌&&◌, List, [], ◌∷◌, Text,
  text_eq_refl, is_empty, length, ltb, leb, Bool-cases, Option-cases, ◌⊎◌, inl, inr, arith,
}
use video_meeting_recorder.Errors.{Result, ok, err, ◌>>=◌}
use video_meeting_recorder.Token.{Crypto, Json, second, open_token}
use video_meeting_recorder.Token.Hls.{
  HlsTokenClaims, HlsToken, Jtis, max_used_jtis, max_int64, delete_jti, has_jti, drop_expired,
  earlier, oldest_from, oldest, evict_oldest, enforce_cap, record_jti, check_time, verify,
  evict_expired,
}

-- Every entry expires before the largest int64.
unfoldable pub below : Jtis → Bool
below [] = true
below ((j, e) ∷ u) = ltb e max_int64 && below u

delete-below : (k : Text) (u : Jtis) → below u ≡ true → below (delete_jti k u) ≡ true
unfolding below delete_jti
delete-below k [] h = refl
delete-below k ((j, e) ∷ u) h = ground (arith, delete-below k u)

drop-below : (now : ℕ) (u : Jtis) → below u ≡ true → below (drop_expired now u) ≡ true
unfolding below drop_expired
drop-below now [] h = refl
drop-below now ((j, e) ∷ u) h = ground (arith, drop-below now u)

length-delete : (k : Text) (u : Jtis) → length (delete_jti k u) ≤ length u
unfolding delete_jti
length-delete k [] = omega arith
length-delete k ((j, e) ∷ u) = ground (arith, length-delete k u)

length-drop : (now : ℕ) (u : Jtis) → length (drop_expired now u) ≤ length u
unfolding drop_expired
length-drop now [] = omega arith
length-drop now ((j, e) ∷ u) = ground (arith, length-drop now u)

-- To delete a key that is there takes an entry.
delete_shorter : (k : Text) (u : Jtis) → has_jti k u ≡ true → length (delete_jti k u) < length u
unfolding has_jti delete_jti
delete_shorter k [] h = absurd (ground arith)
delete_shorter k ((j, e) ∷ u) h = ground (arith, delete_shorter k u, length-delete k u)

earlier_either :
    (best entry : Text × ℕ) → (earlier best entry ≡ best) ⊎ (earlier best entry ≡ entry)
unfolding earlier
earlier_either best entry = elim (Bool-cases (ltb entry.1 best.1)) [
  | inl p ↦ inr (rw p refl)
  | inr p ↦ inl (rw p refl)
]

-- The scan finds an entry, or keeps what it began with.
oldest_from_lem : (best : Text × ℕ) (u : Jtis) → has_jti (oldest_from best u) (best ∷ u) ≡ true
unfolding has_jti oldest_from
oldest_from_lem (b, m) [] = ground (arith, text_eq_refl b)
oldest_from_lem (b, m) ((j, e) ∷ u) =
    let p = earlier (b, m) (j, e) in
    among (oldest_from p u) p (earlier_either (b, m) (j, e)) (oldest_from_lem p u)
  where
    among :
        (k : Text) (p : Text × ℕ)
        → (p ≡ (b, m)) ⊎ (p ≡ (j, e))
        → has_jti k (p ∷ u) ≡ true
        → has_jti k ((b, m) ∷ (j, e) ∷ u) ≡ true
    among k p (inl q) h =
        let r : has_jti k ((b, m) ∷ u) ≡ true = subst (λ y. has_jti k (y ∷ u) ≡ true) q h in
        ground (arith, r)
    among k p (inr q) h =
        let r : has_jti k ((j, e) ∷ u) ≡ true = subst (λ y. has_jti k (y ∷ u) ≡ true) q h in
        ground (arith, r)

oldest-has :
    (j : Text) (e : ℕ) (u : Jtis)
    → below ((j, e) ∷ u) ≡ true
    → has_jti (oldest ((j, e) ∷ u)) ((j, e) ∷ u) ≡ true
unfolding below oldest oldest_from earlier
oldest-has j e u h =
    let p : ltb e max_int64 ≡ true = ground (arith, h) in rw p (oldest_from_lem (j, e) u)

-- A round for each entry is enough for the loop.
evict-length :
    (fuel : ℕ) (u : Jtis)
    → below u ≡ true
    → length u ≤ fuel
    → length (evict_oldest fuel u) ≤ max_used_jtis
unfolding evict_oldest
evict-length zero u h l = omega (arith, l)
evict-length (suc fuel) [] h l = ground arith
evict-length (suc fuel) ((j, e) ∷ u) h l =
    let v = (j, e) ∷ u in
    let shorter = delete_shorter (oldest v) v (oldest-has j e u h) in
    elim (Bool-cases (leb (length v) max_used_jtis)) [
      | inl p ↦ rw p (ground arith)
      | inr p ↦ rw p (
          evict-length fuel (delete_jti (oldest v) v) (delete-below (oldest v) v h)
            (omega (arith, shorter, l)))
    ]

evict-below : (fuel : ℕ) (u : Jtis) → below u ≡ true → below (evict_oldest fuel u) ≡ true
unfolding evict_oldest
evict-below zero u h = h
evict-below (suc fuel) u h =
    ground (arith, evict-below fuel (delete_jti (oldest u) u), delete-below (oldest u) u)

-- The index is at most as large as its limit, and its entries expire before the largest int64.
unfoldable pub Capped : Jtis → Type 0
unfolding below
Capped u = (length u ≤ max_used_jtis) × (below u ≡ true)

enforce-Capped : (now : ℕ) (u : Jtis) → below u ≡ true → Capped (enforce_cap now u)
unfolding enforce_cap Capped
enforce-Capped now u h =
    let kept = drop_expired now u in
    elim (Bool-cases (leb (length u) max_used_jtis)) [
      | inl p ↦ rw p (ground arith, h)
      | inr p ↦ rw p (
        evict-length (length kept) kept (drop-below now u h) (omega arith),
        evict-below (length kept) kept (drop-below now u h),
      )
    ]

-- A call of the manager: a verification or a tick of the sweeper.
pub data Call : Type 0 where
  verifies : (now : ℕ) (written : Bool) (token : Text) → Call
  sweeps : (now : ℕ) (deleted : Bool) → Call

module _ (x : Crypto) (json : Json HlsTokenClaims) where
  pub step : Call → HlsToken → HlsToken
  step (verifies now written token) h = (verify x json now written token h).1
  step (sweeps now deleted) h = evict_expired now deleted h

  pub run : List Call → HlsToken → HlsToken
  run [] h = h
  run (c ∷ cs) h = run cs (step c h)

  -- The tokens of the calls that are signed expire before the largest int64.
  unfoldable pub Sane : Text → List Call → Type 0
  Sane secret [] = Unit {0}
  Sane secret (verifies now written token ∷ cs) =
      ((c : HlsTokenClaims) → open_token x json secret token ≡ ok c → c.expires_at < max_int64)
      × Sane secret cs
  Sane secret (sweeps now deleted ∷ cs) = Sane secret cs

  record_jti-Capped :
      (now : ℕ) (written : Bool) (c : HlsTokenClaims) (h : HlsToken)
      → c.expires_at < max_int64
      → Capped h.used_jtis
      → Capped (record_jti now written c h).used_jtis
        × ((record_jti now written c h).secret ≡ h.secret)
  unfolding record_jti below Capped
  record_jti-Capped now written c h l k = elim (Bool-cases (is_empty c.jti)) [
    | inl p ↦ rw p (k, refl)
    | inr p ↦ elim (Option-cases h.db) [
      | inr (rows, q) ↦ rw (p, q) (k, refl)
      | inl q ↦
          let small = delete-below c.jti h.used_jtis k.1 in
          rw (p, q)
            (
              enforce-Capped (now / second) ((c.jti, c.expires_at) ∷ delete_jti c.jti h.used_jtis)
                  (ground arith),
              refl,
            )
    ]
  ]

  verify-Capped :
      (now : ℕ) (written : Bool) (token : Text) (h : HlsToken)
      → ((c : HlsTokenClaims) → open_token x json h.secret token ≡ ok c → c.expires_at < max_int64)
      → Capped h.used_jtis
      → let h' = (verify x json now written token h).1 in
        Capped h'.used_jtis × (h'.secret ≡ h.secret)
  unfolding verify check_time
  verify-Capped now written token h l k = go (open_token x json h.secret token) l
    where
      go :
          (o : Result HlsTokenClaims)
          → ((c : HlsTokenClaims) → o ≡ ok c → c.expires_at < max_int64)
          → let h' =
              (elim (o >>= check_time now) as (λ y. Result HlsTokenClaims × HlsToken) [
                | err e ↦ (err e, h)
                | ok c ↦ (ok c, record_jti now written c h)
              ]).1 in
            Capped h'.used_jtis × (h'.secret ≡ h.secret)
      go (err e) l = (k, refl)
      go (ok c) l = elim (Bool-cases (ltb c.expires_at (now / second))) [
        | inl p ↦ rw p (k, refl)
        | inr p ↦ rw p (record_jti-Capped now written c h (l c refl) k)
      ]

  evict_expired-Capped :
      (now : ℕ) (deleted : Bool) (h : HlsToken)
      → Capped h.used_jtis
      → let h' = evict_expired now deleted h in Capped h'.used_jtis × (h'.secret ≡ h.secret)
  unfolding evict_expired Capped
  evict_expired-Capped now deleted h k = elim (Option-cases h.db) [
    | inr (rows, q) ↦ ground (arith, k)
    | inl q ↦
        let shorter = length-drop (now / second) h.used_jtis in
        rw q ((omega (arith, k.0, shorter), drop-below (now / second) h.used_jtis k.1), refl)
  ]

  -- Verifications and sweeps, whatever the database answers, keep the index in memory within its limit, if
  -- it is so at first with entries that expire before the largest int64, as all the tokens do that the
  -- verifications accept. The table that a
  -- database keeps is not meant.
  pub run-Capped :
      (cs : List Call) (h : HlsToken)
      → Sane h.secret cs
      → Capped h.used_jtis
      → Capped (run cs h).used_jtis
  unfolding run step Sane
  run-Capped [] h s k = k
  run-Capped (verifies now written token ∷ cs) h (l, s) k =
      let h' = step (verifies now written token) h in
      let (k', e) = verify-Capped now written token h l k in
      run-Capped cs h' (subst (λ y. Sane y cs) (sym e) s) k'
  run-Capped (sweeps now deleted ∷ cs) h s k =
      let h' = step (sweeps now deleted) h in
      let (k', e) = evict_expired-Capped now deleted h k in
      run-Capped cs h' (subst (λ y. Sane y cs) (sym e) s) k'
