-- ===== src/Login/Limiter.antt =====
-- What the login limiter counts.
use video_meeting_recorder.Common.{
  ℕ, ◌+◌, ◌≤◌, ◌≡◌, refl, ap, subst, ◌∙◌, List, [], ◌∷◌, ◌++◌, Text, text_eq, text_eq_iff, length,
  bit, ltb, leb, if◌then◌else◌, Bool-cases, inl, inr, arith,
}
use video_meeting_recorder.Common.TextMaps.{put, remove, get-put, get-remove}
use video_meeting_recorder.Login.{
  RateLimiter, Failures, failures_of, record_failure, keep_recent, should_block, clear,
}

-- A call of the limiter.
pub data Event : Type 0 where
  failure : (user : Text) (time : ℕ) → Event
  question : (user : Text) (time : ℕ) → Event
  cleared : (user : Text) → Event

-- The failures after the calls, the newest of which stands first.
unfoldable pub play : RateLimiter → List Event → Failures
unfolding record_failure should_block clear
play r [] = []
play r (failure user time ∷ es) = record_failure time user (play r es)
play r (question user time ∷ es) = (should_block r time user (play r es)).1
play r (cleared user ∷ es) = clear user (play r es)

-- The calls are in the order of time, and none is later than a time.
unfoldable pub Until : ℕ → List Event → Type 0
Until now [] = Unit {0}
Until now (failure user time ∷ es) = (time ≤ now) × Until time es
Until now (question user time ∷ es) = (time ≤ now) × Until time es
Until now (cleared user ∷ es) = Until now es

-- The failures of a user in the window that ends now, since the user was last cleared.
unfoldable pub count : ℕ → ℕ → Text → List Event → ℕ
count now window user [] = 0
count now window user (failure u time ∷ es) =
    let rest = count now window user es in
    if text_eq user u then bit (ltb now (time + window)) + rest else rest
count now window user (question u time ∷ es) = count now window user es
count now window user (cleared u ∷ es) =
    let rest = count now window user es in if text_eq user u then 0 else rest

pub failures_of-put :
    (k j : Text) (v : List ℕ) (f : Failures)
    → failures_of k (put j v f) ≡ (if text_eq k j then v else failures_of k f)
unfolding failures_of
failures_of-put k j v f = elim (Bool-cases (text_eq k j)) [
  | inl e ↦ rw (get-put k j v f, e, failures_of) refl
  | inr e ↦ rw (get-put k j v f, e, failures_of) refl
]

pub failures_of-remove :
    (k j : Text) (f : Failures)
    → failures_of k (remove j f) ≡ (if text_eq k j then [] else failures_of k f)
unfolding failures_of
failures_of-remove k j f = elim (Bool-cases (text_eq k j)) [
  | inl e ↦ rw (get-remove k j f, e, failures_of) refl
  | inr e ↦ rw (get-remove k j f, e, failures_of) refl
]

-- What an earlier look has dropped is not recent later.
pub keep-keep :
    (now time window : ℕ) (ts : List ℕ)
    → time ≤ now
    → length (keep_recent now window (keep_recent time window ts))
      ≡ length (keep_recent now window ts)
unfolding keep_recent
keep-keep now time window [] l = refl
keep-keep now time window (t ∷ ts) l = ground (arith, keep-keep now time window ts)

pub keep-append :
    (now window time : ℕ) (ts : List ℕ)
    → length (keep_recent now window (ts ++ time ∷ []))
      ≡ length (keep_recent now window ts) + bit (ltb now (time + window))
unfolding keep_recent
keep-append now window time [] = ground arith
keep-append now window time (t ∷ ts) = ground (arith, keep-append now window time ts)

recent-count :
    (r : RateLimiter) (now bound : ℕ) (user : Text) (es : List Event)
    → bound ≤ now
    → Until bound es
    → length (keep_recent now r.window (failures_of user (play r es))) ≡ count now r.window user es
unfolding play Until count record_failure should_block clear
recent-count r now bound user [] l u = refl
recent-count r now bound user (failure v time ∷ es) l (b, u) =
    let f = play r es in
    let ih = recent-count r now time user es (omega (arith, l, b)) u in
    elim (Bool-cases (text_eq user v)) [
      | inr e ↦ rw (failures_of-put user v (failures_of v f ++ time ∷ []) f, e) ih
      | inl e ↦
          let moved =
            subst
              (λ k.
                length (keep_recent now r.window (failures_of k f)) ≡ count now r.window user es)
              ((text_eq_iff user v).0 e) ih in
          rw (failures_of-put user v (failures_of v f ++ time ∷ []) f, e)
            (omega (arith, moved, keep-append now r.window time (failures_of v f)))
    ]
recent-count r now bound user (question v time ∷ es) l (b, u) =
    let f = play r es in
    let ih = recent-count r now time user es (omega (arith, l, b)) u in
    elim (Bool-cases (text_eq user v)) [
      | inr e ↦ rw (failures_of-put user v (keep_recent time r.window (failures_of v f)) f, e) ih
      | inl e ↦
          let moved =
            subst
              (λ k.
                length (keep_recent now r.window (failures_of k f)) ≡ count now r.window user es)
              ((text_eq_iff user v).0 e) ih in
          rw (failures_of-put user v (keep_recent time r.window (failures_of v f)) f, e)
            (keep-keep now time r.window (failures_of v f) (omega (arith, l, b)) ∙ moved)
    ]
recent-count r now bound user (cleared v ∷ es) l u =
    let f = play r es in
    elim (Bool-cases (text_eq user v)) [
      | inr e ↦ rw (failures_of-remove user v f, e) (recent-count r now bound user es l u)
      | inl e ↦ rw (failures_of-remove user v f, e) refl
    ]

-- A user is blocked exactly when the failures of that user in the window, since the last success, reach
-- the limit; that earlier calls have dropped old failures makes no difference.
pub should_block_lem :
    (r : RateLimiter) (now : ℕ) (user : Text) (es : List Event)
    → Until now es
    → (should_block r now user (play r es)).0 ≡ leb r.max_failures (count now r.window user es)
unfolding should_block
should_block_lem r now user es u =
    ap (leb r.max_failures) (recent-count r now now user es (omega arith) u)
