-- ===== src/RateLimit/Caps.antt =====
-- The limits of the configuration as caps on every interval of time.
pub mod Limits
use video_meeting_recorder.Common.{
  ℕ, suc, ◌≤◌, ◌<◌, ◌≡◌, refl, sym, subst, ◌∙◌, ◌⊎◌, inl, inr, true, false, List, [], ◌∷◌, ◌++◌,
  map, ◌==◌, if◌then◌else◌, Bool-cases, arith,
}
use video_meeting_recorder.Common.Maps.{delete, lookup-delete}
use video_meeting_recorder.Common.Clock.{minute, hour, day}
use video_meeting_recorder.RateLimit.{
  RateLimitConfig, RateLimiter, count_requests_after, cleanup_old_requests, decide, requests_of,
  check_rate_limit, is_stale, drop_stale, cleanup_expired_windows,
}
use video_meeting_recorder.RateLimit.Window.{
  AllLe, AllLe-mono, AllLe-append, AllLe-cleanup, Ends, Ends-snoc, Ends-cleanup, count-append,
  count-cleanup, count-stale,
}
use video_meeting_recorder.RateLimit.History.{
  Call, checks, ticks, State, step, run, start, InOrder, count_in, count_in-append, count_in-le,
  Inv, start-Inv, requests_of-check,
}

-- A request that is let through is recorded, one that is refused leaves the window alone.
decide_window :
    (config : RateLimitConfig) (now : ℕ) (w : List ℕ)
    → (decide config now w).1 ≡ (if (decide config now w).0.allowed then w ++ now ∷ [] else w)
unfolding decide
decide_window config now w = ground arith

-- No tick of the clean-up goroutine.
abbrev pub OnlyChecks : List (ℕ × Call) → Type 0
OnlyChecks [] = Unit
OnlyChecks ((t, checks k) ∷ cs) = OnlyChecks cs
OnlyChecks ((t, ticks) ∷ cs) = ⊥

Ends-nil : Unit {0} → Ends []
Ends-nil u = u

count_nil : (span now : ℕ) → count_requests_after span now [] ≡ 0
unfolding count_requests_after
count_nil span now = refl

abbrev Cleaned : ℕ → ℕ → RateLimiter → RateLimiter → Type 0
Cleaned now key l l' =
    (requests_of key l' ≡ requests_of key l)
    ⊎ ((requests_of key l' ≡ []) × (is_stale now (requests_of key l) ≡ true))

requests_of-delete :
    (key k : ℕ) (l : RateLimiter)
    → requests_of key (delete k l) ≡ (if key == k then [] else requests_of key l)
unfolding requests_of
requests_of-delete key k l = ground (arith, lookup-delete key k l)

Cleaned-delete :
    (now key k : ℕ) (l l' : RateLimiter)
    → is_stale now (requests_of k l) ≡ true
    → Cleaned now key (delete k l) l'
    → Cleaned now key l l'
Cleaned-delete now key k l l' stale c = elim (Bool-cases (key == k)) [
  | inl same ↦
      let e : key ≡ k = ground arith in
      let gone : requests_of key (delete k l) ≡ [] = requests_of-delete key k l ∙ (rw same) in
      inr (
        elim c [ inl p ↦ p ∙ gone | inr q ↦ q.0 ],
        subst (λ j. is_stale now (requests_of j l) ≡ true) (sym e) stale,
      )
  | inr other ↦
      let kept : requests_of key (delete k l) ≡ requests_of key l =
        requests_of-delete key k l ∙ (rw other) in
      elim c [
        | inl p ↦ inl (p ∙ kept)
        | inr q ↦ inr (q.0, subst (λ w. is_stale now w ≡ true) kept q.1)
      ]
]

-- After a clean-up the window of a key is as before, or it was stale and is gone.
drop_stale-Cleaned :
    (now key : ℕ) (keys : List ℕ) (l : RateLimiter) → Cleaned now key l (drop_stale now keys l)
unfolding drop_stale
drop_stale-Cleaned now key [] l = inl refl
drop_stale-Cleaned now key (k ∷ keys) l = elim (Bool-cases (is_stale now (requests_of k l))) [
  | inl stale ↦
      rw stale (Cleaned-delete now key k l _ stale (drop_stale-Cleaned now key keys (delete k l)))
  | inr fresh ↦ rw fresh (drop_stale-Cleaned now key keys l)
]

requests_of-cleanup :
    (now key : ℕ) (l : RateLimiter) → Cleaned now key l (cleanup_expired_windows now l)
unfolding cleanup_expired_windows
requests_of-cleanup now key l = drop_stale-Cleaned now key (map (λ e. e.0) l) l

-- What a check of the observed key does to its window and to its record.
window-check :
    (config : RateLimitConfig) (now key : ℕ) (s : State)
    → let w = cleanup_old_requests now (requests_of key s.limiter) in
      requests_of key (step config key s (now, checks key)).limiter
      ≡ (if (decide config now w).0.allowed then w ++ now ∷ [] else w)
unfolding step
window-check config now key s = ground (
  arith,
  requests_of-check config now key key s.limiter,
  decide_window config now (cleanup_old_requests now (requests_of key s.limiter)),
)

admitted-check :
    (config : RateLimitConfig) (now key : ℕ) (s : State)
    → let w = cleanup_old_requests now (requests_of key s.limiter) in
      (step config key s (now, checks key)).admitted
      ≡ (if (decide config now w).0.allowed then s.admitted ++ now ∷ [] else s.admitted)
unfolding step check_rate_limit
admitted-check config now key s = ground arith

module _ (config : RateLimitConfig) (limit span key : ℕ)
    (enforced : (now : ℕ) (w : List ℕ)
      → (decide config now w).0.allowed ≡ true
      → suc (count_requests_after span now w) ≤ limit)
    (short : span ≤ day) where
  later-Inv :
      (before now : ℕ) (s : State)
      → before ≤ now
      → Inv limit span key before s
      → Inv limit span key now s
  later-Inv before now s h v = record {
    past = AllLe-mono before now s.admitted h v.past;
    window_past = AllLe-mono before now _ h v.window_past;
    ends = v.ends;
    capped = v.capped;
    counted = λ later k. v.counted later (omega arith);
  }

  -- A new request at `now` keeps the cap on every interval.
  capped-admit :
      (now x : ℕ) (w admitted : List ℕ)
      → AllLe now admitted
      → suc (count_requests_after span now w) ≤ limit
      → count_requests_after span now w ≡ count_requests_after span now admitted
      → count_in x span admitted ≤ limit
      → count_in x span (admitted ++ now ∷ []) ≤ limit
  unfolding count_in
  capped-admit now x w admitted p room same c =
      ground (arith, count_in-append x span admitted (now ∷ []), count_in-le x now span admitted)

  admit-Inv :
      (now : ℕ) (s s' : State) (w : List ℕ)
      → AllLe now s.admitted
      → AllLe now w
      → suc (count_requests_after span now w) ≤ limit
      → ((x : ℕ) → count_in x span s.admitted ≤ limit)
      → ((later : ℕ)
          → now ≤ later
          → count_requests_after span later w ≡ count_requests_after span later s.admitted)
      → requests_of key s'.limiter ≡ w ++ now ∷ []
      → s'.admitted ≡ s.admitted ++ now ∷ []
      → Inv limit span key now s'
  admit-Inv now s s' w pa pw room capped counted e a = record {
    past = rw a (AllLe-append now s.admitted (now ∷ []) pa (omega arith));
    window_past = rw e (AllLe-append now w (now ∷ []) pw (omega arith));
    ends = rw e (Ends-snoc now now w (omega arith) pw);
    capped =
        λ x. rw a (capped-admit now x w s.admitted pa room (counted now (omega arith)) (capped x));
    counted = λ later h.
        rw (e, a)
          (omega (
            arith,
            count-append span later w (now ∷ []),
            count-append span later s.admitted (now ∷ []),
            counted later h,
          ));
  }

  keep-Inv :
      (now : ℕ) (s s' : State) (w : List ℕ)
      → AllLe now s.admitted
      → AllLe now w
      → Ends w
      → ((x : ℕ) → count_in x span s.admitted ≤ limit)
      → ((later : ℕ)
          → now ≤ later
          → count_requests_after span later w ≡ count_requests_after span later s.admitted)
      → requests_of key s'.limiter ≡ w
      → s'.admitted ≡ s.admitted
      → Inv limit span key now s'
  keep-Inv now s s' w pa pw ends capped counted e a = record {
    past = rw a pa;
    window_past = rw e pw;
    ends = rw e ends;
    capped = λ x. rw a (capped x);
    counted = λ later h. rw (e, a) (counted later h);
  }

  check_other-Inv :
      (now k : ℕ) (s : State)
      → (k == key) ≡ false
      → Inv limit span key now s
      → Inv limit span key now (step config key s (now, checks k))
  unfolding step
  check_other-Inv now k s other v =
      keep-Inv now s (step config key s (now, checks k)) (requests_of key s.limiter) v.past
        v.window_past v.ends v.capped v.counted
        (ground (arith, requests_of-check config now k key s.limiter)) (ground arith)

  check_self-Inv :
      (now : ℕ) (s : State)
      → Inv limit span key now s
      → Inv limit span key now (step config key s (now, checks key))
  unfolding step
  check_self-Inv now s v =
      let w = cleanup_old_requests now (requests_of key s.limiter) in
      let s' = step config key s (now, checks key) in
      let pw : AllLe now w = AllLe-cleanup now now (requests_of key s.limiter) v.window_past in
      let same : (later : ℕ)
          → now ≤ later
          → count_requests_after span later w ≡ count_requests_after span later s.admitted =
        λ later h.
          count-cleanup span now later (requests_of key s.limiter) short h ∙ v.counted later h in
      elim (Bool-cases (decide config now w).0.allowed) [
        | inl yes' ↦
            admit-Inv now s s' w v.past pw (enforced now w yes') v.capped same
              (window-check config now key s ∙ (rw yes'))
              (admitted-check config now key s ∙ (rw yes'))
        | inr no' ↦
            keep-Inv now s s' w v.past pw (Ends-cleanup now (requests_of key s.limiter) v.ends)
              v.capped same (window-check config now key s ∙ (rw no'))
              (admitted-check config now key s ∙ (rw no'))
      ]

  check-Inv :
      (now k : ℕ) (s : State)
      → Inv limit span key now s
      → Inv limit span key now (step config key s (now, checks k))
  check-Inv now k s v = elim (Bool-cases (k == key)) [
    | inl same ↦
        let e : k ≡ key = ground arith in
        subst (λ j. Inv limit span key now (step config key s (now, checks j))) (sym e)
          (check_self-Inv now s v)
    | inr other ↦ check_other-Inv now k s other v
  ]

  run_checks-Inv :
      (now : ℕ) (s : State) (cs : List (ℕ × Call))
      → OnlyChecks cs
      → InOrder now cs
      → Inv limit span key now s
      → (later : ℕ) × Inv limit span key later (run config key s cs)
  unfolding run
  run_checks-Inv now s [] o i v = (now, v)
  run_checks-Inv now s ((t, checks k) ∷ cs) o i v =
      run_checks-Inv t (step config key s (t, checks k)) cs o i.1
        (check-Inv t k s (later-Inv now t s i.0 v))
  run_checks-Inv now s ((t, ticks) ∷ cs) o i v = elim o [ ]

  tick-Inv :
      (now : ℕ) (s : State)
      → span ≤ hour
      → Inv limit span key now s
      → Inv limit span key now (step config key s (now, ticks))
  unfolding step
  tick-Inv now s h v = elim (requests_of-cleanup now key s.limiter) [
    | inl e ↦
        keep-Inv now s (step config key s (now, ticks)) (requests_of key s.limiter) v.past
          v.window_past v.ends v.capped v.counted e refl
    | inr (e, stale) ↦
        keep-Inv now s (step config key s (now, ticks)) [] v.past tt (Ends-nil tt) v.capped
          (λ later k.
            count_nil span later
            ∙ sym (count-stale span now later (requests_of key s.limiter) h k v.ends stale)
            ∙ v.counted later k)
          e refl
  ]

  run-Inv :
      (now : ℕ) (s : State) (cs : List (ℕ × Call))
      → span ≤ hour
      → InOrder now cs
      → Inv limit span key now s
      → (later : ℕ) × Inv limit span key later (run config key s cs)
  unfolding run
  run-Inv now s [] h i v = (now, v)
  run-Inv now s ((t, checks k) ∷ cs) h i v =
      run-Inv t (step config key s (t, checks k)) cs h i.1
        (check-Inv t k s (later-Inv now t s i.0 v))
  run-Inv now s ((t, ticks) ∷ cs) h i v =
      run-Inv t (step config key s (t, ticks)) cs h i.1 (tick-Inv t s h (later-Inv now t s i.0 v))
