-- ===== src/RateLimit/DayCap.antt =====
-- The clean-up goroutine forgets windows that the limit per day still needs, and the time that a
-- refusal names.
use video_meeting_recorder.Common.{
  ℕ, ◌+◌, ◌≤◌, ◌<◌, ◌≡◌, refl, sym, subst, ◌++◌, inl, inr, true, false, List, [], ◌∷◌, map,
  contains, Bool-cases, arith,
}
use video_meeting_recorder.Common.Maps.{lookup, delete, lookup-delete}
use video_meeting_recorder.Common.Clock.{minute, hour}
use video_meeting_recorder.RateLimit.{
  RateLimitConfig, RateLimiter, count_requests_after, find_earliest_after, decide, requests_of,
  last_or, check_rate_limit, is_stale, drop_stale, cleanup_expired_windows, is_exhausted,
}

requests_of-missing :
    (key : ℕ) (l : RateLimiter) → contains key (map (λ e. e.0) l) ≡ false → requests_of key l ≡ []
unfolding requests_of lookup contains
requests_of-missing key [] h = refl
requests_of-missing key ((k, w) ∷ l) h = ground (arith, requests_of-missing key l)

drop_stale-nil :
    (now key : ℕ) (keys : List ℕ) (l : RateLimiter)
    → requests_of key l ≡ []
    → requests_of key (drop_stale now keys l) ≡ []
unfolding drop_stale requests_of
drop_stale-nil now key [] l h = h
drop_stale-nil now key (k ∷ keys) l h = ground (
  arith,
  drop_stale-nil now key keys l,
  drop_stale-nil now key keys (delete k l),
  lookup-delete key k l,
)

drop_stale-visited :
    (now key : ℕ) (keys : List ℕ) (l : RateLimiter)
    → is_stale now (requests_of key l) ≡ true
    → contains key keys ≡ true
    → requests_of key (drop_stale now keys l) ≡ []
unfolding drop_stale requests_of contains
drop_stale-visited now key [] l s h = ground arith
drop_stale-visited now key (k ∷ keys) l s h = ground (
  arith,
  drop_stale-nil now key keys (delete k l),
  drop_stale-visited now key keys l,
  drop_stale-visited now key keys (delete k l),
  lookup-delete key k l,
)

last_or-append : (d t : ℕ) (ts : List ℕ) → last_or d (ts ++ t ∷ []) ≡ t
unfolding last_or
last_or-append d t [] = refl
last_or-append d t (x ∷ ts) = last_or-append x t ts

idle_stale : (now t : ℕ) (ts : List ℕ) → t + hour < now → is_stale now (ts ++ t ∷ []) ≡ true
unfolding is_stale
idle_stale now t ts h = rw (last_or-append 0 t ts) (ground arith)

-- If a tick comes more than an hour after the last request of a key, then the next request of the key, at
-- any time, is let through, however many requests of the day the window held.
pub check-after_tick :
    (config : RateLimitConfig) (now later key t : ℕ) (ts : List ℕ) (l : RateLimiter)
    → requests_of key l ≡ ts ++ t ∷ []
    → t + hour < now
    → (check_rate_limit config later key (cleanup_expired_windows now l)).0.allowed ≡ true
unfolding check_rate_limit cleanup_expired_windows decide count_requests_after
check-after_tick config now later key t ts l q idle =
    let h = subst (λ w. is_stale now w ≡ true) (sym q) (idle_stale now t ts idle) in
    let gone : requests_of key (drop_stale now (map (λ e. e.0) l) l) ≡ [] =
      elim (Bool-cases (contains key (map (λ e. e.0) l))) [
        | inl visited ↦ drop_stale-visited now key (map (λ e. e.0) l) l h visited
        | inr missing ↦
            drop_stale-nil now key (map (λ e. e.0) l) l (requests_of-missing key l missing)
      ] in
    rw gone (ground arith)

count-later :
    (span now later : ℕ) (w : List ℕ)
    → now ≤ later
    → count_requests_after span later w ≤ count_requests_after span now w
unfolding count_requests_after
count-later span now later [] h = omega arith
count-later span now later (t ∷ w) h = ground (arith, count-later span now later w h)

earliest_later : (span now : ℕ) (w : List ℕ) → now ≤ find_earliest_after span now w + span
unfolding find_earliest_after
earliest_later span now [] = omega arith
earliest_later span now (t ∷ w) = ground (arith, earliest_later span now w)

earliest_frees :
    (span now : ℕ) (w : List ℕ)
    → 0 < count_requests_after span now w
    → count_requests_after span (find_earliest_after span now w + span) w
      < count_requests_after span now w
unfolding count_requests_after find_earliest_after
earliest_frees span now [] h = omega arith
earliest_frees span now (t ∷ w) h =
    ground (
      arith,
      count-later span now (t + span) w,
      earliest_frees span now w,
      earliest_later span now w,
    )

-- A refused request leaves the window alone. When the limit per minute is used up, the request is
-- refused, and the verdict names a time at which fewer requests count against that limit.
pub refusal :
    (config : RateLimitConfig) (now : ℕ) (w : List ℕ)
    → ((decide config now w).0.allowed ≡ false → (decide config now w).1 ≡ w)
      × (is_exhausted config.requests_per_minute minute now w ≡ true
          → ((decide config now w).0.allowed ≡ false)
            × (count_requests_after minute (decide config now w).0.reset_time w
                < count_requests_after minute now w))
unfolding decide
refusal config now w =
    (ground arith, λ h. (ground arith, ground (arith, earliest_frees minute now w)))
