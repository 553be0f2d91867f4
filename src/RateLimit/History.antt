-- ===== src/RateLimit/History.antt =====
-- Histories of the limiter: timed calls of `CheckRateLimit` under one configuration, ticks of the
-- clean-up goroutine, and the times at which the requests of one key were let through.
use video_meeting_recorder.Common.{
  ℕ, suc, ◌+◌, ◌≤◌, ◌≡◌, refl, ◌&&◌, List, [], ◌∷◌, ◌++◌, ltb, leb, ◌==◌, if◌then◌else◌, arith,
}
use video_meeting_recorder.Common.Maps.{lookup, lookup-insert}
use video_meeting_recorder.RateLimit.{
  RateLimitConfig, RateLimiter, count_requests_after, cleanup_old_requests, decide, requests_of,
  check_rate_limit, cleanup_expired_windows,
}
use video_meeting_recorder.RateLimit.Window.{AllLe, Ends}

pub data Call : Type 0 where
  checks : ℕ → Call
  ticks : Call

pub record State : Type 0 where
  pub limiter : RateLimiter
  -- The requests of the observed key that were let through, oldest first.
  pub admitted : List ℕ

-- One call at time `now`, observed for `key`.
unfoldable pub step : RateLimitConfig → ℕ → State → ℕ × Call → State
step config key s (now, checks k) =
    let (verdict, limiter) = check_rate_limit config now k s.limiter in
    record {
      limiter = limiter;
      admitted = if verdict.allowed && k == key then s.admitted ++ now ∷ [] else s.admitted;
    }
step config key s (now, ticks) = record s { limiter = cleanup_expired_windows now s.limiter }

unfoldable pub run : RateLimitConfig → ℕ → State → List (ℕ × Call) → State
run config key s [] = s
run config key s (c ∷ cs) = run config key (step config key s c) cs

abbrev pub start : State
start = record { limiter = []; admitted = [] }

-- The calls come in the order of their times, none before `now`.
abbrev pub InOrder : ℕ → List (ℕ × Call) → Type 0
InOrder now [] = Unit
InOrder now ((t, c) ∷ cs) = (now ≤ t) × InOrder t cs

-- The requests in the interval of length `span` that ends at `x`.
unfoldable pub count_in : ℕ → ℕ → List ℕ → ℕ
count_in x span [] = 0
count_in x span (t ∷ ts) =
    let rest = count_in x span ts in if leb t x && ltb x (t + span) then suc rest else rest

pub count_in-append :
    (x span : ℕ) (xs ys : List ℕ)
    → count_in x span (xs ++ ys) ≡ count_in x span xs + count_in x span ys
unfolding count_in
count_in-append x span [] ys = omega arith
count_in-append x span (y ∷ xs) ys = ground (arith, count_in-append x span xs ys)

-- An interval that ends at or after `now` holds at most the requests counted at `now`.
pub count_in-le :
    (x now span : ℕ) (xs : List ℕ) → now ≤ x → count_in x span xs ≤ count_requests_after span now xs
unfolding count_in count_requests_after
count_in-le x now span [] h = omega arith
count_in-le x now span (y ∷ xs) h = ground (arith, count_in-le x now span xs h)

-- What holds after the calls up to `now`, for a limit on an interval of length `span`.
pub record Inv (limit span key now : ℕ) (s : State) : Type 0 where
  pub past : AllLe now s.admitted
  pub window_past : AllLe now (requests_of key s.limiter)
  pub ends : Ends (requests_of key s.limiter)
  pub capped : (x : ℕ) → count_in x span s.admitted ≤ limit
  pub counted :
      (later : ℕ)
      → now ≤ later
      → count_requests_after span later (requests_of key s.limiter)
        ≡ count_requests_after span later s.admitted

pub start-Inv : (limit span key now : ℕ) → Inv limit span key now start
unfolding requests_of count_in count_requests_after lookup
start-Inv limit span key now = record {
  past = tt;
  window_past = tt;
  ends = tt;
  capped = λ x. omega arith;
  counted = λ later h. refl;
}

pub requests_of-check :
    (config : RateLimitConfig) (now k key : ℕ) (l : RateLimiter)
    → requests_of key (check_rate_limit config now k l).1 ≡ (
        if key == k
        then (decide config now (cleanup_old_requests now (requests_of k l))).1
        else requests_of key l)
unfolding check_rate_limit requests_of
requests_of-check config now k key l = ground (
  arith,
  lookup-insert key k (decide config now (cleanup_old_requests now (requests_of k l))).1 l,
)
