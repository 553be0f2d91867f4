-- ===== src/RateLimit/Caps/Limits.antt =====
-- The three limits as caps.
use video_meeting_recorder.Common.{ℕ, suc, ◌≤◌, ◌<◌, ◌≡◌, true, List, arith}
use video_meeting_recorder.Common.Clock.{minute, hour, day}
use video_meeting_recorder.RateLimit.{RateLimitConfig, count_requests_after, decide}
use video_meeting_recorder.RateLimit.History.{Call, run, start, InOrder, count_in, start-Inv}
use video_meeting_recorder.RateLimit.Caps.{run-Inv, run_checks-Inv, OnlyChecks}

enforced_minute :
    (config : RateLimitConfig)
    → 0 < config.requests_per_minute
    → (now : ℕ) (w : List ℕ) → (decide config now w).0.allowed ≡ true
    → suc (count_requests_after minute now w) ≤ config.requests_per_minute
unfolding decide
enforced_minute config p now w h = ground arith

enforced_hour :
    (config : RateLimitConfig)
    → 0 < config.requests_per_hour
    → (now : ℕ) (w : List ℕ) → (decide config now w).0.allowed ≡ true
    → suc (count_requests_after hour now w) ≤ config.requests_per_hour
unfolding decide
enforced_hour config p now w h = ground arith

enforced_day :
    (config : RateLimitConfig)
    → 0 < config.requests_per_day
    → (now : ℕ) (w : List ℕ) → (decide config now w).0.allowed ≡ true
    → suc (count_requests_after day now w) ≤ config.requests_per_day
unfolding decide
enforced_day config p now w h = ground arith

-- Whatever calls and clean-up ticks come in the order of time, no interval of a minute holds more
-- requests of a key that were let through than the configured limit per minute, if one is set.
pub minute_capped :
    (config : RateLimitConfig) (key now : ℕ) (cs : List (ℕ × Call)) (x : ℕ)
    → 0 < config.requests_per_minute
    → InOrder now cs
    → count_in x minute (run config key start cs).admitted ≤ config.requests_per_minute
minute_capped config key now cs x p i =
    let (later, v) =
      run-Inv config config.requests_per_minute minute key (enforced_minute config p) (omega arith)
        now start cs (omega arith) i (start-Inv config.requests_per_minute minute key now) in
    v.capped x

-- Whatever calls and clean-up ticks come in the order of time, no interval of an hour holds more
-- requests of a key that were let through than the configured limit per hour, if one is set.
pub hour_capped :
    (config : RateLimitConfig) (key now : ℕ) (cs : List (ℕ × Call)) (x : ℕ)
    → 0 < config.requests_per_hour
    → InOrder now cs
    → count_in x hour (run config key start cs).admitted ≤ config.requests_per_hour
hour_capped config key now cs x p i =
    let (later, v) =
      run-Inv config config.requests_per_hour hour key (enforced_hour config p) (omega arith) now
        start cs (omega arith) i (start-Inv config.requests_per_hour hour key now) in
    v.capped x

-- In histories in the order of time and without a clean-up tick, no interval of a day holds more requests of a key that were
-- let through than the limit per day, if one is set.
pub day_capped :
    (config : RateLimitConfig) (key now : ℕ) (cs : List (ℕ × Call)) (x : ℕ)
    → 0 < config.requests_per_day
    → OnlyChecks cs
    → InOrder now cs
    → count_in x day (run config key start cs).admitted ≤ config.requests_per_day
day_capped config key now cs x p o i =
    let (later, v) =
      run_checks-Inv config config.requests_per_day day key (enforced_day config p) (omega arith)
        now start cs o i (start-Inv config.requests_per_day day key now) in
    v.capped x
