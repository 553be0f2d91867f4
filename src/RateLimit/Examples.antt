-- ===== src/RateLimit/Examples.antt =====
-- Witnesses and tests of the limiter.
use video_meeting_recorder.Common.{ℕ, ◌≤◌, ◌*◌, ◌≡◌, refl, true, List, [], ◌∷◌, arith}
use video_meeting_recorder.Common.Maps.{lookup, insert}
use video_meeting_recorder.Common.Clock.{second, minute, hour, day}
use video_meeting_recorder.RateLimit.{
  RateLimitConfig, RateLimiter, count_requests_after, requests_of, check_rate_limit,
  cleanup_expired_windows, is_exhausted,
}
use video_meeting_recorder.RateLimit.History.{Call, checks, ticks, step, run, start, count_in}
use video_meeting_recorder.RateLimit.Caps.Limits.{minute_capped}
use video_meeting_recorder.RateLimit.DayCap.{check-after_tick}

abbrev two_a_minute : RateLimitConfig
two_a_minute = record { requests_per_minute = 2; requests_per_hour = 3; requests_per_day = 3 }

abbrev burst : List (ℕ × Call)
burst =
    (second, checks 7)
    ∷ (second, checks 7)
    ∷ (2 * second, checks 7)
    ∷ (hour, ticks)
    ∷ (hour, checks 7)
    ∷ []

abbrev calls : List (ℕ × Call)
calls = (second, checks 7) ∷ (second, checks 7) ∷ (2 * second, checks 7) ∷ []

third_refused : (run two_a_minute 7 start calls).admitted ≡ second ∷ second ∷ []
unfolding run step check_rate_limit count_requests_after requests_of lookup insert
third_refused = refl

minute_capped_example : count_in (2 * second) minute (run two_a_minute 7 start burst).admitted ≤ 2
minute_capped_example =
    minute_capped two_a_minute 7 0 burst (2 * second) (omega arith) (omega arith)

-- Three requests of one day, which use up the limits per hour and per day.
abbrev used_up : RateLimiter
used_up = (7, second ∷ second ∷ second ∷ []) ∷ []

used_up_today : is_exhausted 3 day (2 * hour) (requests_of 7 used_up) ≡ true
unfolding is_exhausted requests_of count_requests_after lookup
used_up_today = refl

check-after_tick_example :
    (check_rate_limit two_a_minute
      (3 * hour)
      7
      (cleanup_expired_windows (2 * hour) used_up)).0.allowed
    ≡ true
unfolding requests_of lookup
check-after_tick_example =
    check-after_tick two_a_minute (2 * hour) (3 * hour) 7 second (second ∷ second ∷ []) used_up refl
      (omega arith)
