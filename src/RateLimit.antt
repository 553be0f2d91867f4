-- ===== src/RateLimit.antt =====
-- internal/services/rate_limiter.go: the sliding-window limiter of API keys. A window is the list of
-- the times of the requests let through, oldest first; `now` is the time that a call reads. A call
-- is one step: the locks of the limiter and of the window are taken as held throughout.
pub mod Window
pub mod History
pub mod Caps
pub mod DayCap
mod Examples
use video_meeting_recorder.Common.{
  ℕ, zero, suc, ◌+◌, ◌-◌, Bool, true, false, ◌&&◌, ◌||◌, Option, none, some, List, [], ◌∷◌, ◌++◌,
  map, drop, ltb, leb, if◌then◌else◌,
}
use video_meeting_recorder.Common.Int.{ℤ, pos, negsuc, ltb_ℤ, sub_ℕ}
use video_meeting_recorder.Common.Maps.{Map, lookup, insert, delete}
use video_meeting_recorder.Common.Clock.{minute, hour, day, within}

pub record RateLimitConfig : Type 0 where
  pub requests_per_minute : ℕ
  pub requests_per_hour : ℕ
  pub requests_per_day : ℕ

-- The three results of `CheckRateLimit`.
pub record Verdict : Type 0 where
  pub allowed : Bool
  pub remaining : ℤ
  pub reset_time : ℕ

abbrev pub RateLimiter : Type 0
RateLimiter = Map (List ℕ)

-- The requests after `now - span`.
unfoldable pub count_requests_after : ℕ → ℕ → List ℕ → ℕ
count_requests_after span now [] = 0
count_requests_after span now (t ∷ ts) =
    let rest = count_requests_after span now ts in if within span now t then suc rest else rest

unfoldable pub find_earliest_after : ℕ → ℕ → List ℕ → ℕ
find_earliest_after span now [] = now
find_earliest_after span now (t ∷ ts) =
    let rest = find_earliest_after span now ts in if within span now t then t else rest

-- The loop of `cleanupOldRequests`: the index of the first request of the last day, or 0.
unfoldable pub cutoff_from : ℕ → ℕ → List ℕ → ℕ
cutoff_from now i [] = 0
cutoff_from now i (t ∷ ts) =
    let rest = cutoff_from now (suc i) ts in if within day now t then i else rest

unfoldable pub cleanup_old_requests : ℕ → List ℕ → List ℕ
unfolding cutoff_from
cleanup_old_requests now requests = drop (cutoff_from now 0 requests) requests

-- One limit has no room left.
unfoldable pub is_exhausted : ℕ → ℕ → ℕ → List ℕ → Bool
is_exhausted limit span now requests =
    ltb 0 limit && leb limit (count_requests_after span now requests)

-- One block of `calculateRemaining`.
unfoldable pub lower_remaining : ℕ → ℕ → ℕ → List ℕ → ℤ → ℤ
lower_remaining limit span now requests min_remaining =
    let remaining = sub_ℕ limit (count_requests_after span now requests) in
    if ltb 0 limit && (ltb_ℤ min_remaining (pos 0) || ltb_ℤ remaining min_remaining)
    then remaining
    else min_remaining

unfoldable pub calculate_remaining : RateLimitConfig → ℕ → List ℕ → ℤ
unfolding lower_remaining
calculate_remaining config now requests =
    let a = lower_remaining config.requests_per_minute minute now requests (negsuc 0) in
    let b = lower_remaining config.requests_per_hour hour now requests a in
    let c = lower_remaining config.requests_per_day day now requests b in
    if ltb_ℤ c (pos 0) then pos 0 else c

refuse : ℕ → ℕ → List ℕ → Verdict × List ℕ
refuse span now requests = (
  record {
    allowed = false;
    remaining = pos 0;
    reset_time = find_earliest_after span now requests + span;
  },
  requests,
)

admit : RateLimitConfig → ℕ → List ℕ → Verdict × List ℕ
admit config now requests =
    let requests' = requests ++ now ∷ [] in
    (
      record {
        allowed = true;
        remaining = calculate_remaining config now requests';
        reset_time = now + minute;
      },
      requests',
    )

-- The part of `CheckRateLimit` under the window's lock, after the clean-up.
unfoldable pub decide : RateLimitConfig → ℕ → List ℕ → Verdict × List ℕ
unfolding refuse admit is_exhausted
decide config now requests =
    if is_exhausted config.requests_per_minute minute now requests
    then refuse minute now requests
    else if is_exhausted config.requests_per_hour hour now requests
    then refuse hour now requests
    else if is_exhausted config.requests_per_day day now requests
    then refuse day now requests
    else admit config now requests

-- A key without a window gets an empty one.
unfoldable pub requests_of : ℕ → RateLimiter → List ℕ
requests_of key limiter = elim (lookup key limiter) [ none ↦ [] | some requests ↦ requests ]

unfoldable pub check_rate_limit : RateLimitConfig → ℕ → ℕ → RateLimiter → Verdict × RateLimiter
unfolding decide cleanup_old_requests
check_rate_limit config now key limiter =
    let (verdict, requests) =
      decide config now (cleanup_old_requests now (requests_of key limiter)) in
    (verdict, insert key requests limiter)

-- The last element, or `d`.
unfoldable pub last_or : ℕ → List ℕ → ℕ
last_or d [] = d
last_or d (x ∷ xs) = last_or x xs

is_nil : List ℕ → Bool
is_nil [] = true
is_nil (x ∷ xs) = false

-- No request, or none in the last hour.
unfoldable pub is_stale : ℕ → List ℕ → Bool
unfolding is_nil
is_stale now requests = is_nil requests || ltb hour (now - last_or 0 requests)

-- The loop of `cleanupExpiredWindows` over the keys, in any order.
unfoldable pub drop_stale : ℕ → List ℕ → RateLimiter → RateLimiter
unfolding is_stale
drop_stale now [] limiter = limiter
drop_stale now (key ∷ keys) limiter =
    drop_stale now keys
      (if is_stale now (requests_of key limiter) then delete key limiter else limiter)

unfoldable pub cleanup_expired_windows : ℕ → RateLimiter → RateLimiter
unfolding drop_stale
cleanup_expired_windows now limiter = drop_stale now (map (λ e. e.0) limiter) limiter

unfoldable pub reset_api_key : ℕ → RateLimiter → RateLimiter
reset_api_key key limiter = elim (lookup key limiter) [
  | none ↦ limiter
  | some requests ↦ insert key [] limiter
]

-- The counts of the last minute, hour and day.
unfoldable pub get_api_key_stats : ℕ → ℕ → RateLimiter → ℕ × ℕ × ℕ
get_api_key_stats now key limiter =
    let requests = requests_of key limiter in
    (
      count_requests_after minute now requests,
      count_requests_after hour now requests,
      count_requests_after day now requests,
    )
