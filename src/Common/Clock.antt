-- ===== src/Common/Clock.antt =====
-- Instants and durations in nanoseconds, as in Go's time package.
use Prim.Native.Nat.{ℕ, ◌*◌, ◌+◌}
use mathlib.Core.Bool.{Bool}
use video_meeting_recorder.Common.Tests.{ltb}

abbrev pub second : ℕ
second = 1000000000

abbrev pub minute : ℕ
minute = 60 * second

abbrev pub hour : ℕ
hour = 60 * minute

abbrev pub day : ℕ
day = 24 * hour

-- t.After(u)
abbrev pub after : ℕ → ℕ → Bool
after t u = ltb u t

-- t.After(now.Add(-span)), with the span moved to the other side.
abbrev pub within : ℕ → ℕ → ℕ → Bool
within span now t = ltb now (t + span)
