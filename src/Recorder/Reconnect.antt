-- ===== src/Recorder/Reconnect.antt =====
-- `attemptReconnect` (coordinator.go): the wait, the restart and the next attempt. One attempt at a
-- time works on a process; what it meets while it waits is an argument.
use video_meeting_recorder.Common.{
  ℕ, zero, suc, ◌+◌, ◌-◌, ◌≤◌, ◌<◌, ◌≡◌, refl, true, false, Option, none, some, [], ◌∷◌, Text, leb,
  ltb, if◌then◌else◌, Bool-cases, inl, inr, arith,
}
use video_meeting_recorder.Errors.{Result, ok, err}
use video_meeting_recorder.Recorder.Decimal.{decimal, key_prefix}
use video_meeting_recorder.Recorder.Registry.{
  Coordinator, stop_recording, stop_matching, stop_legacy, cancel_running, Process, Launch,
  launch_ffmpeg, finish_restart, restart_recording, cancel_running,
}

-- The timer fires at a time, with what a launch would meet, or the context is done first.
pub data Wait : Type 0 where
  ctx_done : Wait
  elapsed : ℕ → Launch → Wait

pub data Next : Type 0 where
  ended retry restarted : Next

-- What follows a restart, successful or not.
unfoldable pub after_restart : Result (Unit {0}) × Process → Process × Next
after_restart (ok u, p) = (p, restarted)
after_restart (err e, p) = (p, if ltb p.reconnect_count p.max_reconnects then retry else ended)

unfoldable pub after_wait : Wait → Process → Process × Next
unfolding after_restart
after_wait ctx_done p = (p, ended)
after_wait (elapsed now l) p =
    after_restart (restart_recording now l (record p { reconnect_count = p.reconnect_count + 1 }))

unfoldable pub attempt : Process → Wait → Process × Next
unfolding after_wait
attempt p w = if leb p.max_reconnects p.reconnect_count then (p, ended) else after_wait w p

-- The chain of attempts; `waits k` is what the k-th meets. `none` means that the fuel ran out.
unfoldable pub reconnect : ℕ → ℕ → (ℕ → Wait) → Process → Option (Process × Next)
reconnect zero k waits p = none
reconnect (suc fuel) k waits p =
    let (p', next) = attempt p (waits k) in
    elim next [
      | retry ↦ reconnect fuel (suc k) waits p'
      | ended ↦ some (p', ended)
      | restarted ↦ some (p', restarted)
    ]

finish-counts :
    (l : Launch) (p : Process) (r : Result ℕ)
    → ((finish_restart l p r).1.reconnect_count ≡ p.reconnect_count)
      × ((finish_restart l p r).1.max_reconnects ≡ p.max_reconnects)
unfolding finish_restart
finish-counts l p (err e) = (refl, refl)
finish-counts l p (ok cmd) = (refl, refl)

restart-counts :
    (now : ℕ) (l : Launch) (p : Process)
    → ((restart_recording now l p).1.reconnect_count ≡ p.reconnect_count)
      × ((restart_recording now l p).1.max_reconnects ≡ p.max_reconnects)
unfolding restart_recording
restart-counts now l p = ground (arith, finish-counts l p (launch_ffmpeg l))

-- What an attempt leaves: the bound, and room for another attempt only while it is not reached.
record Left (p : Process) (r : Process × Next) : Type 0 where
  same_max : r.0.max_reconnects ≡ p.max_reconnects
  bounded : r.0.reconnect_count ≤ p.max_reconnects
  counted :
      r.1 ≡ retry
      → (r.0.reconnect_count ≡ p.reconnect_count + 1) × (r.0.reconnect_count < p.max_reconnects)

after_restart-Left :
    (p : Process) (r : Result (Unit {0}) × Process)
    → p.reconnect_count < p.max_reconnects
    → r.1.reconnect_count ≡ p.reconnect_count + 1
    → r.1.max_reconnects ≡ p.max_reconnects
    → Left p (after_restart r)
unfolding after_restart
after_restart-Left p (ok u, q) h c m = ground arith
after_restart-Left p (err e, q) h c m = ground arith

attempt-Left :
    (p : Process) (w : Wait) → p.reconnect_count ≤ p.max_reconnects → Left p (attempt p w)
unfolding attempt after_wait
attempt-Left p ctx_done h = ground arith
attempt-Left p (elapsed now l) h = elim (Bool-cases (leb p.max_reconnects p.reconnect_count)) [
  | inl e ↦ rw e (ground arith)
  | inr e ↦
      let q = record p { reconnect_count = p.reconnect_count + 1 } in
      rw e (
        after_restart-Left p (restart_recording now l q) (ground arith) (restart-counts now l q).0
          (restart-counts now l q).1)
]

-- A process whose count is within its limit is tried again at most as often as the limit leaves: with
-- one more unit of fuel the chain of attempts ends, and its count never passes the limit.
pub reconnect_ends :
    (fuel k : ℕ) (waits : ℕ → Wait) (p : Process)
    → p.reconnect_count ≤ p.max_reconnects
    → p.max_reconnects - p.reconnect_count < fuel
    → (r : Process × Next) × (reconnect fuel k waits p ≡ some r)
      × (r.0.reconnect_count ≤ p.max_reconnects)
unfolding reconnect
reconnect_ends zero k waits p h f = absurd (omega arith)
reconnect_ends (suc fuel) k waits p h f =
    go (attempt p (waits k)) (attempt-Left p (waits k) h) (λ q. reconnect_ends fuel (suc k) waits q)
  where
    go :
        (r : Process × Next)
        → Left p r
        → ((q : Process)
            → q.reconnect_count ≤ q.max_reconnects
            → q.max_reconnects - q.reconnect_count < fuel
            → (r : Process × Next) × (reconnect fuel (suc k) waits q ≡ some r)
              × (r.0.reconnect_count ≤ q.max_reconnects))
        → (s : Process × Next) × ((elim r.1 as (λ n. Option (Process × Next)) [
          | retry ↦ reconnect fuel (suc k) waits r.0
          | ended ↦ some (r.0, ended)
          | restarted ↦ some (r.0, restarted)
        ])
            ≡ some s)
          × (s.0.reconnect_count ≤ p.max_reconnects)
    go (q, ended) v ih = ((q, ended), refl, v.bounded)
    go (q, restarted) v ih = ((q, restarted), refl, v.bounded)
    go (q, retry) v ih =
        let (s, e, b) =
          ih q (omega (arith, v.counted refl, v.same_max))
            (omega (arith, v.counted refl, v.same_max)) in
        (s, e, (omega (arith, b, v.same_max)))

-- A stop of the task, in any registry of one process, does not reach the process while it waits for
-- its reconnection: its status is no longer running, so it keeps its context. When its wait elapses
-- before the task's end and the launch succeeds, it records again, and is not cancelled.
pub stop_misses_wait :
    (task_id : ℕ) (c : Coordinator) (key : Text) (p : Process) (now cmd : ℕ) (l : Launch)
    → c.processes ≡ (key, p) ∷ []
    → p.running ≡ false
    → p.reconnect_count < p.max_reconnects
    → now < p.end_time
    → l.directories ≡ true
    → l.command ≡ true
    → l.log_file ≡ true
    → l.started ≡ some cmd
    → ((stop_recording c task_id).processes ≡ c.processes)
      × ((attempt p (elapsed now l)).1 ≡ restarted)
      × ((attempt p (elapsed now l)).0.running ≡ true)
      × ((attempt p (elapsed now l)).0.cancelled ≡ false)
unfolding stop_recording stop_matching stop_legacy cancel_running attempt after_wait after_restart
    restart_recording
stop_misses_wait task_id c key p now cmd l e r n d m g s t =
    (rw e (unstopped key p r task_id), ground arith, ground arith, ground arith)
  where
    unstopped :
        (key : Text) (p : Process)
        → p.running ≡ false
        → (task_id : ℕ)
        → stop_legacy (decimal task_id) (stop_matching (key_prefix task_id) ((key, p) ∷ []))
          ≡ (key, p) ∷ []
    unstopped key p r task_id = ground arith
