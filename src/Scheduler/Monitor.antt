-- ===== src/Scheduler/Monitor.antt =====
-- `monitorTask`, `handleEndTimeReached` and `monitorTaskEndTimeOnly` (video_scheduler.go): how a
-- recording that has reached its end is extended, completed or left.
pub mod Bounds
pub mod Extends
use video_meeting_recorder.Common.{
  ℕ, zero, suc, ◌+◌, ◌-◌, ◌*◌, ◌≤◌, ◌<◌, ◌≡◌, refl, ◌∙◌, ap, Bool, true, false, not, some, List, [],
  ◌∷◌, ◌++◌, replicate, codes, leb, if◌then◌else◌, Bool-cases, inl, inr, arith,
}
use video_meeting_recorder.Common.Int.{ℤ, pos}
use video_meeting_recorder.Common.Clock.{minute}
use video_meeting_recorder.Errors.{Result, ok, err}
use video_meeting_recorder.Task.{Task}
use video_meeting_recorder.TaskService.{update_task_extension, add_minutes}

-- config.SmartEnd
pub record SmartEnd : Type 0 where
  pub enabled : Bool
  pub max_extend_count : ℕ
  pub extend_step_min : ℤ

-- What the code meets when the end time is reached: the process, the two reads and the write.
pub record Reached : Type 0 where
  pub alive : Bool
  pub read : Bool
  pub written : Bool
  pub reread : Bool

-- `completes` calls `completeTask` and ends the monitor; `leaves` ends it without that; `goes_on` has
-- the new end time.
pub data Outcome : Type 0 where
  completes leaves : Outcome
  goes_on : ℕ → Outcome

-- After the call of `UpdateTaskExtension`.
unfoldable pub after_extension : SmartEnd → Bool → ℕ → Task → Result Task → Task × Outcome
after_extension c reread end_time t (err e) = (t, leaves)
after_extension c reread end_time t (ok t') =
    (t', goes_on (if reread then t'.end_time else add_minutes end_time c.extend_step_min))

-- `t` is the task in the database.
unfoldable pub handle_end_time_reached : SmartEnd → Reached → ℕ → Task → Task × Outcome
unfolding after_extension
handle_end_time_reached c r end_time t =
    if not r.alive
    then (t, completes)
    else if not r.read
    then (t, leaves)
    else if leb c.max_extend_count t.extension_count
    then (t, completes)
    else after_extension c r.reread end_time t (
        update_task_extension c.max_extend_count c.extend_step_min (codes "smart_extend") r.written
          (some t))

-- What wakes the monitor: a cancelled context, the timer, or a new end time. That comes from `UpdateTask`,
-- which stores it in the row as well, if the write succeeds.
pub data Event : Type 0 where
  cancels : Event
  moves : (new_end : ℕ) (written : Bool) → Event
  fires : Reached → Event

pub data End : Type 0 where
  completed left cancelled waiting : End

unfoldable pub moved : ℕ → Bool → Task → Task
moved new_end written t = if written then record t { end_time = new_end } else t

-- The loop of `monitorTask` over the events, by the outcome of the timer's branch.
unfoldable pub monitor : SmartEnd → ℕ → Task → List Event → Task × End
unfolding moved
monitor c end_time t [] = (t, waiting)
monitor c end_time t (cancels ∷ es) = (t, cancelled)
monitor c end_time t (moves new_end written ∷ es) = monitor c new_end (moved new_end written t) es
monitor c end_time t (fires r ∷ es) =
    let (t', outcome) = handle_end_time_reached c r end_time t in
    elim outcome [
      | completes ↦ (t', completed)
      | leaves ↦ (t', left)
      | goes_on new_end ↦ monitor c new_end t' es
    ]

-- The loop of `monitorTaskEndTimeOnly`, where the timer completes the task.
unfoldable pub monitor_end_time_only : Task → List Event → Task × End
unfolding moved
monitor_end_time_only t [] = (t, waiting)
monitor_end_time_only t (cancels ∷ es) = (t, cancelled)
monitor_end_time_only t (moves new_end written ∷ es) =
    monitor_end_time_only (moved new_end written t) es
monitor_end_time_only t (fires r ∷ es) = (t, completed)

unfoldable pub monitor_task : SmartEnd → Task → List Event → Task × End
unfolding monitor monitor_end_time_only
monitor_task c t es = if c.enabled then monitor c t.end_time t es else monitor_end_time_only t es
