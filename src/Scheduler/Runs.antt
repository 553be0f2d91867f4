-- ===== src/Scheduler/Runs.antt =====
-- The goroutines of executeTask and monitorTask (video_scheduler.go), and the maps by which they are
-- found. Each method is the part of it that holds the scheduler's mutex. A run is one call of
-- executeTask that goes past its first test, with the monitor it starts; it has a number, and its
-- context is cancelled or not.
pub mod Cancel
use video_meeting_recorder.Common.{
  ℕ, suc, Bool, true, false, not, Option, none, some, List, [], ◌∷◌, contains, if◌then◌else◌,
}
use video_meeting_recorder.Common.Maps.{Map, lookup, insert, delete, has_key}
use video_meeting_recorder.Common.Clock.{after}
use video_meeting_recorder.Errors.{
  Result, ok, err, internal, invalid_input, task_in_progress, insufficient_quota,
}
use video_meeting_recorder.Task.{Task, pending, same_status}

-- `cancel_funcs` gives the run whose context a task's function cancels, `task_update_chans` the run that
-- reads the channel, and `channels` what the channel of a run holds. `live` is the task of each run that
-- has not ended, `cancelled` the runs whose context is cancelled, and `next` the number of the next run.
pub record Runs : Type 0 where
  pub executing : Map Bool
  pub cancel_funcs : Map ℕ
  pub task_end_times : Map ℕ
  pub task_update_chans : Map ℕ
  pub channels : Map (Option ℕ)
  pub live : Map ℕ
  pub cancelled : List ℕ
  pub next : ℕ

-- A key that is missing is `false`.
unfoldable pub is_executing : ℕ → Runs → Bool
unfolding lookup
is_executing task_id s = elim (lookup task_id s.executing) [ none ↦ false | some b ↦ b ]

-- The first test of executeTask, and the registration.
unfoldable pub begin : ℕ → Runs → Runs
unfolding is_executing insert
begin task_id s = if is_executing task_id s then s else record s {
  executing = insert task_id true s.executing;
  cancel_funcs = insert task_id s.next s.cancel_funcs;
  live = insert s.next task_id s.live;
  next = suc s.next;
}

-- The deferred function of an executeTask that returns before its monitor.
unfoldable pub end_early : ℕ → Runs → Runs
unfolding lookup delete
end_early run s = elim (lookup run s.live) [
  | none ↦ s
  | some task_id ↦ record s {
    executing = delete task_id s.executing;
    cancel_funcs = delete task_id s.cancel_funcs;
    live = delete run s.live;
  }
]

unfoldable pub begin_monitor : ℕ → ℕ → Runs → Runs
unfolding lookup insert
begin_monitor run end_time s = elim (lookup run s.live) [
  | none ↦ s
  | some task_id ↦ record s {
    channels = insert run none s.channels;
    task_update_chans = insert task_id run s.task_update_chans;
    task_end_times = insert task_id end_time s.task_end_times;
  }
]

-- The deferred function of monitorTask.
unfoldable pub end_monitor : ℕ → Runs → Runs
unfolding lookup delete
end_monitor run s = elim (lookup run s.live) [
  | none ↦ s
  | some task_id ↦ record s {
    task_update_chans = delete task_id s.task_update_chans;
    task_end_times = delete task_id s.task_end_times;
    executing = delete task_id s.executing;
    cancel_funcs = delete task_id s.cancel_funcs;
    live = delete run s.live;
  }
]

-- What CancelTaskExecution does with the maps and the context; the result is `hasCancel`.
unfoldable pub cancel : ℕ → Runs → Bool × Runs
unfolding lookup delete
cancel task_id s = elim (lookup task_id s.cancel_funcs) [
  | none ↦ (false, s)
  | some run ↦ (
    true,
    record s {
      cancel_funcs = delete task_id s.cancel_funcs;
      executing = delete task_id s.executing;
      cancelled = run ∷ s.cancelled;
    },
  )
]

-- A send that does not wait: the channel has room for one value.
unfoldable pub send : ℕ → ℕ → Runs → Result (Unit {0}) × Runs
unfolding lookup insert
send run time s = elim (lookup run s.channels) [
  | none ↦ (err insufficient_quota, s)
  | some content ↦ elim content [
    | some earlier ↦ (err insufficient_quota, s)
    | none ↦ (ok tt, record s { channels = insert run (some time) s.channels })
  ]
]

unfoldable pub update_task_end_time : ℕ → ℕ → Runs → Result (Unit {0}) × Runs
unfolding is_executing lookup insert send
update_task_end_time task_id time s =
    if not (is_executing task_id s)
    then (err invalid_input, s)
    else elim (lookup task_id s.task_update_chans) [
      | none ↦ (err internal, s)
      | some run ↦
          send run time (record s { task_end_times = insert task_id time s.task_end_times })
    ]

-- The monitor of a run takes what its channel holds.
unfoldable pub receive : ℕ → Runs → Option ℕ × Runs
unfolding lookup insert
receive run s = elim (lookup run s.channels) [
  | none ↦ (none, s)
  | some content ↦ (content, record s { channels = insert run none s.channels })
]

-- `ExecuteTask`: the checks before the goroutine, which is `begin`. `loaded` is the task that GetTask
-- returns.
unfoldable pub execute_task_now : ℕ → Option Task → ℕ → Runs → Result (Unit {0})
unfolding is_executing same_status
execute_task_now now loaded task_id s =
    if is_executing task_id s then err task_in_progress else elim loaded [
      | none ↦ err internal
      | some t ↦
          if not (same_status t.status pending)
          then err invalid_input
          else if after now t.end_time
          then err invalid_input
          else ok tt
    ]
