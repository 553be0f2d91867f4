-- ===== src/TaskService.antt =====
-- internal/services/video_recording_task_service.go: the calls that change the status or the times of
-- a task. `none` is a task that the database does not find; `saved` is whether the write succeeds. The
-- calls of the scheduler whose errors are only logged are calls of its own model.
pub mod Guards
pub mod StopAfterRetry
pub mod Delete
pub mod Edit
pub mod Stuck
mod Examples
use video_meeting_recorder.Common.{
  ℕ, suc, ◌+◌, ◌-◌, ◌*◌, Bool, true, false, not, ◌&&◌, ◌||◌, Option, none, some, List, [], Text,
  is_empty, leb, ◌==◌, if◌then◌else◌,
}
use video_meeting_recorder.Common.Int.{ℤ, pos, negsuc}
use video_meeting_recorder.Common.Clock.{minute}
use video_meeting_recorder.Errors.{
  Error, Result, ok, err, invalid_input, forbidden, internal, external, task_not_found,
  task_in_progress, recording_smart_extend, ◌>>=◌,
}
use video_meeting_recorder.Task.{
  Status, pending, connecting, recording, converting, failed, cancelled, Task, same_status,
}

pub record Caller : Type 0 where
  pub user_id : ℕ
  pub has_shared_viewer : Bool

-- The caller made the task, or may share it.
unfoldable pub may_touch : Caller → Task → Bool
may_touch u t = u.has_shared_viewer || t.created_by == u.user_id

unfoldable pub save : Bool → Task → Result Task
save saved t = if saved then ok t else err external

unfoldable pub find_task : Option Task → Result Task
find_task none = err task_not_found
find_task (some t) = ok t

-- `StopTask`: `reloaded` is the task after the scheduler has cancelled its execution.
unfoldable pub stopped : Bool → Task → Task
stopped was_recording t =
    if not (is_empty t.mkv_file_path) || was_recording
    then record t { status = converting }
    else record t { status = cancelled }

unfoldable pub stop_task : Caller → Option Task → Option Task → Bool → Result Task
unfolding may_touch save find_task stopped same_status
stop_task u found reloaded saved = find_task found >>= λ t.
    if not (may_touch u t)
    then err forbidden
    else if not (same_status t.status recording) && not (same_status t.status connecting)
    then err invalid_input
    else elim reloaded [
      | none ↦ err external
      | some t' ↦ save saved (stopped (same_status t.status recording) t')
    ]

unfoldable pub cancel_task : Caller → Option Task → Bool → Result Task
unfolding may_touch save find_task same_status
cancel_task u found saved = find_task found >>= λ t.
    if not (may_touch u t)
    then err forbidden
    else if not (same_status t.status pending) && not (same_status t.status connecting)
    then err invalid_input
    else save saved (record t { status = cancelled })

-- time.Time.Add of a number of minutes; a result before the epoch is cut to 0.
unfoldable pub add_minutes : ℕ → ℤ → ℕ
add_minutes t (pos m) = t + m * minute
add_minutes t (negsuc m) = t - suc m * minute

-- The reset of `RetryTask`. The duration is that before the change; a task whose end precedes its
-- start, which the code does not create, is taken to last 0.
unfoldable pub retried : ℕ → Task → Task
unfolding add_minutes
retried now t =
    let start = add_minutes (now + minute) t.pre_join_minutes in
    record t {
      status = pending;
      error_msg = [];
      recording_file = [];
      recording_duration = 0;
      start_time = start;
      end_time = start + (t.end_time - t.start_time);
    }

unfoldable pub retry_task : Caller → ℕ → Option Task → Bool → Result Task
unfolding may_touch save find_task retried same_status
retry_task u now found saved = find_task found >>= λ t.
    if not (may_touch u t)
    then err forbidden
    else if not (same_status t.status failed)
    then err invalid_input
    else save saved (retried now t)

-- `StartTask` asks the scheduler, whose answer is `execute`; only the creator may start.
unfoldable pub start_task : Caller → Option Task → Result (Unit {0}) → Result Task
unfolding find_task same_status
start_task u found execute = find_task found >>= λ t.
    if not (t.created_by == u.user_id)
    then err forbidden
    else if not (same_status t.status pending)
    then err invalid_input
    else execute >>= λ _. ok t

-- `DeleteTask` up to the deletion: the task that may go.
unfoldable pub delete_task : ℕ → Bool → Option Task → Bool → Result Task
unfolding find_task save same_status
delete_task user_id is_admin found saved = find_task found >>= λ t.
    if same_status t.status recording || same_status t.status connecting
    then err task_in_progress
    else if not is_admin && not (t.created_by == user_id)
    then err forbidden
    else save saved t

-- The fields that `UpdateTaskStatus` writes.
unfoldable pub update_task_status : Status → Text → Task → Task
update_task_status status error_msg t =
    if is_empty error_msg
    then record t { status = status }
    else record t { status = status; error_msg = error_msg }

unfoldable pub update_task_extension : ℕ → ℤ → Text → Bool → Option Task → Result Task
unfolding add_minutes
update_task_extension max_extend_count delta_min reason saved none = err internal
update_task_extension max_extend_count delta_min reason saved (some t) =
    if leb max_extend_count t.extension_count
    then err recording_smart_extend
    else if saved
    then ok (record t {
      end_time = add_minutes t.end_time delta_min;
      extension_count = t.extension_count + 1;
      last_extension_reason = reason;
    })
    else err internal
