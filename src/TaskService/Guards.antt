-- ===== src/TaskService/Guards.antt =====
-- What a successful call of the task service says of the task before it.
use video_meeting_recorder.Common.{ℕ, ◌-◌, ◌≤◌, ◌<◌, ◌≡◌, Bool, true, some, arith, is_empty}
use video_meeting_recorder.Common.Int.{pos}
use video_meeting_recorder.Errors.{ok}
use video_meeting_recorder.Task.{
  pending, connecting, recording, converting, failed, cancelled, Task, can_transition_to,
}
use video_meeting_recorder.TaskService.{Caller, may_touch, cancel_task, retry_task, stop_task}

-- A cancellation that succeeds is by a caller who may touch the task, and follows the status table.
pub cancel_task_allowed :
    (u : Caller) (t t' : Task) (saved : Bool)
    → cancel_task u (some t) saved ≡ ok t'
    → (may_touch u t ≡ true)
      × (t'.status ≡ cancelled)
      × (can_transition_to t.status t'.status ≡ true)
unfolding cancel_task can_transition_to
cancel_task_allowed u t t' saved h = ground arith

-- A retry that succeeds, of a task with a pre-join time that is not negative and an end that is not
-- before its start, takes a failed task to pending, after the present, with its length kept.
pub retry_task_allowed :
    (u : Caller) (now pre : ℕ) (t t' : Task) (saved : Bool)
    → t.pre_join_minutes ≡ pos pre
    → t.start_time ≤ t.end_time
    → retry_task u now (some t) saved ≡ ok t'
    → (t.status ≡ failed)
      × (t'.status ≡ pending)
      × (now < t'.start_time)
      × (t'.end_time - t'.start_time ≡ t.end_time - t.start_time)
unfolding retry_task
retry_task_allowed u now pre t t' saved p o h = ground arith

-- A stop of a recording task leads to converting. A stop of a connecting task leads to cancelled if
-- no MKV path is stored.
pub stop_task_status :
    (u : Caller) (t r t' : Task) (saved : Bool)
    → stop_task u (some t) (some r) saved ≡ ok t'
    → (t.status ≡ recording → t'.status ≡ converting)
      × (t.status ≡ connecting → is_empty r.mkv_file_path ≡ true → t'.status ≡ cancelled)
unfolding stop_task
stop_task_status u t r t' saved h = (λ e. ground arith, λ e m. ground arith)
