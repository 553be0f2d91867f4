-- ===== src/TaskService/StopAfterRetry.antt =====
-- A stop after a retry, where the retry keeps the MKV path of the failed run.
use video_meeting_recorder.Common.{ℕ, ◌≡◌, true, false, some, [], arith, is_empty}
use video_meeting_recorder.Errors.{ok}
use video_meeting_recorder.Task.{connecting, converting, Task, can_transition_to}
use video_meeting_recorder.TaskService.{Caller, retry_task, stop_task, update_task_status}

-- A failed task with an MKV path that is retried and then stopped while it connects goes from
-- connecting to converting, which the status table does not allow.
pub stop_after_retry :
    (u : Caller) (now : ℕ) (t p t' : Task)
    → is_empty t.mkv_file_path ≡ false
    → retry_task u now (some t) true ≡ ok p
    → let c = update_task_status connecting [] p in
      stop_task u (some c) (some c) true ≡ ok t'
      → (c.status ≡ connecting)
        × (t'.status ≡ converting)
        × (can_transition_to c.status t'.status ≡ false)
unfolding retry_task stop_task update_task_status can_transition_to
stop_after_retry u now t p t' m r s = (ground arith, ground arith, ground arith)
