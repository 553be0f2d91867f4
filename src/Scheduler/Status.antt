-- ===== src/Scheduler/Status.antt =====
-- `updateTaskStatus` (video_scheduler.go): the scheduler's only way to change a status.
use video_meeting_recorder.Common.{Bool, not, Option, none, some, Text, if◌then◌else◌}
use video_meeting_recorder.Errors.{Result, ok, err, external, invalid_input}
use video_meeting_recorder.Task.{Status, Task, can_transition_to}
use video_meeting_recorder.TaskService

-- `loaded` is the task that the database returns, `written` whether the write succeeds. The code reads, tests
-- and writes without a lock or a transaction; that another goroutine writes between is not considered.
unfoldable pub update_task_status : Option Task → Bool → Status → Text → Result Task
update_task_status none written status error_msg = err external
update_task_status (some t) written status error_msg =
    if not (can_transition_to t.status status)
    then err invalid_input
    else if written
    then ok (TaskService.update_task_status status error_msg t)
    else err external
