-- ===== src/TaskService/Edit/Stored.antt =====
-- UpdateTask of video_recording_task_service.go: it writes the fields before it checks the task.
use video_meeting_recorder.Common.{ℕ, ◌<◌, ◌≡◌, refl, ap, true, Option, none, some, Text, arith}
use video_meeting_recorder.Common.Maps.{lookup, insert}
use video_meeting_recorder.Errors.{ok, err, invalid_input}
use video_meeting_recorder.Task.{Task, pending, recording, same_status, is_valid}
use video_meeting_recorder.TaskService.{Caller, may_touch}
use video_meeting_recorder.TaskService.Edit.{
  Store, UpdateTaskRequest, UpdateAnswers, given, read_time, given_time, with_fields, new_end,
  changed, notify, told, put_task, checked, write_changes, update_changed, update_found,
  update_task,
}

-- The request that changes the start alone.
abbrev pub only_start : Text → UpdateTaskRequest
only_start text = record {
  name = none;
  start_time = some text;
  end_time = none;
  pre_join_minutes = none;
  record_delay_minutes = none;
  input_config_ids = none;
}

abbrev with_start : Task → ℕ → Task
with_start t n = record t { start_time = n }

is_valid-late : (t : Task) (n : ℕ) → t.end_time < n → is_valid (with_start t n) ≡ err invalid_input
unfolding is_valid
is_valid-late t n h = ground arith

changed-only_start :
    (parse : Text → Option ℕ) (text : Text) (t : Task) (n : ℕ)
    → t.status ≡ pending
    → parse text ≡ some n
    → changed parse (only_start text) t ≡ ok (with_start t n)
unfolding changed with_fields new_end given_time given same_status
changed-only_start parse text t n p h = rw (p, h, read_time) refl

-- A caller who may touch a pending task moves its start behind its end, and the database answers: the
-- call ends with the error of an invalid input, and the new start is in the table all the same.
pub update_task_stores_late :
    (parse : Text → Option ℕ) (a : UpdateAnswers) (id : ℕ) (text : Text) (u : Caller) (t : Task)
    (n : ℕ) (s : Store)
    → lookup id s.tasks ≡ some t
    → t.status ≡ pending
    → may_touch u t ≡ true
    → parse text ≡ some n
    → t.end_time < n
    → a.fields_written ≡ true
    → update_task parse a id (only_start text) u s
      ≡ (err invalid_input, record s { tasks = insert id (with_start t n) s.tasks })
unfolding update_task update_found update_changed write_changes checked put_task notify told
    same_status
update_task_stores_late parse a id text u t n s l p m h late w =
    rw
      (
        l,
        m,
        changed-only_start parse text t n p h,
        w,
        ap (λ x. same_status x recording) p,
        ap (λ x. same_status x pending) p,
        is_valid-late t n late,
      )
      refl
