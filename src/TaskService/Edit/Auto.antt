-- ===== src/TaskService/Edit/Auto.antt =====
-- CreateTaskAuto of video_recording_task_service.go: what becomes of a request.
use video_meeting_recorder.Common.{
  ℕ, ◌≡◌, refl, Option, none, [], Text, arith, Option-cases, ◌⊎◌, inl, inr,
}
use video_meeting_recorder.Common.Int.{ℤ}
use video_meeting_recorder.Common.Maps.{Map}
use video_meeting_recorder.Errors.{ok, err, invalid_input}
use video_meeting_recorder.Task.{Task, has_input_config, is_valid}
use video_meeting_recorder.InputConfig.{InputConfig}
use video_meeting_recorder.TaskService.Edit.{
  Store, CreateTaskRequest, Answers, read_time, check_first, new_task, build_task, write_task,
  create_task, create_task_auto,
}

is_valid-no_config : (t : Task) → t.input_config_id ≡ none → is_valid t ≡ err invalid_input
unfolding is_valid has_input_config
is_valid-no_config t h = ground arith

read_time-cases :
    (parse : Text → Option ℕ) (t : Text)
    → (read_time parse t ≡ err invalid_input) ⊎ ((n : ℕ) × (read_time parse t ≡ ok n))
unfolding read_time
read_time-cases parse t = elim (Option-cases (parse t)) [
  | inl e ↦ inl (rw (e, read_time))
  | inr (n, e) ↦ inr (n, rw (e, read_time))
]

abbrev without_configs : CreateTaskRequest → CreateTaskRequest
without_configs q = record q { input_config_ids = [] }

build_task-without_configs :
    (parse : Text → Option ℕ) (a : Answers) (id created_by : ℕ) (q : CreateTaskRequest)
    (configs : Map InputConfig)
    → build_task parse a id created_by (without_configs q) configs ≡ err invalid_input
unfolding build_task check_first new_task
build_task-without_configs parse a id created_by q configs =
    elim (read_time-cases parse q.start_time) [
      | inl e ↦ rw e
      | inr (start_time, e) ↦ rw e (elim (read_time-cases parse q.end_time) [
        | inl f ↦ rw f
        | inr (end_time, f) ↦ rw (
          f,
          is_valid-no_config (new_task id created_by (without_configs q) start_time end_time none)
              refl,
        )
      ])
    ]

-- CreateTaskAuto makes no task of any request: the caller gets the error of an invalid input, and the
-- tables and the scheduler stay as they were.
pub create_task_auto_refused :
    (parse : Text → Option ℕ) (stored : ℤ → ℤ) (a : Answers) (id created_by : ℕ)
    (q : CreateTaskRequest) (s : Store)
    → create_task_auto parse stored a id created_by q s ≡ (err invalid_input, s)
unfolding create_task_auto create_task write_task
create_task_auto_refused parse stored a id created_by q s =
    rw (build_task-without_configs parse a id created_by q s.configs)
