-- ===== src/TaskService/Examples.antt =====
-- Witnesses and tests of the task service.
use video_meeting_recorder.Common.{
  contains, ◌+◌, ◌≤◌, ◌<◌, ◌⊎◌, arith, ℕ, Text, Option, none, ◌*◌, ◌≡◌, refl, true, false, [], ◌∷◌,
  some, codes, inl,
}
use video_meeting_recorder.Common.Clock.{hour, minute}
use video_meeting_recorder.Common.Maps.{lookup}
use video_meeting_recorder.Common.Int.{pos}
use video_meeting_recorder.Errors.{ok, err, invalid_input, ◌>>=◌}
use video_meeting_recorder.Task.{ConfigType, is_valid, converting, recording, failed, Task}
use video_meeting_recorder.TaskService.{Caller, retried}
use video_meeting_recorder.Fixtures.{meeting, room}
use video_meeting_recorder.TaskService.Delete.{Tables, batch_delete_tasks}
use video_meeting_recorder.Conversion.{ConversionStatus}
use video_meeting_recorder.TaskService.Stuck
use video_meeting_recorder.TaskService.Stuck.{Row, stuck, timeout_or_default, clear_stuck_tasks}
use video_meeting_recorder.TaskService.Stuck.Fate
use video_meeting_recorder.TaskService.Stuck.Fate.{clear_stuck_tasks_lem}
use video_meeting_recorder.TaskService.Edit.{
  Store, Answers, CreateTaskRequest, UpdateTaskRequest, UpdateAnswers, create_task,
  create_task_auto, update_task,
}
use video_meeting_recorder.TaskService.Edit.Auto.{create_task_auto_refused}
use video_meeting_recorder.TaskService.Edit.Limits.{OnlyEnd, update_task-recording}
use video_meeting_recorder.TaskService.Delete.Running.{Distinct, running_kept}

abbrev owner : Caller
owner = record { user_id = 5; has_shared_viewer = false }

-- The meeting after a recording that failed.
abbrev broken : Task
broken = record meeting {
  status = failed;
  mkv_file_path = codes "standup.mkv";
  error_msg = codes "exit";
}

abbrev again : Task
again = retried (102 * hour) broken

-- The meeting, and the room, which task 4 holds.
abbrev tables : Tables
tables = record {
  tasks = (12, meeting) ∷ (4, record meeting { id = 4; status = recording }) ∷ [];
  configs = (3, record room { is_locked = true; locked_by = some 4; locked_at = some 100 }) ∷ [];
  links = (12, 3) ∷ (4, 3) ∷ [];
}

tables-Distinct : Distinct tables.tasks
unfolding Distinct lookup
tables-Distinct = (refl, (refl, tt))

running_kept_example :
    lookup 4
      (batch_delete_tasks 5 true true
        (record { links_read = true; freed = true; deleted = true })
        (4 ∷ 12 ∷ [])
        tables).1.tasks
    ≡ some (record meeting { id = 4; status = recording })
unfolding lookup
running_kept_example =
    running_kept 5 true true (record { links_read = true; freed = true; deleted = true })
      (4 ∷ 12 ∷ []) tables 4 (record meeting { id = 4; status = recording }) tables-Distinct refl
      (inl refl)

-- Reads each text that is not empty as one hour.
abbrev parse : Text → Option ℕ
parse [] = none
parse (c ∷ text) = some (103 * hour)

abbrev answers : Answers
answers = record { config_read = true; written = true; linked = true }

abbrev live : Task
live = record meeting { id = 4; status = recording }

-- The meeting, and one that is being recorded.
abbrev both : Store
both = record { tasks = (12, meeting) ∷ (4, live) ∷ []; configs = (3, room) ∷ []; notified = [] }

-- Another name and another end.
abbrev longer : UpdateTaskRequest
longer = record {
  name = some (codes "retro");
  start_time = none;
  end_time = some (codes "103");
  pre_join_minutes = none;
  record_delay_minutes = none;
  input_config_ids = some (3 ∷ []);
}

abbrev update_answers : UpdateAnswers
update_answers = record {
  fields_written = true;
  unlinked = true;
  primary_written = true;
  links = answers;
}

update_task-recording_example :
    OnlyEnd 4 live both (update_task parse update_answers 4 longer owner both).1
unfolding lookup
update_task-recording_example =
    update_task-recording parse update_answers 4 longer owner live both refl refl

-- The scheduler is told of the new end.
told_end : (update_task parse update_answers 4 longer owner both).1.notified ≡ (4, 103 * hour) ∷ []
unfolding update_task
told_end = refl

abbrev weekly : CreateTaskRequest
weekly = record {
  name = codes "weekly";
  start_time = codes "102";
  end_time = codes "103";
  pre_join_minutes = pos 2;
  record_delay_minutes = 0;
  conference_number = codes "9002";
  input_config_ids = 3 ∷ [];
}

create_task_auto_refused_example :
    create_task_auto parse (λ m. m) answers 13 5 weekly both ≡ (err invalid_input, both)
create_task_auto_refused_example = create_task_auto_refused parse (λ m. m) answers 13 5 weekly both

-- The same request with its configuration makes a task.
created_links :
    ((create_task parse (λ m. m) answers 13 5 weekly both).0 >>= λ t. ok t.task_input_configs)
    ≡ ok (record { input_config_id = 3; config_type = ConfigType.huawei_auto } ∷ [])
unfolding create_task is_valid
created_links = refl

-- A recording that is being converted since an hour, and shares its terminal with task 4.
abbrev old_row : Row
old_row = record {
  task = record meeting { status = converting };
  updated_at = 10 * hour;
  conversion_status = ConversionStatus.processing;
  conversion_error_msg = [];
}

abbrev stuck_tables : Stuck.Tables
stuck_tables = record {
  rows = (12, old_row) ∷ [];
  configs = (3, record room { is_locked = true; locked_by = some 4; locked_at = some 100 }) ∷ [];
  links = (12, 3) ∷ (4, 3) ∷ [];
}

abbrev all_answers : Stuck.Answers
all_answers = record {
  found = true;
  saved = λ id. true;
  linked = λ id. true;
  freed = λ id. true;
  message = λ minutes. codes "stuck";
}

stuck_tables-Distinct : Fate.Distinct stuck_tables.rows
unfolding Fate.Distinct lookup
stuck_tables-Distinct = (refl, tt)

clear_stuck_tasks_lem_example :
    let after =
      lookup 12 (clear_stuck_tasks all_answers (11 * hour) (pos 30) stuck_tables).1.rows in
    (converting ≡ converting
      → 10 * hour + 30 * minute < 11 * hour
      → (r' : Row) × (after ≡ some r')
        × (r'.task ≡ record meeting { status = failed; error_msg = codes "stuck" })
        × (r'.conversion_status ≡ ConversionStatus.failed))
    × ((converting ≡ converting → ⊥) ⊎ (11 * hour ≤ 10 * hour + 30 * minute) → after ≡ some old_row)
unfolding lookup
clear_stuck_tasks_lem_example =
    clear_stuck_tasks_lem all_answers (11 * hour) 30 12 old_row stuck_tables stuck_tables-Distinct
      (omega arith) refl (λ id. refl) (omega arith) refl

-- The row is cleared, and the lock of the other task is gone.
cleared_ids :
    (clear_stuck_tasks all_answers (11 * hour) (pos 0) stuck_tables).0
    ≡ ok (record {
      cleared_task_ids = 12 ∷ [];
      unlocked_config_ids = 3 ∷ [];
      total_cleared = 1;
      total_unlocked = 1;
    })
unfolding clear_stuck_tasks contains
cleared_ids = refl
