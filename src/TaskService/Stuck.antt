-- ===== src/TaskService/Stuck.antt =====
-- `ClearStuckTasks` (video_recording_task_service.go) on the tables that it changes. A time-out whose
-- nanoseconds do not fit in 64 bits is not considered.
pub mod Fate
use video_meeting_recorder.Common.{
  ℕ, ◌+◌, ◌*◌, Bool, true, false, not, ◌&&◌, none, contains, List, [], ◌∷◌, ◌++◌, Text, codes,
  length, take, ltb, ◌==◌, if◌then◌else◌,
}
use video_meeting_recorder.Common.Int.{ℤ, pos, negsuc}
use video_meeting_recorder.Common.Clock.{minute}
use video_meeting_recorder.Common.Maps.{Map, insert}
use video_meeting_recorder.Errors.{Result, ok, err, external}
use video_meeting_recorder.Task.{Task, converting, failed, same_status}
use video_meeting_recorder.InputConfig.{InputConfig}
use video_meeting_recorder.Conversion.{ConversionStatus}
use video_meeting_recorder.TaskService.Delete.{config_ids, is_nil, row_limit}

-- A row of the tasks, with the columns that the other calls do not read.
pub record Row : Type 0 where
  pub task : Task
  pub updated_at : ℕ
  pub conversion_status : ConversionStatus
  pub conversion_error_msg : Text

pub record Tables : Type 0 where
  pub rows : Map Row
  pub configs : Map InputConfig
  pub links : List (ℕ × ℕ)

pub record ClearStuckTasksResult : Type 0 where
  pub cleared_task_ids : List ℕ
  pub unlocked_config_ids : List ℕ
  pub total_cleared : ℕ
  pub total_unlocked : ℕ

-- What the database answers: the first query, and for a task the save, the query of its configurations
-- and the update of their locks. `message` is the text for a number of minutes.
pub record Answers : Type 0 where
  pub found : Bool
  pub saved : ℕ → Bool
  pub linked : ℕ → Bool
  pub freed : ℕ → Bool
  pub message : ℕ → Text

unfoldable pub timeout_or_default : ℤ → ℕ
timeout_or_default (pos n) = if n == 0 then 30 else n
timeout_or_default (negsuc n) = 30

-- The row was written before the time-out.
unfoldable pub is_stuck : ℕ → ℕ → Row → Bool
unfolding same_status
is_stuck minutes now r =
    same_status r.task.status converting && ltb (r.updated_at + minutes * minute) now

unfoldable pub stuck : ℕ → ℕ → Map Row → Map Row
unfolding is_stuck
stuck minutes now [] = []
stuck minutes now ((k, r) ∷ db) =
    let rest = stuck minutes now db in if is_stuck minutes now r then (k, r) ∷ rest else rest

-- The whole row is saved; gorm writes the time.
unfoldable pub cleared : Answers → ℕ → ℕ → Row → Row
cleared a minutes now r = record {
  task = record r.task { status = failed; error_msg = a.message minutes };
  updated_at = now;
  conversion_status = ConversionStatus.failed;
  conversion_error_msg = codes "任务被清理";
}

-- The update of the locks of the configurations with these numbers.
unfoldable pub unlock_configs : List ℕ → Map InputConfig → Map InputConfig
unlock_configs ids [] = []
unlock_configs ids ((k, c) ∷ db) =
    let rest = unlock_configs ids db in
    (
      k,
      if contains k ids
          then record c { is_locked = false; locked_by = none; locked_at = none }
          else c,
    )
    ∷ rest

unfoldable pub unlock_all :
    Answers → ℕ → ClearStuckTasksResult × Tables → ClearStuckTasksResult × Tables
unfolding config_ids unlock_configs is_nil
unlock_all a id (result, s) =
    let ids = config_ids (id ∷ []) s.links in
    if a.linked id && not (is_nil ids) && a.freed id
    then (
      record result { unlocked_config_ids = result.unlocked_config_ids ++ ids },
      record s { configs = unlock_configs ids s.configs },
    )
    else (result, s)

unfoldable pub clear_one :
    Answers → ℕ → ℕ → ℕ × Row → ClearStuckTasksResult × Tables → ClearStuckTasksResult × Tables
unfolding cleared unlock_all insert
clear_one a minutes now (id, r) (result, s) =
    if a.saved id
    then unlock_all a id (
      record result { cleared_task_ids = result.cleared_task_ids ++ id ∷ [] },
      record s { rows = insert id (cleared a minutes now r) s.rows },
    )
    else (result, s)

unfoldable pub clear_each :
    Answers → ℕ → ℕ → Map Row → ClearStuckTasksResult × Tables → ClearStuckTasksResult × Tables
unfolding clear_one
clear_each a minutes now [] x = x
clear_each a minutes now (r ∷ rs) x = clear_each a minutes now rs (clear_one a minutes now r x)

abbrev pub nothing_cleared : ClearStuckTasksResult
nothing_cleared = record {
  cleared_task_ids = [];
  unlocked_config_ids = [];
  total_cleared = 0;
  total_unlocked = 0;
}

unfoldable pub with_totals : ClearStuckTasksResult → ClearStuckTasksResult
with_totals r = record r {
  total_cleared = length r.cleared_task_ids;
  total_unlocked = length r.unlocked_config_ids;
}

unfoldable pub clear_stuck_tasks : Answers → ℕ → ℤ → Tables → Result ClearStuckTasksResult × Tables
unfolding clear_each stuck with_totals timeout_or_default
clear_stuck_tasks a now timeout_minutes s =
    let minutes = timeout_or_default timeout_minutes in
    let done =
      clear_each a minutes now (take row_limit (stuck minutes now s.rows)) (nothing_cleared, s) in
    if not a.found then (err external, s) else (ok (with_totals done.0), done.1)
