-- ===== src/Scheduler/Complete.antt =====
-- completeTask, CancelTaskExecution and releaseHuaweiDevice (video_scheduler.go), on all that the
-- scheduler and its services keep of a task. The goroutines of other tasks take no step in between.
pub mod Ends
use video_meeting_recorder.Common.{
  ℕ, Bool, true, false, not, ◌&&◌, Option, none, some, List, [], ◌∷◌, ◌++◌, Text, codes, is_empty,
  if◌then◌else◌,
}
use video_meeting_recorder.Errors.{Result, ok, err}
use video_meeting_recorder.Task.{Task, TaskInputConfig, converting, failed}
use video_meeting_recorder.Terminal.{disconnect_from_conference, unlock_terminal_by_task_id}
use video_meeting_recorder.Recorder.Registry.{Coordinator, stop_recording}
use video_meeting_recorder.Scheduler.{Cron, Scheduler, remove_task}
use video_meeting_recorder.Scheduler.Execute.{World, Write, Disconnect, set_status, any_huawei_auto}
use video_meeting_recorder.Scheduler.Runs.{Runs, cancel}

pub data Format : Type 0 where
  mkv mp4 : Format

-- What the surroundings answer, in the order of the code. `task_configs` is empty when its query fails,
-- whose error is not looked at; `has_files` and `has_conversions` are that the service is there.
pub record Closing : Type 0 where
  pub task_configs : List TaskInputConfig
  pub found : Bool
  pub has_connector : Bool
  pub disconnect : Disconnect
  pub to_converting : Write
  pub has_files : Bool
  pub has_conversions : Bool
  pub submitted : Bool
  pub to_failed : Write
  pub lock_read : Bool
  pub lock_saved : Bool

-- The files for which a record was asked.
unfoldable pub files_of : Task → List (ℕ × Format)
files_of t =
    (if is_empty t.mkv_file_path then [] else (t.id, mkv) ∷ [])
    ++ (if is_empty t.mp4_file_path then [] else (t.id, mp4) ∷ [])

module _ (C : Cron) where
  -- `files` are the records asked of the file service, and `conversions` the tasks submitted to the
  -- conversion service, both newest last.
  pub record System : Type 0 where
    pub world : World
    pub scheduler : Scheduler C
    pub runs : Runs
    pub files : List (ℕ × Format)
    pub conversions : List ℕ

  unfoldable pub load : Bool → System → Option Task
  load found s = if found then s.world.task else none

  unfoldable pub disconnect_task : Closing → Task → System → System
  disconnect_task x t s = record s {
    world = record s.world {
      configs =
          (disconnect_from_conference x.disconnect.read x.disconnect.unlock_read
            x.disconnect.unlock_saved t s.world.configs).1;
    };
  }

  unfoldable pub stop_all : ℕ → System → System
  stop_all task_id s = record s {
    world = record s.world { coordinator = stop_recording s.world.coordinator task_id };
  }

  unfoldable pub create_files : Closing → Task → System → System
  unfolding files_of
  create_files x t s = if x.has_files then record s { files = s.files ++ files_of t } else s

  unfoldable pub has_conversion : Closing → Task → Bool
  has_conversion x t = x.has_conversions && not (is_empty t.mkv_file_path)

  -- SubmitConversion puts the task into the queue; the columns of the conversion that it also writes are in
  -- the rows of the module Conversion, not in this one.
  unfoldable pub submit : Closing → ℕ → Task → System → System
  unfolding has_conversion
  submit x task_id t s =
      if has_conversion x t then record s { conversions = s.conversions ++ task_id ∷ [] } else s

  -- A failed submission is a failed task.
  unfoldable pub after_submit : Closing → Task → System → System
  unfolding has_conversion set_status
  after_submit x t s =
      if has_conversion x t && not x.submitted
      then record s { world = (set_status x.to_failed failed (codes "提交转换任务失败") s.world).1 }
      else s

  unfoldable pub leave_conference : Closing → Task → System → System
  unfolding any_huawei_auto disconnect_task
  leave_conference x t s =
      if x.has_connector && any_huawei_auto x.task_configs then disconnect_task x t s else s

  -- The conference, the recordings, the status and the entry, in that order.
  unfoldable pub wind_up : Closing → ℕ → System → System
  unfolding stop_all set_status remove_task
  wind_up x task_id s =
      let quiet = stop_all task_id s in
      record quiet {
        world = (set_status x.to_converting converting [] quiet.world).1;
        scheduler = (remove_task C task_id quiet.scheduler).1;
      }

  unfoldable pub complete_loaded : Closing → ℕ → Option Task → System → System
  unfolding leave_conference wind_up create_files submit after_submit
  complete_loaded x task_id none s = wind_up x task_id s
  complete_loaded x task_id (some t) s =
      after_submit x t
        (submit x task_id t (create_files x t (wind_up x task_id (leave_conference x t s))))

  unfoldable pub complete_task : Closing → ℕ → System → System
  unfolding load complete_loaded
  complete_task x task_id s = complete_loaded x task_id (load x.found s) s

  unfoldable pub release_loaded : Closing → ℕ → Task → System → System
  unfolding any_huawei_auto disconnect_task create_files submit
  release_loaded x task_id t s =
      let left : System = if any_huawei_auto x.task_configs then disconnect_task x t s else s in
      submit x task_id t (create_files x t left)

  -- Without the task, the terminal that it holds is unlocked.
  unfoldable pub release_from : Closing → ℕ → Option Task → System → System
  unfolding release_loaded unlock_terminal_by_task_id
  release_from x task_id (some t) s = release_loaded x task_id t s
  release_from x task_id none s = record s {
    world = record s.world {
      configs = (unlock_terminal_by_task_id x.lock_read x.lock_saved task_id s.world.configs).1;
    };
  }

  unfoldable pub release_huawei_device : Closing → ℕ → System → System
  unfolding stop_all load release_from
  release_huawei_device x task_id s =
      let quiet = stop_all task_id s in release_from x task_id (load x.found quiet) quiet

  unfoldable pub unschedule : ℕ → Bool → System → System
  unfolding remove_task
  unschedule task_id has_cancel s =
      if has_cancel then record s { scheduler = (remove_task C task_id s.scheduler).1 } else s

  unfoldable pub cancel_task_execution : Closing → ℕ → System → System
  unfolding cancel stop_all unschedule release_huawei_device
  cancel_task_execution x task_id s =
      let (has_cancel, runs) = cancel task_id s.runs in
      let quiet = stop_all task_id (record s { runs = runs }) in
      let removed = unschedule task_id has_cancel quiet in
      if x.has_connector then release_huawei_device x task_id removed else removed
