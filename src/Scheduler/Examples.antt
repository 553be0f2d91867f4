-- ===== src/Scheduler/Examples.antt =====
-- Witnesses and tests of the scheduler.
use video_meeting_recorder.Common.{
  if◌then◌else◌, ℕ, ◌+◌, ◌*◌, ◌≤◌, ◌≡◌, refl, true, Option, none, some, List, [], ◌∷◌, codes,
  contains, ◌==◌, arith,
}
use video_meeting_recorder.Common.Int.{pos}
use video_meeting_recorder.Common.Maps.{lookup, has_key}
use video_meeting_recorder.Common.Clock.{minute, hour}
use video_meeting_recorder.Task.{Task}
use video_meeting_recorder.Scheduler.{Scheduler}
use video_meeting_recorder.Scheduler.Entries.{
  Synced, Answers, Call, adds, removes, syncs, run, run-Synced,
}
use video_meeting_recorder.Recorder.Source.{InputSourceType}
use video_meeting_recorder.Recorder.Stop.{idle}
use video_meeting_recorder.Scheduler.Launch.{Attempt, Launched, start_recordings}
use video_meeting_recorder.Scheduler.Monitor.{SmartEnd, fires, moves, monitor_task, completed}
use video_meeting_recorder.Scheduler.Monitor.Bounds.{UpTo, monitor_bounded}
use video_meeting_recorder.Scheduler.Monitor.Extends.{healthy, extends_then_completes}
use video_meeting_recorder.Fixtures.{meeting, entry_cron}

abbrev empty : Scheduler entry_cron
empty = record { cron = []; task_entries = []; entry_tasks = []; executions = []; expirations = [] }

empty-Synced : Synced entry_cron empty
unfolding lookup has_key contains
empty-Synced = record {
  forward = λ t e h. absurd (no_entry e h);
  backward = λ t e h. absurd (no_entry t h);
  registered = λ e. refl;
}
  where
    no_entry : (e : ℕ) → none ≡ some e → ⊥
    no_entry e h = cc

-- The database knows the meeting only.
abbrev answer : ℕ → Option Task
answer k = if k == 12 then some meeting else none

answer-Answers : Answers entry_cron answer
answer-Answers k t h = ground arith

abbrev calls : List (Call entry_cron)
calls =
    adds 0 meeting
    ∷ syncs 0 (some (meeting ∷ [])) answer (12 ∷ []) answer-Answers
    ∷ removes 12
    ∷ adds 0 meeting
    ∷ []

run-Synced_example : Synced entry_cron (run entry_cron empty calls)
run-Synced_example = run-Synced entry_cron empty calls empty-Synced

abbrev twice : SmartEnd
twice = record { enabled = true; max_extend_count = 2; extend_step_min = pos 10 }

monitor_bounded_example :
    let t' =
      (monitor_task twice meeting
        (fires healthy ∷ moves (102 * hour) true ∷ fires healthy ∷ [])).0 in
    (t'.extension_count ≤ 2) × (t'.end_time ≤ 102 * hour + 2 * (10 * minute))
unfolding UpTo
monitor_bounded_example =
    monitor_bounded twice 10 (102 * hour) meeting
      (fires healthy ∷ moves (102 * hour) true ∷ fires healthy ∷ []) refl (omega arith)
      (omega arith) (omega arith, tt)

extends_then_completes_example :
    let result = monitor_task twice meeting (fires healthy ∷ fires healthy ∷ fires healthy ∷ []) in
    (result.1 ≡ completed)
    × (result.0.extension_count ≡ 2)
    × (result.0.end_time ≡ 101 * hour + 2 * (10 * minute))
extends_then_completes_example = extends_then_completes 2 10 twice meeting [] refl refl refl

-- A camera that starts after a stream that does not.
abbrev attempts : List Attempt
attempts =
    record {
      config_id = 1;
      source = InputSourceType.stream;
      launch = record {
        directories = true;
        command = true;
        log_file = true;
        started = none;
        mkv_path = codes "hall.mkv";
        m3u8_path = codes "hall.m3u8";
      };
    }
    ∷ record {
      config_id = 2;
      source = InputSourceType.usb;
      launch = record {
        directories = true;
        command = true;
        log_file = true;
        started = some 40;
        mkv_path = codes "desk.mkv";
        m3u8_path = codes "desk.m3u8";
      };
    }
    ∷ []

abbrev launched : Launched
launched = start_recordings [] idle meeting attempts
