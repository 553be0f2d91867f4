-- ===== src/Conversion/Examples.antt =====
-- Witnesses and tests of the conversion service, on a directory with a recording of a camera, one of a
-- stream and an empty file.
use video_meeting_recorder.Common.{
  ◌*◌, ◌≡◌, refl, Bool, true, false, none, some, List, [], ◌∷◌, ◌++◌, Text, codes, text_eq,
  has_prefix, all, if◌then◌else◌,
}
use video_meeting_recorder.Common.Maps.{lookup}
use video_meeting_recorder.Common.Clock.{second}
use video_meeting_recorder.Task.{Status}
use video_meeting_recorder.Conversion.{
  ConversionStatus, Recording, Conversion, Entry, Files, convert_all, no_progress, process_task,
  current_path, files_to_convert,
}
use video_meeting_recorder.Conversion.Primary.{outputs, described, convert_all_lem}
use video_meeting_recorder.Conversion.Calls.{Call, works, fires, run, all_rows}
use video_meeting_recorder.Conversion.Counted.{uncounted, run-uncounted}
use video_meeting_recorder.Conversion.Ends.{all_well, Left, started_row, process_task_lem}

abbrev camera : Text
camera = codes "r/usb.mkv"

abbrev stream : Text
stream = codes "r/b_stream.mkv"

abbrev empty : Text
empty = codes "r/x.mkv"

abbrev old : Text
old = codes "r/old.mkv"

abbrev entries : List Entry
entries =
    record { name = codes "b_stream.mkv"; is_dir = false; info = some (70, 5) }
    ∷ record { name = codes "usb.mkv"; is_dir = false; info = some (90, 8) }
    ∷ record { name = codes "x.mkv"; is_dir = false; info = some (0, 9) }
    ∷ []

-- What FFmpeg answers is an argument.
abbrev disk : (Text → Text → Bool) → Files
disk ffmpeg = record {
  stat = λ p. if text_eq p empty then some 0 else if text_eq p old then none else some 80;
  missing = λ p. text_eq p old;
  read_dir = λ p. some entries;
  dir = λ p. codes "r";
  ext = λ p. codes ".mkv";
  join = λ d name. d ++ codes "/" ++ name;
  glob_mkv = λ d. some (stream ∷ camera ∷ empty ∷ []);
  mkdir_all = λ d. true;
  ffmpeg = ffmpeg;
  written = λ p. some 60;
  create_file = λ p. some 300;
}

abbrev good : Files
good = disk (λ input output. true)

abbrev bad : Files
bad = disk (λ input output. false)

abbrev meeting : Recording
meeting = record {
  id = 4;
  status = Status.converting;
  error_msg = false;
  recording_duration = 0;
  mkv_file_path = old;
  mp4_file_path = [];
  conversion_status = ConversionStatus.pending;
  conversion_error_msg = false;
  conversion_started_at = none;
  conversion_completed_at = none;
  conversion_retry_count = 0;
}

abbrev queued : Conversion
queued = record {
  rows = (4, meeting) ∷ [];
  task_queue = 4 ∷ [];
  retries = [];
  closed = false;
  video_files = [];
}

converted :
    convert_all good (stream ∷ camera ∷ empty ∷ []) no_progress
    ≡ some (record {
      primary = codes "r/usb.mp4";
      converted = 2;
      duration = some 300;
      video_files = codes "r/usb.mp4" ∷ codes "r/b_stream.mp4" ∷ [];
    })
unfolding convert_all text_eq has_prefix
converted = refl

convert_all_lem_example :
    convert_all good (stream ∷ camera ∷ empty ∷ []) no_progress
    ≡ described good (outputs good (stream ∷ camera ∷ empty ∷ []))
convert_all_lem_example = convert_all_lem good (stream ∷ camera ∷ empty ∷ [])

process_task_lem_example :
    let path = current_path good old in
    Left 10 20 4 0
      (started_row good 10 meeting)
      []
      (4 ∷ [])
      (described good (outputs good (files_to_convert path (some (stream ∷ camera ∷ empty ∷ [])))))
      (process_task good all_well 10 20 4 queued)
unfolding lookup
process_task_lem_example = process_task_lem good 10 20 4 meeting queued refl

-- Two failures, each followed by its retry.
abbrev failures : List Call
failures =
    works bad all_well (10 * second) (20 * second)
    ∷ fires (80 * second)
    ∷ works bad all_well (80 * second) (90 * second)
    ∷ fires (150 * second)
    ∷ []

run-uncounted_example : all_rows uncounted (run failures queued).rows ≡ true
unfolding all uncounted
run-uncounted_example = run-uncounted failures queued refl
