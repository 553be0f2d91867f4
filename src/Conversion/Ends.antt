-- ===== src/Conversion/Ends.antt =====
-- How processTask of internal/services/conversion_service.go ends, with a database that answers.
use video_meeting_recorder.Common.{
  ℕ, suc, ◌+◌, ◌≡◌, refl, ap, sym, ◌∙◌, subst, true, not, ◌&&◌, Option, none, some, List, ◌∷◌, Text,
  text_eq, text_eq_iff, ◌||◌, leb, ◌==◌, if◌then◌else◌, Bool-cases, Option-cases, ◌*◌, false, inl,
  inr, arith,
}
use video_meeting_recorder.Common.Maps.{Map, lookup, lookup-insert}
use video_meeting_recorder.Errors.{Result, ok, err, panic}
use video_meeting_recorder.Common.Clock.{minute}
use video_meeting_recorder.Task.{Status}
use video_meeting_recorder.Conversion.{
  Recording, ConversionStatus, Conversion, Files, Answers, Progress, no_progress, max_retries,
  change, change_if, begin, set_path, note_error, give_up, complete, duration_or, calculate_backoff,
  current_path, started_rows, convert_all, files_to_convert, handle_conversion_error, after_files,
  process_loaded, process_task,
}
use video_meeting_recorder.Conversion.Primary.{outputs, described, convert_all_lem}

abbrev pub all_well : Answers
all_well = record { loaded = true; path_written = true; start_written = true; end_written = true }

-- The row of a task is changed in place.
lookup-change :
    (i : ℕ) (f : Recording → Recording) (r : Recording) (rows : Map Recording)
    → lookup i rows ≡ some r
    → lookup i (change i f rows) ≡ some (f r)
unfolding change
lookup-change i f r rows h = rw (h, change) (lookup-insert i i (f r) rows ∙ ground arith)

-- The row when the conversion has started.
abbrev pub started_row : Files → ℕ → Recording → Recording
started_row files now r =
    begin now (record r { mkv_file_path = current_path files r.mkv_file_path })

lookup-moved :
    (i : ℕ) (path : Text) (r : Recording) (rows : Map Recording)
    → lookup i rows ≡ some r
    → lookup i (change_if (not (text_eq path r.mkv_file_path) && true) i (set_path path) rows)
      ≡ some (record r { mkv_file_path = path })
unfolding change_if set_path
lookup-moved i path r rows h = elim (Bool-cases (text_eq path r.mkv_file_path)) [
  | inl e ↦
      let same : r.mkv_file_path ≡ path = sym ((text_eq_iff path r.mkv_file_path).0 e) in
      ap (λ b. lookup i (change_if (not b && true) i (set_path path) rows)) e
      ∙ h
      ∙ ap (λ q. some (record r { mkv_file_path = q })) same
  | inr e ↦
      ap (λ b. lookup i (change_if (not b && true) i (set_path path) rows)) e
      ∙ lookup-change i (set_path path) r rows h
]

lookup-started :
    (files : Files) (now i : ℕ) (r : Recording) (rows : Map Recording)
    → lookup i rows ≡ some r
    → lookup i (started_rows files all_well now i r rows) ≡ some (started_row files now r)
unfolding started_rows change_if
lookup-started files now i r rows h =
    let path = current_path files r.mkv_file_path in
    lookup-change i (begin now) (record r { mkv_file_path = path }) _ (lookup-moved i path r rows h)

-- The row of a task that is done, by the columns that it then has.
abbrev pub done_row : ℕ → Progress → Recording → Recording
done_row started pr r = record {
  id = r.id;
  status = Status.completed;
  error_msg = r.error_msg;
  recording_duration = elim pr.duration [ none ↦ r.recording_duration | some d ↦ d ];
  mkv_file_path = r.mkv_file_path;
  mp4_file_path = pr.primary;
  conversion_status = ConversionStatus.completed;
  conversion_error_msg = false;
  conversion_started_at = some started;
  conversion_completed_at = some started;
  conversion_retry_count = r.conversion_retry_count;
}

-- The row of a task that is given up.
abbrev pub lost_row : Recording → Recording
lost_row r = record {
  id = r.id;
  status = Status.failed;
  error_msg = true;
  recording_duration = r.recording_duration;
  mkv_file_path = r.mkv_file_path;
  mp4_file_path = r.mp4_file_path;
  conversion_status = ConversionStatus.failed;
  conversion_error_msg = true;
  conversion_started_at = r.conversion_started_at;
  conversion_completed_at = r.conversion_completed_at;
  conversion_retry_count = r.conversion_retry_count;
}

-- The row of a task that is tried again: the error is noted, and nothing else changes.
abbrev pub noted_row : Recording → Recording
noted_row r = record r { conversion_error_msg = true }

-- A minute after the first failure, five after the second.
abbrev pub next_try : ℕ → ℕ → ℕ
next_try ended count = if count == 0 then ended + minute else ended + 5 * minute

-- What is left of a task with a row and a retry count when the loop has ended: it is done, tried again, or
-- given up at the third failure.
unfoldable pub Left :
    ℕ
    → ℕ
    → ℕ
    → ℕ
    → Recording
    → List (ℕ × ℕ)
    → List ℕ
    → Option Progress
    → Result (Unit {0}) × Conversion
    → Type 0
Left started ended i count r retries queue none (res, k') = res ≡ err panic
Left started ended i count r retries queue (some pr) (res, k') =
    (res ≡ ok tt)
    × (lookup i k'.rows
        ≡ some (
            if not (pr.converted == 0)
            then done_row started pr r
            else if leb 2 count
            then lost_row r
            else noted_row r))
    × (k'.retries ≡ (
        if not (pr.converted == 0) || leb 2 count
        then retries
        else (i, next_try ended count) ∷ retries))
    × (k'.task_queue ≡ queue)

third_failure : (count : ℕ) → leb max_retries (suc count) ≡ leb 2 count
third_failure count = ground arith

complete_row :
    (started : ℕ) (pr : Progress) (r : Recording) → complete started pr r ≡ done_row started pr r
unfolding complete duration_or
complete_row started pr r = elim (Option-cases pr.duration) [
  | inl e ↦ rw e refl
  | inr (d, e) ↦ rw e refl
]

backoff_time :
    (ended count : ℕ)
    → leb 2 count ≡ false
    → ended + calculate_backoff (suc count) ≡ next_try ended count
unfolding calculate_backoff
backoff_time ended count h = ground (arith, h)

after_files_lem :
    (started ended i count : ℕ) (r : Recording) (o : Option Progress) (k : Conversion)
    → lookup i k.rows ≡ some r
    → Left started ended i count r k.retries k.task_queue o
        (after_files all_well started ended i count o k)
unfolding after_files Left handle_conversion_error change_if give_up note_error
after_files_lem started ended i count r none k h = refl
after_files_lem started ended i count r (some pr) k h = elim (Bool-cases (pr.converted == 0)) [
  | inl z ↦ elim (Bool-cases (leb 2 count)) [
    | inl m ↦
        rw (z, after_files, third_failure count, m, handle_conversion_error, Left)
          (refl, lookup-change i give_up r k.rows h, refl, refl)
    | inr m ↦
        rw (z, after_files, third_failure count, m, handle_conversion_error, Left)
          (
            refl,
            lookup-change i note_error r k.rows h,
            ap (λ t. (i, t) ∷ k.retries) (backoff_time ended count m),
            refl,
          )
  ]
  | inr z ↦
      rw (z, after_files, Left)
        (
          refl,
          lookup-change i (complete started pr) r k.rows h ∙ ap some (complete_row started pr r),
          refl,
          refl,
        )
]

-- The processing of a stored task converts what it finds in the directory of its file, or of the file
-- that is recovered for it. With any MP4 file the task and its conversion are completed, with the main
-- MP4 file and the duration of the loop, and no retry is left. With none, and a retry count of 0 or 1 in
-- the row, the error is noted and a retry left for one minute or five minutes later; with a larger count
-- the conversion and the task have failed. The row has the recovered path and the start in every case.
-- The database answers; a conversion that panics makes the processing panic.
pub process_task_lem :
    (files : Files) (started ended i : ℕ) (r : Recording) (k : Conversion)
    → lookup i k.rows ≡ some r
    → let path = current_path files r.mkv_file_path in
      let mkvs = files_to_convert path (files.glob_mkv (files.dir path)) in
      Left started ended i r.conversion_retry_count
        (started_row files started r)
        k.retries
        k.task_queue
        (described files (outputs files mkvs))
        (process_task files all_well started ended i k)
unfolding process_task process_loaded
process_task_lem files started ended i r k h =
    let path = current_path files r.mkv_file_path in
    let mkvs = files_to_convert path (files.glob_mkv (files.dir path)) in
    let count = r.conversion_retry_count in
    let row = started_row files started r in
    let k' = record k { rows = started_rows files all_well started i r k.rows } in
    let ends =
      after_files_lem started ended i count row (convert_all files mkvs no_progress) k'
        (lookup-started files started i r k.rows h) in
    subst
      (λ o.
        Left started ended i count row k.retries k.task_queue (described files (outputs files mkvs))
          (process_loaded files all_well started ended i o k))
      (sym h)
      (subst
        (λ o.
          Left started ended i count row k.retries k.task_queue o
            (after_files all_well started ended i count (convert_all files mkvs no_progress) k'))
        (convert_all_lem files mkvs) ends)
