-- ===== src/Conversion.antt =====
-- internal/services/conversion_service.go: the queue of the recordings to convert, the rows it changes and
-- the conversion of a recording, with the columns of internal/models/video_recording_task.go that it
-- reads or writes. A text of an error is a flag. The file system, FFmpeg and the service of the video
-- files are parameters. Times are nanoseconds since an origin.
mod Examples
pub mod Primary
pub mod Calls
pub mod Counted
pub mod Recovered
pub mod Ends
use video_meeting_recorder.Common.{
  ℕ, suc, ◌+◌, ◌-◌, ◌*◌, Bool, true, false, not, ◌&&◌, ◌||◌, Option, none, some, List, [], ◌∷◌,
  ◌++◌, Text, codes, text_eq, is_empty, has_prefix, length, take, ltb, leb, ◌==◌, if◌then◌else◌,
}
use video_meeting_recorder.Common.Maps.{Map, lookup, insert}
use video_meeting_recorder.Common.Clock.{minute}
use video_meeting_recorder.Errors.{Result, ok, err, external, panic}
use video_meeting_recorder.Task.{Status}

-- `unset` is the empty or missing value.
pub data ConversionStatus : Type 0 where
  unset pending processing completed failed : ConversionStatus

-- The row of a recording task.
pub record Recording : Type 0 where
  pub id : ℕ
  pub status : Status
  pub error_msg : Bool
  pub recording_duration : ℕ
  pub mkv_file_path : Text
  pub mp4_file_path : Text
  pub conversion_status : ConversionStatus
  pub conversion_error_msg : Bool
  pub conversion_started_at : Option ℕ
  pub conversion_completed_at : Option ℕ
  pub conversion_retry_count : ℕ

-- The table, the queue, the retries that wait for their time, and whether the service is stopped (its
-- context done, its queue closed). `video_files` has the paths that CreateFileFromTask was called for,
-- newest first.
pub record Conversion : Type 0 where
  pub rows : Map Recording
  pub task_queue : List ℕ
  pub retries : List (ℕ × ℕ)
  pub closed : Bool
  pub video_files : List Text

pub record Entry : Type 0 where
  pub name : Text
  pub is_dir : Bool
  pub info : Option (ℕ × ℕ)

-- What the surroundings answer while a task is processed: the size of a file, if os.Stat succeeds, and
-- whether it fails since there is no file; the entries of a directory, with size and time; path/filepath;
-- whether a directory is there or made; FFmpeg on an input and an output, and the size of the output
-- after it; the duration of the row of a video file, if CreateFileFromTask makes one.
pub record Files : Type 0 where
  pub stat : Text → Option ℕ
  pub missing : Text → Bool
  pub read_dir : Text → Option (List Entry)
  pub dir : Text → Text
  pub ext : Text → Text
  pub join : Text → Text → Text
  pub glob_mkv : Text → Option (List Text)
  pub mkdir_all : Text → Bool
  pub ffmpeg : Text → Text → Bool
  pub written : Text → Option ℕ
  pub create_file : Text → Option ℕ

-- Whether the database answers: the query of the task, the write of a recovered path, of the start, and
-- of the end.
pub record Answers : Type 0 where
  pub loaded : Bool
  pub path_written : Bool
  pub start_written : Bool
  pub end_written : Bool

abbrev pub queue_size : ℕ
queue_size = 100

abbrev pub max_retries : ℕ
max_retries = 3

unfoldable pub change : ℕ → (Recording → Recording) → Map Recording → Map Recording
unfolding lookup insert
change i f rows = elim (lookup i rows) [ none ↦ rows | some r ↦ insert i (f r) rows ]

unfoldable pub change_if : Bool → ℕ → (Recording → Recording) → Map Recording → Map Recording
unfolding change
change_if b i f rows = if b then change i f rows else rows

unfoldable pub reset : Recording → Recording
reset r = record r {
  conversion_status = ConversionStatus.pending;
  conversion_error_msg = false;
  conversion_retry_count = 0;
}

unfoldable pub begin : ℕ → Recording → Recording
begin now r = record r {
  conversion_status = ConversionStatus.processing;
  conversion_started_at = some now;
  conversion_error_msg = false;
}

-- The select on the queue and the end of the service; `sends` is its choice where both are ready. To
-- send on a closed channel panics.
unfoldable pub enqueue : Bool → ℕ → Conversion → Result (Unit {0}) × Conversion
enqueue sends i k =
    if k.closed
    then (if sends then err panic else err external, k)
    else if ltb (length k.task_queue) queue_size
    then (ok tt, record k { task_queue = k.task_queue ++ i ∷ [] })
    else (err external, k)

unfoldable pub is_processing : ConversionStatus → Bool
is_processing ConversionStatus.processing = true
is_processing _ = false

unfoldable pub is_completed : ConversionStatus → Bool
is_completed ConversionStatus.completed = true
is_completed _ = false

unfoldable pub submit_loaded :
    Files → Bool → Bool → ℕ → Option Recording → Conversion → Result (Unit {0}) × Conversion
unfolding is_processing is_completed change reset enqueue
submit_loaded files written sends i none k = (err external, k)
submit_loaded files written sends i (some r) k =
    if is_empty r.mkv_file_path
    then (err external, k)
    else if files.missing r.mkv_file_path
    then (err external, k)
    else if is_processing r.conversion_status
    then (err external, k)
    else if is_completed r.conversion_status
    then (err external, k)
    else if not written
    then (err external, k)
    else enqueue sends i (record k { rows = change i reset k.rows })

-- `loaded` and `written` are whether the database answers.
unfoldable pub submit_conversion :
    Files → Bool → Bool → Bool → ℕ → Conversion → Result (Unit {0}) × Conversion
unfolding submit_loaded lookup
submit_conversion files loaded written sends i k =
    submit_loaded files written sends i (if loaded then lookup i k.rows else none) k

unfoldable pub retry_conversion : Bool → Bool → ℕ → Conversion → Result (Unit {0}) × Conversion
unfolding change reset enqueue
retry_conversion written sends i k =
    if not written
    then (err external, k)
    else enqueue sends i (record k { rows = change i reset k.rows })

-- A file that is a candidate, with its time and path.
unfoldable pub candidate : Files → Text → Entry → Option (ℕ × Text)
candidate files directory e =
    if e.is_dir
    then none
    else if not (text_eq (files.ext e.name) (codes ".mkv"))
    then none
    else elim e.info [
      | none ↦ none
      | some info ↦ if info.0 == 0 then none else some (info.1, files.join directory e.name)
    ]

unfoldable pub newer : Option (ℕ × Text) → Option (ℕ × Text) → Option (ℕ × Text)
newer best none = best
newer none (some c) = some c
newer (some b) (some c) = if ltb b.0 c.0 then some c else some b

unfoldable pub latest_from : Files → Text → Option (ℕ × Text) → List Entry → Option (ℕ × Text)
unfolding newer candidate
latest_from files directory best [] = best
latest_from files directory best (e ∷ es) =
    latest_from files directory (newer best (candidate files directory e)) es

unfoldable pub path_of : Option (ℕ × Text) → Text
path_of none = []
path_of (some c) = c.1

unfoldable pub recover_latest_mkv : Files → Text → Text
unfolding latest_from path_of
recover_latest_mkv files stale = elim (files.read_dir (files.dir stale)) [
  | none ↦ []
  | some es ↦ path_of (latest_from files (files.dir stale) none es)
]

-- The path that processTask goes on with.
unfoldable pub current_path : Files → Text → Text
unfolding recover_latest_mkv
current_path files path =
    let recovered = recover_latest_mkv files path in
    if not (is_empty path) && files.missing path && not (is_empty recovered)
    then recovered
    else path

-- The slice panics on a path of fewer than four bytes.
unfoldable pub generate_mp4_path : Text → Option Text
generate_mp4_path path =
    if ltb (length path) 4 then none else some (take (length path - 4) path ++ codes ".mp4")

pub data Attempt : Type 0 where
  made : (path : Text) → Attempt
  fails : Attempt
  panics : Attempt

unfoldable pub check_output : Text → Option ℕ → Attempt
check_output output none = fails
check_output output (some size) = if size == 0 then fails else made output

unfoldable pub convert_to : Files → Text → Option Text → Attempt
unfolding check_output
convert_to files input none = panics
convert_to files input (some output) =
    if not (files.mkdir_all (files.dir output))
    then fails
    else if not (files.ffmpeg input output)
    then fails
    else check_output output (files.written output)

unfoldable pub convert_mkv_to_mp4 : Files → Text → Attempt
unfolding convert_to generate_mp4_path
convert_mkv_to_mp4 files input =
    if is_empty input then fails else convert_to files input (generate_mp4_path input)

unfoldable pub contains_text : Text → Text → Bool
unfolding has_prefix
contains_text [] part = is_empty part
contains_text (c ∷ s) part =
    let rest = contains_text s part in if has_prefix (c ∷ s) part then true else rest

abbrev pub is_stream : Text → Bool
is_stream path = contains_text path (codes "_stream")

-- What the loop over the files keeps; the duration is that of the first file with one.
pub record Progress : Type 0 where
  pub primary : Text
  pub converted : ℕ
  pub duration : Option ℕ
  pub video_files : List Text

abbrev pub no_progress : Progress
no_progress = record { primary = []; converted = 0; duration = none; video_files = [] }

unfoldable pub first_duration : Option ℕ → Option ℕ → Option ℕ
first_duration (some d) o = some d
first_duration none none = none
first_duration none (some d) = if d == 0 then none else some d

unfoldable pub note : Files → Text → Text → Progress → Progress
unfolding contains_text first_duration
note files mkv output pr = record {
  primary = if is_empty pr.primary || not (is_stream mkv) then output else pr.primary;
  converted = suc pr.converted;
  duration = first_duration pr.duration (files.create_file output);
  video_files = output ∷ pr.video_files;
}

-- A file that is missing or empty is passed over.
unfoldable pub attempt : Files → Text → Attempt
unfolding convert_mkv_to_mp4
attempt files mkv = elim (files.stat mkv) [
  | none ↦ fails
  | some size ↦ if size == 0 then fails else convert_mkv_to_mp4 files mkv
]

unfoldable pub after_attempt : Files → Text → Attempt → Progress → Option Progress
unfolding note
after_attempt files mkv (made output) pr = some (note files mkv output pr)
after_attempt files mkv fails pr = some pr
after_attempt files mkv panics pr = none

-- None is a panic.
unfoldable pub convert_all : Files → List Text → Progress → Option Progress
unfolding after_attempt attempt
convert_all files [] pr = some pr
convert_all files (mkv ∷ mkvs) pr = elim (after_attempt files mkv (attempt files mkv) pr) [
  | none ↦ none
  | some pr' ↦ convert_all files mkvs pr'
]

-- The files of the directory, or the path itself where there are none.
unfoldable pub files_to_convert : Text → Option (List Text) → List Text
files_to_convert path none = path ∷ []
files_to_convert path (some []) = path ∷ []
files_to_convert path (some (f ∷ fs)) = f ∷ fs

unfoldable pub calculate_backoff : ℕ → ℕ
calculate_backoff count =
    if leb count 1 then minute else if count == 2 then 5 * minute else 30 * minute

unfoldable pub give_up : Recording → Recording
give_up r = record r {
  conversion_status = ConversionStatus.failed;
  conversion_error_msg = true;
  status = Status.failed;
  error_msg = true;
}

unfoldable pub note_error : Recording → Recording
note_error r = record r { conversion_error_msg = true }

-- `count` is the retry count of the task in memory, `now` the time of the failure.
unfoldable pub handle_conversion_error : Bool → ℕ → ℕ → ℕ → Conversion → Conversion
unfolding change_if give_up note_error calculate_backoff
handle_conversion_error written now i count k =
    if leb max_retries (suc count)
    then record k { rows = change_if written i give_up k.rows }
    else record k {
      rows = change_if written i note_error k.rows;
      retries = (i, now + calculate_backoff (suc count)) ∷ k.retries;
    }

unfoldable pub duration_or : ℕ → Option ℕ → ℕ
duration_or old none = old
duration_or old (some d) = d

unfoldable pub complete : ℕ → Progress → Recording → Recording
unfolding duration_or
complete started pr r = record r {
  conversion_status = ConversionStatus.completed;
  conversion_started_at = some started;
  conversion_completed_at = some started;
  conversion_error_msg = false;
  mp4_file_path = pr.primary;
  status = Status.completed;
  recording_duration = duration_or r.recording_duration pr.duration;
}

-- `started` and `ended` are the times at which the processing begins and fails.
unfoldable pub after_files :
    Answers → ℕ → ℕ → ℕ → ℕ → Option Progress → Conversion → Result (Unit {0}) × Conversion
unfolding handle_conversion_error complete change_if
after_files a started ended i count none k = (err panic, k)
after_files a started ended i count (some pr) k =
    let kept = record k { video_files = pr.video_files ++ k.video_files } in
    if pr.converted == 0
    then (ok tt, handle_conversion_error a.end_written ended i count kept)
    else (ok tt, record kept { rows = change_if a.end_written i (complete started pr) kept.rows })

unfoldable pub set_path : Text → Recording → Recording
set_path path r = record r { mkv_file_path = path }

unfoldable pub started_rows : Files → Answers → ℕ → ℕ → Recording → Map Recording → Map Recording
unfolding current_path change_if set_path begin
started_rows files a now i r rows =
    let path = current_path files r.mkv_file_path in
    let moved = not (text_eq path r.mkv_file_path) && a.path_written in
    change_if a.start_written i (begin now) (change_if moved i (set_path path) rows)

unfoldable pub process_loaded :
    Files → Answers → ℕ → ℕ → ℕ → Option Recording → Conversion → Result (Unit {0}) × Conversion
unfolding started_rows convert_all files_to_convert current_path after_files
process_loaded files a started ended i none k = (ok tt, k)
process_loaded files a started ended i (some r) k =
    let path = current_path files r.mkv_file_path in
    let mkvs = files_to_convert path (files.glob_mkv (files.dir path)) in
    after_files a started ended i r.conversion_retry_count (convert_all files mkvs no_progress)
      (record k { rows = started_rows files a started i r k.rows })

unfoldable pub process_task :
    Files → Answers → ℕ → ℕ → ℕ → Conversion → Result (Unit {0}) × Conversion
unfolding process_loaded lookup
process_task files a started ended i k =
    process_loaded files a started ended i (if a.loaded then lookup i k.rows else none) k

-- A worker takes the first task of the queue.
unfoldable pub work_on :
    Files → Answers → ℕ → ℕ → List ℕ → Conversion → Result (Unit {0}) × Conversion
unfolding process_task
work_on files a started ended [] k = (ok tt, k)
work_on files a started ended (i ∷ is) k =
    process_task files a started ended i (record k { task_queue = is })

unfoldable pub work : Files → Answers → ℕ → ℕ → Conversion → Result (Unit {0}) × Conversion
unfolding work_on
work files a started ended k = work_on files a started ended k.task_queue k

-- The timer of a retry: it sends when there is room, and ends with the service.
unfoldable pub fire : ℕ → ℕ × ℕ → Conversion → Conversion
fire now (i, due) k =
    if k.closed
    then k
    else if ltb now due
    then record k { retries = (i, due) ∷ k.retries }
    else if ltb (length k.task_queue) queue_size
    then record k { task_queue = k.task_queue ++ i ∷ [] }
    else record k { retries = (i, due) ∷ k.retries }

unfoldable pub fire_all : ℕ → List (ℕ × ℕ) → Conversion → Conversion
unfolding fire
fire_all now [] k = k
fire_all now (r ∷ rs) k = fire_all now rs (fire now r k)

unfoldable pub fire_retries : ℕ → Conversion → Conversion
unfolding fire_all
fire_retries now k = fire_all now k.retries (record k { retries = [] })

unfoldable pub waits : Recording → Bool
unfolding is_completed
waits r = not (is_empty r.mkv_file_path) && not (is_completed r.conversion_status)

unfoldable pub pending_rows : Map Recording → List Recording
unfolding waits
pending_rows [] = []
pending_rows ((i, r) ∷ rows) = let rest = pending_rows rows in if waits r then r ∷ rest else rest

-- The loop ends at a full queue.
unfoldable pub load_each : Bool → List Recording → Conversion → Conversion
unfolding change_if is_processing reset
load_each written [] k = k
load_each written (r ∷ rs) k =
    let rows = change_if (is_processing r.conversion_status && written) r.id reset k.rows in
    let rest =
      load_each written rs (record k { rows = rows; task_queue = k.task_queue ++ r.id ∷ [] }) in
    if ltb (length k.task_queue) queue_size then rest else record k { rows = rows }

-- Start, in a new process: the queue and the timers are new, and the rows are kept.
unfoldable pub start : Bool → Bool → Conversion → Conversion
unfolding load_each pending_rows
start loaded written k =
    let fresh = record k { task_queue = []; retries = []; closed = false } in
    if loaded then load_each written (take 1000 (pending_rows k.rows)) fresh else fresh

unfoldable pub stop : Conversion → Conversion
stop k = record k { closed = true }
