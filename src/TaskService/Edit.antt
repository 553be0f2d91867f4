-- ===== src/TaskService/Edit.antt =====
-- `CreateTask`, `CreateTaskAuto` and `UpdateTask` (video_recording_task_service.go) on the tables of tasks and
-- of input configurations; the connections of a task are in its row. The reading of a time (RFC 3339, in
-- Beijing) is a parameter, and so is what gorm writes for the minutes before the start, whose column has
-- a default.
pub mod Auto
pub mod Limits
pub mod Stored
use video_meeting_recorder.Common.{
  ℕ, Bool, true, false, not, ◌&&◌, ◌||◌, Option, none, some, List, [], ◌∷◌, ◌++◌, Text, is_empty,
  ltb, ◌==◌, if◌then◌else◌,
}
use video_meeting_recorder.Common.Int.{ℤ}
use video_meeting_recorder.Common.Maps.{Map, lookup, insert, has_key}
use video_meeting_recorder.Errors.{
  Result, ok, err, invalid_input, forbidden, external, internal, not_found, task_not_found, ◌>>=◌,
}
use video_meeting_recorder.Task.{
  Task, Status, pending, recording, same_status, TaskInputConfig, ConfigType, huawei_auto, usb,
  stream, is_valid,
}
use video_meeting_recorder.InputConfig.{InputConfig}
use video_meeting_recorder.TaskService.{Caller, may_touch}

-- `notified` has the calls of the scheduler's UpdateTaskEndTime, newest first.
pub record Store : Type 0 where
  pub tasks : Map Task
  pub configs : Map InputConfig
  pub notified : List (ℕ × ℕ)

pub record CreateTaskRequest : Type 0 where
  pub name : Text
  pub start_time : Text
  pub end_time : Text
  pub pre_join_minutes : ℤ
  pub record_delay_minutes : ℕ
  pub conference_number : Text
  pub input_config_ids : List ℕ

-- Whether the database answers: the query of a configuration, the write of the task, of a connection.
pub record Answers : Type 0 where
  pub config_read : Bool
  pub written : Bool
  pub linked : Bool

unfoldable pub read_time : (Text → Option ℕ) → Text → Result ℕ
read_time parse t = elim (parse t) [ none ↦ err invalid_input | some n ↦ ok n ]

unfoldable pub find_config : Bool → ℕ → Map InputConfig → Option InputConfig
unfolding lookup
find_config loaded i configs = if loaded then lookup i configs else none

unfoldable pub check_first : Bool → Map InputConfig → List ℕ → Result (Option ℕ)
unfolding find_config
check_first loaded configs [] = ok none
check_first loaded configs (i ∷ is) = elim (find_config loaded i configs) [
  | none ↦ err not_found
  | some c ↦ ok (some i)
]

-- The source of a configuration, if it has one.
unfoldable pub source_type : InputConfig → Option ConfigType
source_type c =
    if c.huawei_enabled
    then some huawei_auto
    else if c.stream_enabled && not (is_empty c.stream_url)
    then some stream
    else if not (is_empty c.usb_camera_device) || not (is_empty c.usb_audio_device)
    then some usb
    else none

unfoldable pub link_of : ℕ → Option InputConfig → List TaskInputConfig
unfolding source_type
link_of i none = []
link_of i (some c) = elim (source_type c) [
  | none ↦ []
  | some t ↦ record { input_config_id = i; config_type = t } ∷ []
]

-- The loop over the configurations: those that are found and have a source.
unfoldable pub link_configs : Answers → Map InputConfig → List ℕ → List TaskInputConfig
unfolding link_of find_config
link_configs a configs [] = []
link_configs a configs (i ∷ is) =
    let rest = link_configs a configs is in
    if a.linked then link_of i (find_config a.config_read i configs) ++ rest else rest

unfoldable pub new_task : ℕ → ℕ → CreateTaskRequest → ℕ → ℕ → Option ℕ → Task
new_task id created_by q start_time end_time primary = record {
  id = id;
  name = q.name;
  start_time = start_time;
  end_time = end_time;
  pre_join_minutes = q.pre_join_minutes;
  record_delay_minutes = q.record_delay_minutes;
  conference_number = q.conference_number;
  input_config_id = primary;
  rtsp_stream_url = [];
  status = pending;
  recording_file = [];
  recording_duration = 0;
  error_msg = [];
  mkv_file_path = [];
  hls_preview_path = [];
  mp4_file_path = [];
  extension_count = 0;
  last_extension_reason = [];
  created_by = created_by;
  task_input_configs = [];
}

-- The task that is checked before it is written.
unfoldable pub build_task :
    (Text → Option ℕ) → Answers → ℕ → ℕ → CreateTaskRequest → Map InputConfig → Result Task
unfolding read_time check_first new_task
build_task parse a id created_by q configs = read_time parse q.start_time >>= λ start_time.
    read_time parse q.end_time >>= λ end_time.
    check_first a.config_read configs q.input_config_ids >>= λ primary.
    let t = new_task id created_by q start_time end_time primary in is_valid t >>= λ _. ok t

-- The identifier is new; `stored` is what gorm writes for the minutes.
unfoldable pub write_task :
    (ℤ → ℤ) → Answers → CreateTaskRequest → Result Task → Store → Result Task × Store
unfolding link_configs insert has_key
write_task stored a q (err e) s = (err e, s)
write_task stored a q (ok t) s =
    let t' = record t {
      pre_join_minutes = stored t.pre_join_minutes;
      task_input_configs = link_configs a s.configs q.input_config_ids;
    } in
    if not a.written || has_key t.id s.tasks
    then (err external, s)
    else (ok t', record s { tasks = insert t.id t' s.tasks })

unfoldable pub create_task :
    (Text → Option ℕ) → (ℤ → ℤ) → Answers → ℕ → ℕ → CreateTaskRequest → Store → Result Task × Store
unfolding write_task build_task
create_task parse stored a id created_by q s =
    write_task stored a q (build_task parse a id created_by q s.configs) s

-- The request has no configurations, whatever it says.
unfoldable pub create_task_auto :
    (Text → Option ℕ) → (ℤ → ℤ) → Answers → ℕ → ℕ → CreateTaskRequest → Store → Result Task × Store
unfolding create_task
create_task_auto parse stored a id created_by q s =
    create_task parse stored a id created_by (record q { input_config_ids = [] }) s

-- A field that is none is not changed.
pub record UpdateTaskRequest : Type 0 where
  pub name : Option Text
  pub start_time : Option Text
  pub end_time : Option Text
  pub pre_join_minutes : Option ℤ
  pub record_delay_minutes : Option ℕ
  pub input_config_ids : Option (List ℕ)

unfoldable pub given {ℓ} : {A : Type ℓ} → A → Option A → A
given old none = old
given old (some new) = new

unfoldable pub given_time : (Text → Option ℕ) → ℕ → Option Text → Result ℕ
unfolding read_time
given_time parse old none = ok old
given_time parse old (some t) = read_time parse t

unfoldable pub with_fields : (Text → Option ℕ) → UpdateTaskRequest → Task → Result Task
unfolding given_time given
with_fields parse q t = given_time parse t.start_time q.start_time >>= λ start_time. ok (record t {
  name = given t.name q.name;
  start_time = start_time;
  pre_join_minutes = given t.pre_join_minutes q.pre_join_minutes;
  record_delay_minutes = given t.record_delay_minutes q.record_delay_minutes;
})

-- The end, which is not before the start of the request, or else of the task.
unfoldable pub new_end : (Text → Option ℕ) → UpdateTaskRequest → Task → Result (Option ℕ)
unfolding read_time given_time
new_end parse q t = elim q.end_time [
  | none ↦ ok none
  | some e ↦ read_time parse e >>= λ end_time.
      given_time parse t.start_time q.start_time >>= λ start_time.
      if ltb end_time start_time then err invalid_input else ok (some end_time)
]

unfoldable pub changed : (Text → Option ℕ) → UpdateTaskRequest → Task → Result Task
unfolding with_fields new_end given
changed parse q t =
    (if same_status t.status recording then ok t else with_fields parse q t) >>= λ t'.
    new_end parse q t >>= λ end_time. ok (record t' { end_time = given t'.end_time end_time })

unfoldable pub notify : Bool → ℕ → Option ℕ → Store → Store
notify is_recording id none s = s
notify is_recording id (some e) s =
    if is_recording then record s { notified = (id, e) ∷ s.notified } else s

-- The end that the scheduler is told: that of the request, if there is one.
unfoldable pub told : Option Text → ℕ → Option ℕ
told none e = none
told (some x) e = some e

unfoldable pub first_of : List ℕ → Option ℕ
first_of [] = none
first_of (i ∷ is) = some i

-- Whether the database answers: the writes of the fields, of the removal of the old connections, and of
-- the first configuration; and the rest as above.
pub record UpdateAnswers : Type 0 where
  pub fields_written : Bool
  pub unlinked : Bool
  pub primary_written : Bool
  pub links : Answers

unfoldable pub put_task : ℕ → Task → Store → Store
unfolding insert
put_task id t s = record s { tasks = insert id t s.tasks }

-- The row is read again and checked.
unfoldable pub checked : ℕ → Task → Store → Result Task × Store
unfolding put_task
checked id t s = (is_valid t >>= λ _. ok t, put_task id t s)

unfoldable pub relink : UpdateAnswers → ℕ → List ℕ → Task → Store → Result Task × Store
unfolding link_configs checked first_of put_task
relink a id is t s =
    let linked = record t { task_input_configs = link_configs a.links s.configs is } in
    if not a.unlinked
    then (err internal, put_task id t s)
    else if not a.primary_written
    then (err internal, put_task id linked s)
    else checked id (record linked { input_config_id = first_of is }) s

unfoldable pub write_changes :
    UpdateAnswers → ℕ → Bool → Option (List ℕ) → Task → Store → Result Task × Store
unfolding relink checked
write_changes a id is_recording none t s = checked id t s
write_changes a id is_recording (some is) t s =
    if is_recording then checked id t s else relink a id is t s

unfoldable pub update_changed :
    (Text → Option ℕ)
    → UpdateAnswers
    → ℕ
    → UpdateTaskRequest
    → Task
    → Result Task
    → Store
    → Result Task × Store
unfolding notify told write_changes
update_changed parse a id q t (err e) s = (err e, s)
update_changed parse a id q t (ok t') s =
    let is_recording = same_status t.status recording in
    let s' = notify is_recording id (told q.end_time t'.end_time) s in
    if not a.fields_written
    then (err external, s')
    else write_changes a id is_recording q.input_config_ids t' s'

unfoldable pub update_found :
    (Text → Option ℕ)
    → UpdateAnswers
    → ℕ
    → UpdateTaskRequest
    → Caller
    → Option Task
    → Store
    → Result Task × Store
unfolding update_changed changed may_touch same_status
update_found parse a id q u none s = (err task_not_found, s)
update_found parse a id q u (some t) s =
    if not (may_touch u t)
    then (err forbidden, s)
    else if not (same_status t.status recording) && not (same_status t.status pending)
    then (err invalid_input, s)
    else update_changed parse a id q t (changed parse q t) s

unfoldable pub update_task :
    (Text → Option ℕ) → UpdateAnswers → ℕ → UpdateTaskRequest → Caller → Store → Result Task × Store
unfolding update_found lookup
update_task parse a id q u s = update_found parse a id q u (lookup id s.tasks) s
