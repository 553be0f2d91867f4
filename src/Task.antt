-- ===== src/Task.antt =====
-- internal/models/video_recording_task.go and task_input_config.go: a recording task, its status
-- and its own checks. Times are nanoseconds; `now` is the time that the code reads.
pub mod Lifecycle
mod Examples
use video_meeting_recorder.Common.{
  ℕ, suc, ◌+◌, ◌-◌, ◌*◌, Bool, true, false, ◌||◌, Option, none, some, List, [], ◌∷◌, Text, is_empty,
  ltb, if◌then◌else◌,
}
use video_meeting_recorder.Common.Int.{ℤ, pos, negsuc, ltb_ℤ}
use video_meeting_recorder.Common.Clock.{minute, hour, after}
use video_meeting_recorder.Errors.{Result, ok, err, invalid_input}

pub data Status : Type 0 where
  pending connecting recording converting completed failed cancelled : Status

pub Status-discrete : Discrete Status
Status-discrete = hlevel

-- ConfigTypeHuaweiAuto, ConfigTypeUSB, ConfigTypeStream
pub data ConfigType : Type 0 where
  huawei_auto usb stream : ConfigType

pub record TaskInputConfig : Type 0 where
  pub input_config_id : ℕ
  pub config_type : ConfigType

pub record Task : Type 0 where
  pub id : ℕ
  pub name : Text
  pub start_time : ℕ
  pub end_time : ℕ
  pub pre_join_minutes : ℤ
  pub record_delay_minutes : ℕ
  pub conference_number : Text
  pub input_config_id : Option ℕ
  pub rtsp_stream_url : Text
  pub status : Status
  pub recording_file : Text
  pub recording_duration : ℕ
  pub error_msg : Text
  pub mkv_file_path : Text
  pub hls_preview_path : Text
  pub mp4_file_path : Text
  pub extension_count : ℕ
  pub last_extension_reason : Text
  pub created_by : ℕ
  pub task_input_configs : List TaskInputConfig

-- The constants compare as the strings that they are.
unfoldable pub same_status : Status → Status → Bool
same_status pending pending = true
same_status connecting connecting = true
same_status recording recording = true
same_status converting converting = true
same_status completed completed = true
same_status failed failed = true
same_status cancelled cancelled = true
same_status _ _ = false

-- The table of `CanTransitionTo`.
unfoldable pub valid_transitions : Status → List Status
valid_transitions pending = connecting ∷ failed ∷ cancelled ∷ []
valid_transitions connecting = recording ∷ failed ∷ cancelled ∷ []
valid_transitions recording = converting ∷ failed ∷ cancelled ∷ []
valid_transitions converting = completed ∷ failed ∷ []
valid_transitions completed = []
valid_transitions failed = pending ∷ []
valid_transitions cancelled = []

-- The loop of `CanTransitionTo` over the allowed statuses.
unfoldable pub is_allowed : Status → List Status → Bool
unfolding same_status
is_allowed new [] = false
is_allowed new (s ∷ rest) =
    let found = is_allowed new rest in if same_status s new then true else found

unfoldable pub can_transition_to : Status → Status → Bool
unfolding valid_transitions is_allowed
can_transition_to status new = is_allowed new (valid_transitions status)

-- start.Add(-preJoin * time.Minute): a start within `pre_join_minutes` of the epoch is cut to 0.
unfoldable pub trigger_time : ℕ → ℤ → ℕ
trigger_time start (pos m) = start - m * minute
trigger_time start (negsuc m) = start + suc m * minute

unfoldable pub get_trigger_time : Task → ℕ
unfolding trigger_time
get_trigger_time t = trigger_time t.start_time t.pre_join_minutes

unfoldable pub is_expired : ℕ → Task → Bool
is_expired now t = after now (t.end_time + 24 * hour)

unfoldable pub has_input_config : Option ℕ → Bool
has_input_config none = false
has_input_config (some id) = ltb 0 id

unfoldable pub is_valid : Task → Result (Unit {0})
unfolding has_input_config
is_valid t =
    if after t.start_time t.end_time
    then err invalid_input
    else if ltb_ℤ t.pre_join_minutes (pos 0) || ltb_ℤ (pos 60) t.pre_join_minutes
    then err invalid_input
    else if is_empty t.conference_number
    then err invalid_input
    else if has_input_config t.input_config_id
    then ok tt
    else err invalid_input
