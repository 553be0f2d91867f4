-- ===== src/InputConfig.antt =====
-- internal/models/input_config.go: an input configuration, its lock as a terminal, and its own checks.
use video_meeting_recorder.Common.{
  ℕ, Bool, true, false, not, ◌&&◌, ◌||◌, Option, none, some, Text, is_empty, ◌==◌, if◌then◌else◌,
}
use video_meeting_recorder.Errors.{Result, ok, err, external}
use video_meeting_recorder.Task.{ConfigType, huawei_auto, usb, stream}

-- The fields that the recorder, the scheduler and the conference connector read. A configuration type
-- that is none of the three constants is `none`.
pub record InputConfig : Type 0 where
  pub id : ℕ
  pub name : Text
  pub config_type : Option ConfigType
  pub huawei_enabled : Bool
  pub server : Text
  pub username : Text
  pub terminal_number : Text
  pub camera_backend : Text
  pub usb_camera_name : Text
  pub usb_camera_device : Text
  pub audio_backend : Text
  pub usb_audio_name : Text
  pub usb_audio_device : Text
  pub stream_protocol : Text
  pub stream_url : Text
  pub stream_username : Text
  pub stream_password : Text
  pub stream_enabled : Bool
  pub is_locked : Bool
  pub locked_by : Option ℕ
  pub locked_at : Option ℕ

-- The holder, if there is one, is the task.
unfoldable pub is_holder : ℕ → Option ℕ → Bool
is_holder task_id none = false
is_holder task_id (some holder) = holder == task_id

unfoldable pub is_foreign : ℕ → Option ℕ → Bool
is_foreign task_id none = false
is_foreign task_id (some holder) = not (holder == task_id)

unfoldable pub lock : ℕ → ℕ → InputConfig → Result InputConfig
unfolding is_foreign
lock now task_id c =
    if c.is_locked && is_foreign task_id c.locked_by
    then err external
    else ok (record c { is_locked = true; locked_by = some task_id; locked_at = some now })

unfoldable pub unlock : InputConfig → InputConfig
unlock c = record c { is_locked = false; locked_by = none; locked_at = none }

unfoldable pub is_locked_by_task : ℕ → InputConfig → Bool
unfolding is_holder
is_locked_by_task task_id c = c.is_locked && is_holder task_id c.locked_by

-- The fields that the type of the configuration asks for.
unfoldable pub lacks_source : Option ConfigType → InputConfig → Bool
lacks_source (some huawei_auto) c =
    not c.huawei_enabled && is_empty c.usb_camera_device && is_empty c.stream_url
lacks_source (some usb) c = is_empty c.usb_camera_device
lacks_source (some stream) c = is_empty c.stream_url
lacks_source none c = true

unfoldable pub validate : InputConfig → Result (Unit {0})
unfolding lacks_source
validate c =
    if is_empty c.name
    then err external
    else if c.huawei_enabled
        && (is_empty c.server || is_empty c.username || is_empty c.terminal_number)
    then err external
    else if lacks_source c.config_type c
    then err external
    else ok tt
