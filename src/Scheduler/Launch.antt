-- ===== src/Scheduler/Launch.antt =====
-- The loop of `executeTask` (video_scheduler.go) that starts a recording for each input configuration.
use video_meeting_recorder.Common.{
  ℕ, suc, ◌≤◌, ◌<◌, ◌≡◌, refl, sym, ◌∙◌, subst, true, List, [], ◌∷◌, ◌⊎◌, Text, codes, length, ◌==◌,
  if◌then◌else◌, arith,
}
use video_meeting_recorder.Errors.{Result, ok, err}
use video_meeting_recorder.Task.{ConfigType, huawei_auto, usb, stream, TaskInputConfig, Task}
use video_meeting_recorder.Recorder.Source.{InputSourceType}
use video_meeting_recorder.Recorder.Registry.{
  Coordinator, Launch, is_process_alive, finish_start, launch_ffmpeg, start_recording_with_config,
  with_paths,
}
use video_meeting_recorder.Recorder.Stop.{start-is_alive}

unfoldable pub config_text : ConfigType → Text
config_text huawei_auto = codes "huawei_auto"
config_text usb = codes "usb"
config_text stream = codes "stream"

-- The type of a configuration; "usb" if the task does not list it.
unfoldable pub config_type_of : ℕ → List TaskInputConfig → Text
unfolding config_text
config_type_of config_id [] = codes "usb"
config_type_of config_id (tc ∷ tcs) =
    let rest = config_type_of config_id tcs in
    if tc.input_config_id == config_id then config_text tc.config_type else rest

-- A configuration of the loop: its ID, the type of its input, and what its launch meets.
pub record Attempt : Type 0 where
  pub config_id : ℕ
  pub source : InputSourceType
  pub launch : Launch

-- What the loop leaves: the registry, the task and the number of errors.
pub record Launched : Type 0 where
  pub coordinator : Coordinator
  pub task : Task
  pub errors : ℕ

-- A failure puts the two paths back, so that the task always has those of the last start that
-- succeeded, which the code writes once more after the loop.
unfoldable pub rolled_back : Task → Task → Task
rolled_back before t = record t {
  mkv_file_path = before.mkv_file_path;
  hls_preview_path = before.hls_preview_path;
}

unfoldable pub start_recordings :
    List TaskInputConfig → Coordinator → Task → List Attempt → Launched
unfolding rolled_back
start_recordings tcs c t [] = record { coordinator = c; task = t; errors = 0 }
start_recordings tcs c t (a ∷ xs) =
    let s = start_recording_with_config c t (config_type_of a.config_id tcs) a.source a.launch in
    elim s.result [
      | ok u ↦ start_recordings tcs s.coordinator s.task xs
      | err e ↦
          let rest = start_recordings tcs s.coordinator (rolled_back t s.task) xs in
          record rest { errors = suc rest.errors }
    ]

-- What the loop leaves of a number of launches: no errors more than launches; if each has failed, all
-- is as before; otherwise the task's process is alive, as it is when it was alive before.
record Progress (c : Coordinator) (t : Task) (n : ℕ) (r : Launched) : Type 0 where
  bounded : r.errors ≤ n
  unchanged : r.errors ≡ n → (r.coordinator ≡ c) × (r.task ≡ t)
  same_id : r.task.id ≡ t.id
  kept : is_process_alive c t.id ≡ true → is_process_alive r.coordinator t.id ≡ true
  alive : r.errors < n → is_process_alive r.coordinator t.id ≡ true

start_recordings-Progress :
    (tcs : List TaskInputConfig) (c : Coordinator) (t : Task) (xs : List Attempt)
    → Progress c t (length xs) (start_recordings tcs c t xs)
unfolding start_recordings start_recording_with_config finish_start with_paths rolled_back
start_recordings-Progress tcs c t [] = record {
  bounded = omega arith;
  unchanged = λ e. (refl, refl);
  same_id = refl;
  kept = λ h. h;
  alive = λ h. absurd (omega arith);
}
start_recordings-Progress tcs c t (a ∷ xs) =
    let config_type = config_type_of a.config_id tcs in
    go config_type (launch_ffmpeg a.launch) (start-is_alive c t config_type a.source a.launch)
      (λ c' t'. start_recordings-Progress tcs c' t' xs)
  where
    go :
        (config_type : Text) (r : Result ℕ)
        → let s = finish_start c t config_type a.source a.launch r in
          (s.result ≡ ok tt → is_process_alive s.coordinator t.id ≡ true)
          → ((c' : Coordinator) (t' : Task)
              → Progress c' t' (length xs) (start_recordings tcs c' t' xs))
          → Progress c t (suc (length xs)) (elim s.result as (λ r. Launched) [
            | ok u ↦ start_recordings tcs s.coordinator s.task xs
            | err e ↦
                let rest = start_recordings tcs s.coordinator (rolled_back t s.task) xs in
                record rest { errors = suc rest.errors }
          ])
    go config_type (err e) l ih =
        let o = ih c t in
        record {
          bounded = omega (arith, o.bounded);
          unchanged = λ h. o.unchanged (omega arith);
          same_id = o.same_id;
          kept = o.kept;
          alive = λ h. o.alive (omega arith);
        }
    go config_type (ok cmd) l ih =
        let s = finish_start c t config_type a.source a.launch (ok cmd) in
        let o = ih s.coordinator s.task in
        let rest = start_recordings tcs s.coordinator s.task xs in
        let same : s.task.id ≡ t.id = ground arith in
        let after : is_process_alive rest.coordinator t.id ≡ true =
          subst (λ k. is_process_alive rest.coordinator k ≡ true) same
            (o.kept (subst (λ k. is_process_alive s.coordinator k ≡ true) (sym same) (l refl))) in
        record {
          bounded = omega (arith, o.bounded);
          unchanged = λ h. absurd (omega (arith, o.bounded, h));
          same_id = o.same_id ∙ same;
          kept = λ h. after;
          alive = λ h. after;
        }

-- If every start of the loop fails, the registry and the task are as before; otherwise the task has a
-- process that is alive.
pub start_recordings_lem :
    (tcs : List TaskInputConfig) (c : Coordinator) (t : Task) (xs : List Attempt)
    → let r = start_recordings tcs c t xs in
      (r.errors ≡ length xs → (r.coordinator ≡ c) × (r.task ≡ t))
      × ((r.errors ≡ length xs) ⊎ (is_process_alive r.coordinator t.id ≡ true))
start_recordings_lem tcs c t xs =
    let o = start_recordings-Progress tcs c t xs in
    (o.unchanged, ground (arith, o.bounded, o.alive))

pub start_recordings-id :
    (tcs : List TaskInputConfig) (c : Coordinator) (t : Task) (xs : List Attempt)
    → (start_recordings tcs c t xs).task.id ≡ t.id
start_recordings-id tcs c t xs = (start_recordings-Progress tcs c t xs).same_id
