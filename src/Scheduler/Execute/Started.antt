-- ===== src/Scheduler/Execute/Started.antt =====
-- What an execution leaves that starts the monitor, and one that does not.
use video_meeting_recorder.Common.{
  ◌≡◌, refl, ◌∙◌, Bool, true, ◌&&◌, Option, none, some, List, [], inl, inr, Text, codes, length,
  ltb, ◌==◌, ==_iff, if◌then◌else◌, Bool-cases, map, arith,
}
use video_meeting_recorder.Common.Maps.{Map}
use video_meeting_recorder.Common.Clock.{after}
use video_meeting_recorder.Errors.{Error, Result, ok, err, external, invalid_input}
use video_meeting_recorder.State.{
  St, ◌>>=◌, ◌>>◌, lift, ignore, Ends, Does, returns, raises, does_bind, does_lift, does_ignore,
}
use video_meeting_recorder.Task.{
  Status, pending, connecting, recording, failed, Task, TaskInputConfig, same_status,
}
use video_meeting_recorder.InputConfig.{InputConfig}
use video_meeting_recorder.Terminal.{connect_to_conference}
use video_meeting_recorder.Recorder.Command.{FFmpegConfig}
use video_meeting_recorder.Recorder.Registry.{Coordinator, is_process_alive}
use video_meeting_recorder.TaskService
use video_meeting_recorder.Scheduler.Status.{update_task_status}
use video_meeting_recorder.Scheduler.Launch.{
  Attempt, start_recordings, start_recordings_lem, start_recordings-id,
}
use video_meeting_recorder.Scheduler.Execute.{
  World, Write, Answers, load_task, set_status, fail_with, any_huawei_auto, query, join,
  load_configs, any_source, attempt_of, update_recording_paths, clean_up, record_all, no_configs,
  start_all, execute_loaded, execute_task,
}

-- The registry of processes is as given.
abbrev pub Same : Coordinator → World → Type 0
Same c w = w.coordinator ≡ c

-- The row of the task has the status.
abbrev pub Row : Status → World → Type 0
Row status w = (row : Task) × (w.task ≡ some row) × (row.status ≡ status)

update_status :
    (o : Option Task) (written : Bool) (status : Status) (message : Text) (t : Task)
    → update_task_status o written status message ≡ ok t
    → t.status ≡ status
unfolding update_task_status TaskService.update_task_status
update_status none written status message t h = ground arith
update_status (some s) written status message t h = ground arith

set_status-Does :
    (c : Coordinator) (x : Write) (status : Status) (message : Text)
    → Does (Same c) (set_status x status message) (λ u w. Same c w × Row status w) (Same c)
unfolding set_status
set_status-Does c x status message w s =
    go (update_task_status (if x.found then w.task else none) x.written status message)
      (λ t h. update_status (if x.found then w.task else none) x.written status message t h)
  where
    go :
        (r : Result Task)
        → ((t : Task) → r ≡ ok t → t.status ≡ status)
        → Ends
            (λ u w. Same c w × Row status w)
            (Same c)
            (elim r as (λ x. Result (Unit {0}) × World) [
              | ok t ↦ (ok tt, record w { task = some t })
              | err e ↦ (err e, w)
            ])
    go (ok t) h = returns _ _ tt _ (s, (t, refl, h t refl))
    go (err e) h = raises _ _ e w s

fail_with-Does :
    {A : Type 0} (c : Coordinator) (x : Answers) (message : Text) (Q : A → World → Type 0)
    → Does (Same c) (fail_with x message) Q (Same c)
unfolding fail_with
fail_with-Does c x message Q w s =
    raises Q (Same c) external (set_status x.to_failed failed message w).1 (
      kept (set_status x.to_failed failed message w)
        (set_status-Does c x.to_failed failed message w s))
  where
    kept :
        (r : Result (Unit {0}) × World)
        → Ends (λ u w. Same c w × Row failed w) (Same c) r
        → Same c r.1
    kept (ok u, v) e = (e.value u refl).0
    kept (err y, v) e = e.failure y refl

query-Does :
    {A : Type 0} (c : Coordinator) (x : Answers) (o : Option A)
    → Does (Same c) (query x o) (λ a. Same c) (Same c)
unfolding query
query-Does c x none w s = fail_with-Does c x x.error_text (λ a. Same c) w s
query-Does c x (some a) w s = returns _ _ a w s

join-Does :
    (c : Coordinator) (x : Answers) (t : Task) (tcs : List TaskInputConfig)
    → Does (Same c) (join x t tcs) (λ u. Same c) (Same c)
unfolding join
join-Does c x t tcs w s = elim (Bool-cases (x.has_connector && any_huawei_auto tcs)) [
  | inr e ↦ rw e (returns (λ u. Same c) (Same c) tt w s)
  | inl e ↦ rw e (go (connect_to_conference x.connect t w.configs))
]
  where
    go :
        (r : Result (Unit {0}) × Map InputConfig)
        → Ends
            (λ (u : Unit {0}). Same c)
            (Same c)
            (elim r.0 as (λ y. Result (Unit {0}) × World) [
              | ok u ↦ (ok tt, record w { configs = r.1 })
              | err e ↦ fail_with x x.error_text (record w { configs = r.1 })
            ])
    go (ok u, d) = returns (λ u. Same c) (Same c) tt (record w { configs = d }) s
    go (err y, d) = fail_with-Does c x x.error_text (λ u. Same c) (record w { configs = d }) s

-- The row is recording, and the task has a process that is alive.
abbrev pub Monitored : Task → World → Type 0
Monitored t w = Row recording w × (is_process_alive w.coordinator t.id ≡ true)

Row-paths :
    (written : Bool) (t : Task) (w : World)
    → Row recording w
    → Row recording (update_recording_paths written t w)
unfolding update_recording_paths
Row-paths written t w (row, e, q) = elim (Bool-cases written) [
  | inr n ↦ rw (e, n, update_recording_paths) (row, e, q)
  | inl y ↦
      rw (e, y, update_recording_paths)
        (
          record row {
            recording_file = t.mkv_file_path;
            mkv_file_path = t.mkv_file_path;
            hls_preview_path = t.hls_preview_path;
          },
          refl,
          q,
        )
]

coordinator-paths :
    (written : Bool) (t : Task) (w : World)
    → (update_recording_paths written t w).coordinator ≡ w.coordinator
unfolding update_recording_paths
coordinator-paths written t w = ground arith

weaken :
    {A : Type 0} (c : Coordinator) (m : St World A) (Q : A → World → Type 0)
    → ((a : A) (w : World) → Q a w → Same c w)
    → Does (Same c) m Q (Same c)
    → Does (Same c) m (λ a. Same c) (Same c)
weaken c m Q h k w s =
    let e = k w s in record { value = λ a q. h a (m w).1 (e.value a q); failure = e.failure }

status_kept :
    (c : Coordinator) (x : Write) (status : Status) (message : Text)
    → Does (Same c) (ignore (set_status x status message)) (λ u. Same c) (Same c)
status_kept c x status message =
    does_ignore (Same c) (Same c) (Same c) (set_status x status message)
      (weaken c (set_status x status message) _ (λ a w q. q.0) (set_status-Does c x status message))

clean_up-Does :
    (c : Coordinator) (x : Answers) (t : Task) → Does (Same c) (clean_up x t) (λ u. Same c) (Same c)
unfolding clean_up
clean_up-Does c x t w s = elim (Bool-cases x.has_connector) [
  | inl e ↦ rw e (returns (λ u. Same c) (Same c) tt _ s)
  | inr e ↦ rw e (returns (λ u. Same c) (Same c) tt w s)
]

all_failed-Does :
    (c : Coordinator) (x : Answers) (t : Task) (message : Text) (Q : Task → World → Type 0)
    → Does
        (Same c)
        (ignore (set_status x.to_failed failed message) >> clean_up x t >> lift (err external))
        Q
        (Same c)
all_failed-Does c x t message Q =
    does_bind (Same c) (λ u. Same c) Q (Same c) _ _
      (does_bind (Same c) (λ u. Same c) (λ u. Same c) (Same c) _ _
        (status_kept c x.to_failed failed message) (λ u. clean_up-Does c x t))
      (λ u.
        does_lift (Same c) Q (Same c) (err external) (λ a w h. absurd (no_value a h)) (λ w s. s))
  where
    no_value : (a : Task) → err external ≡ ok a → ⊥
    no_value a h = cc

-- Without an error after the loop, some start has succeeded.
record_all-Does :
    (c : Coordinator) (x : Answers) (tcs : List TaskInputConfig) (attempts : List Attempt)
    (t : Task)
    → Does (λ w. Same c w × Row recording w) (record_all x tcs attempts t) Monitored (Same c)
unfolding record_all
record_all-Does c x tcs attempts t w (s, row) =
    let l = start_recordings tcs w.coordinator t attempts in
    let w' = record w { coordinator = l.coordinator } in
    let (unchanged, alive) = start_recordings_lem tcs w.coordinator t attempts in
    elim (Bool-cases (l.errors == length attempts)) [
      | inl e ↦
          let same : Same c w' = (unchanged ((==_iff l.errors (length attempts)).0 e)).0 ∙ s in
          rw e (all_failed-Does c x l.task (codes "所有录制启动失败") Monitored w' same)
      | inr e ↦
          let lives : is_process_alive l.coordinator t.id ≡ true = ground arith in
          rw e (
            returns Monitored (Same c) l.task _ (
              Row-paths x.paths_written l.task w' row,
              rw
                  (
                    coordinator-paths x.paths_written l.task w',
                    start_recordings-id tcs w.coordinator t attempts,
                  )
                  lives,
            ))
    ]

start_all-Does :
    (c : Coordinator) (f : FFmpegConfig) (x : Answers) (t : Task) (tcs : List TaskInputConfig)
    → Does (Same c) (start_all f x t tcs) Monitored (Same c)
unfolding start_all
start_all-Does c f x t tcs w s = elim (Bool-cases (no_configs tcs)) [
  | inl e ↦ rw e (fail_with-Does c x _ Monitored w s)
  | inr e ↦
      let configs = load_configs x.config_read tcs w.configs in
      elim (Bool-cases (any_source configs)) [
        | inr d ↦ rw (e, d) (fail_with-Does c x _ Monitored w s)
        | inl d ↦
            rw (e, d)
              (does_bind (Same c) (λ u v. Same c v × Row recording v) Monitored (Same c) _ _
                (set_status-Does c x.to_recording recording [])
                (λ u. record_all-Does c x tcs (map (attempt_of f x t) configs) t) w s)
      ]
]

-- From the status connecting on.
connected :
    (c : Coordinator) (f : FFmpegConfig) (x : Answers) (t : Task)
    → Does
        (Same c)
        (set_status x.to_connecting connecting [] >>= λ u. query x x.task_configs >>= λ tcs.
          join x t tcs >>= λ u.
          lift (if ltb 0 t.record_delay_minutes && x.delay_cancelled then err external else ok tt)
          >>= λ u. query x x.task_configs_again >>= λ tcs. start_all f x t tcs)
        Monitored
        (Same c)
connected c f x t =
    does_bind (Same c) (λ u. Same c) Monitored (Same c) _ _
      (weaken c (set_status x.to_connecting connecting []) _ (λ a w q. q.0)
        (set_status-Does c x.to_connecting connecting []))
      λ u.
        does_bind (Same c) (λ a. Same c) Monitored (Same c) _ _ (query-Does c x x.task_configs)
          λ tcs.
            does_bind (Same c) (λ u. Same c) Monitored (Same c) _ _ (join-Does c x t tcs)
              λ u.
                does_bind (Same c) (λ u. Same c) Monitored (Same c) _ _
                  (does_lift (Same c) (λ u. Same c) (Same c) _ (λ a w h s. s) (λ w s. s))
                  λ u.
                    does_bind (Same c) (λ a. Same c) Monitored (Same c) _ _
                      (query-Does c x x.task_configs_again) λ tcs. start_all-Does c f x t tcs

load_task-Does :
    (c : Coordinator) (found : Bool) → Does (Same c) (load_task found) (λ t. Same c) (Same c)
unfolding load_task
load_task-Does c found w s = record { value = λ t h. ground arith; failure = λ e h. ground arith }

execute_loaded-Does :
    (c : Coordinator) (f : FFmpegConfig) (x : Answers) (t : Task)
    → Does (Same c) (execute_loaded f x t) Monitored (Same c)
unfolding execute_loaded
execute_loaded-Does c f x t w s = elim (Bool-cases (same_status t.status pending)) [
  | inr e ↦ rw e (raises Monitored (Same c) invalid_input w s)
  | inl e ↦ elim (Bool-cases (after x.now t.end_time)) [
    | inl d ↦ rw (e, d) (fail_with-Does c x _ Monitored w s)
    | inr d ↦ rw (e, d) (connected c f x t w s)
  ]
]

execute-Does :
    (c : Coordinator) (f : FFmpegConfig) (x : Answers)
    → Does (Same c) (execute_task f x) Monitored (Same c)
unfolding execute_task
execute-Does c f x =
    does_bind (Same c) (λ t. Same c) Monitored (Same c) (load_task x.found) (execute_loaded f x)
      (load_task-Does c x.found) (execute_loaded-Does c f x)

-- An execution that goes on to its monitor leaves the row of the task recording and a process of the
-- task alive; one that ends before leaves the registry of processes as it was, whatever fails.
pub execute_task_lem :
    (f : FFmpegConfig) (x : Answers) (w : World)
    → let r = execute_task f x w in
      ((t : Task) → r.0 ≡ ok t → Monitored t r.1)
      × ((e : Error) → r.0 ≡ err e → r.1.coordinator ≡ w.coordinator)
execute_task_lem f x w = let e = execute-Does w.coordinator f x w refl in (e.value, e.failure)
