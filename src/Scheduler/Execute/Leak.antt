-- ===== src/Scheduler/Execute/Leak.antt =====
-- What an execution that ends after its connection leaves of the terminal's lock.
use video_meeting_recorder.Common.{
  ℕ, ◌≡◌, refl, sym, ap, ◌∙◌, Bool, true, false, ◌&&◌, none, some, List, [], inl, inr, Text, codes,
  ltb, if◌then◌else◌, Bool-cases, arith,
}
use video_meeting_recorder.Common.Maps.{Map, lookup}
use video_meeting_recorder.Common.Clock.{after}
use video_meeting_recorder.Errors.{Result, ok, err, external}
use video_meeting_recorder.State.{St, ◌>>=◌, lift, bind_ok}
use video_meeting_recorder.Task.{
  Status, pending, connecting, failed, Task, TaskInputConfig, can_transition_to, same_status,
}
use video_meeting_recorder.InputConfig.{InputConfig, is_locked_by_task}
use video_meeting_recorder.Terminal.{get_config_id, connect_to_conference}
use video_meeting_recorder.Terminal.Exclusive.{connect_holds}
use video_meeting_recorder.Recorder.Command.{FFmpegConfig}
use video_meeting_recorder.TaskService
use video_meeting_recorder.Scheduler.Status.{update_task_status}
use video_meeting_recorder.Scheduler.Execute.{
  World, Write, Answers, load_task, set_status, fail_with, any_huawei_auto, query, join,
  load_configs, any_source, no_configs, start_all, execute_loaded, execute_task,
}

set_status-configs :
    (x : Write) (status : Status) (message : Text) (w : World)
    → (set_status x status message w).1.configs ≡ w.configs
unfolding set_status
set_status-configs x status message w =
    go (update_task_status (if x.found then w.task else none) x.written status message)
  where
    go :
        (r : Result Task)
        → (elim r as (λ x. Result (Unit {0}) × World) [
          | ok t ↦ (ok tt, record w { task = some t })
          | err e ↦ (err e, w)
        ]).1.configs
          ≡ w.configs
    go (ok t) = refl
    go (err e) = refl

fail_with-configs :
    (x : Answers) (message : Text) (w : World)
    → ((fail_with {A = Task} x message w).0 ≡ err external)
      × ((fail_with {A = Task} x message w).1.configs ≡ w.configs)
unfolding fail_with
fail_with-configs x message w = (refl, set_status-configs x.to_failed failed message w)

start_all-configs :
    (f : FFmpegConfig) (x : Answers) (t : Task) (tcs : List TaskInputConfig) (w : World)
    → any_source (load_configs x.config_read tcs w.configs) ≡ false
    → ((start_all f x t tcs w).0 ≡ err external) × ((start_all f x t tcs w).1.configs ≡ w.configs)
unfolding start_all
start_all-configs f x t tcs w h = elim (Bool-cases (no_configs tcs)) [
  | inl e ↦ rw e (fail_with-configs x (codes "无录制配置：请至少添加一个输入配置（USB/流媒体）") w)
  | inr e ↦ rw (e, h) (fail_with-configs x (codes "配置中没有可用的输入源（USB或流媒体）") w)
]

-- The row of a pending task goes to connecting.
to_connecting :
    (t : Task) (x : Write) (w : World)
    → w.task ≡ some t
    → t.status ≡ pending
    → x.found ≡ true
    → x.written ≡ true
    → set_status x connecting [] w
      ≡ (ok tt, record w { task = some (record t { status = connecting }) })
unfolding set_status update_task_status TaskService.update_task_status can_transition_to
to_connecting t x w h p f g = ground arith

connected_join :
    (x : Answers) (t : Task) (tcs : List TaskInputConfig) (w : World) (d : Map InputConfig)
    → x.has_connector ≡ true
    → any_huawei_auto tcs ≡ true
    → connect_to_conference x.connect t w.configs ≡ (ok tt, d)
    → join x t tcs w ≡ (ok tt, record w { configs = d })
unfolding join
connected_join x t tcs w d h a c = ground arith

module _ (f : FFmpegConfig) (x : Answers) (t : Task) where
  -- The steps of an execution after its connection, after the query, and after the status connecting.
  abbrev after_join : St World Task
  after_join =
      lift (if ltb 0 t.record_delay_minutes && x.delay_cancelled then err external else ok tt)
      >>= λ u. query x x.task_configs_again >>= λ tcs. start_all f x t tcs

  abbrev after_query : List TaskInputConfig → St World Task
  after_query tcs = join x t tcs >>= λ u. after_join

  abbrev after_connecting : St World Task
  after_connecting = query x x.task_configs >>= λ tcs. after_query tcs

  loaded-steps :
      (w : World)
      → same_status t.status pending ≡ true
      → after x.now t.end_time ≡ false
      → execute_loaded f x t w
        ≡ (set_status x.to_connecting connecting [] >>= λ u. after_connecting) w
  unfolding execute_loaded
  loaded-steps w p e = simp (p, e)

  after_join-steps :
      (tcs : List TaskInputConfig) (w : World)
      → t.record_delay_minutes ≡ 0
      → x.task_configs_again ≡ some tcs
      → after_join w ≡ start_all f x t tcs w
  unfolding query
  after_join-steps tcs w z e = simp (z, e)

  after_connecting-steps :
      (tcs : List TaskInputConfig) (w : World)
      → x.task_configs ≡ some tcs
      → after_connecting w ≡ after_query tcs w
  unfolding query
  after_connecting-steps tcs w e = simp (e)

load_task-row :
    (found : Bool) (t : Task) (w : World)
    → found ≡ true
    → w.task ≡ some t
    → load_task found w ≡ (ok t, w)
unfolding load_task
load_task-row found t w f e = ground arith

is_pending : (t : Task) → t.status ≡ pending → same_status t.status pending ≡ true
unfolding same_status
is_pending t e = ground arith

module _ (f : FFmpegConfig) (x : Answers) (t : Task) (tcs : List TaskInputConfig) (w : World) where
  -- What an execution finds that comes to its connection and past it.
  pub record Joins : Type 0 where
    pub loaded : w.task ≡ some t
    pub found : x.found ≡ true
    pub waits : t.status ≡ pending
    pub in_time : after x.now t.end_time ≡ false
    pub delay : t.record_delay_minutes ≡ 0
    pub status_found : x.to_connecting.found ≡ true
    pub status_written : x.to_connecting.written ≡ true
    pub listed : x.task_configs ≡ some tcs
    pub listed_again : x.task_configs_again ≡ some tcs
    pub connector : x.has_connector ≡ true
    pub terminal : any_huawei_auto tcs ≡ true

  execute-connected :
      (d : Map InputConfig)
      → Joins
      → connect_to_conference x.connect t w.configs ≡ (ok tt, d)
      → execute_task f x w
        ≡ start_all f x t tcs
            (record w { task = some (record t { status = connecting }); configs = d })
  unfolding execute_task
  execute-connected d j c =
      let w1 = record w { task = some (record t { status = connecting }) } in
      let w2 = record w1 { configs = d } in
      bind_ok (load_task x.found) (execute_loaded f x) w w t
        (load_task-row x.found t w j.found j.loaded)
      ∙ loaded-steps f x t w (is_pending t j.waits) j.in_time
      ∙ bind_ok (set_status x.to_connecting connecting []) (λ u. after_connecting f x t) w w1 tt
          (to_connecting t x.to_connecting w j.loaded j.waits j.status_found j.status_written)
      ∙ after_connecting-steps f x t tcs w1 j.listed
      ∙ bind_ok (join x t tcs) (λ u. after_join f x t) w1 w2 tt
          (connected_join x t tcs w1 d j.connector j.terminal c)
      ∙ after_join-steps f x t tcs w2 j.delay j.listed_again

  -- An execution of a pending task without a delay that has connected its terminal, where both queries
  -- answer the same connections and none of them has a configuration with a source, ends with an error,
  -- and the task goes on holding the lock of the terminal. The task is found, its end has not passed,
  -- and the write of its status connecting succeeds.
  pub failed_keeps_lock :
      (d : Map InputConfig) (config_id : ℕ) (c : InputConfig)
      → Joins
      → connect_to_conference x.connect t w.configs ≡ (ok tt, d)
      → any_source (load_configs x.config_read tcs d) ≡ false
      → get_config_id t.task_input_configs ≡ ok config_id
      → lookup config_id w.configs ≡ some c
      → c.id ≡ config_id
      → let r = execute_task f x w in
        (r.0 ≡ err external)
        × ((c' : InputConfig) × (lookup config_id r.1.configs ≡ some c')
            × (is_locked_by_task t.id c' ≡ true))
  failed_keeps_lock d config_id c j e n g l i =
      let w2 = record w { task = some (record t { status = connecting }); configs = d } in
      let (fails, kept) = start_all-configs f x t tcs w2 n in
      let (c', held, locked) =
        connect_holds x.connect t w.configs config_id c g l i (ap (λ r. r.0) e) in
      let run = execute-connected d j e in
      (
        ap (λ r. r.0) run ∙ fails,
        (
          c',
          ap (lookup config_id) (ap (λ r. r.1.configs) run ∙ kept ∙ sym (ap (λ r. r.1) e)) ∙ held,
          locked,
        ),
      )
