-- ===== src/Scheduler/Complete/Ends.antt =====
-- What completing a task leaves.
use video_meeting_recorder.Common.{
  ℕ, ◌≡◌, refl, sym, ap, ◌∙◌, subst, Bool, true, false, not, ◌&&◌, none, some, List, [], ◌∷◌, ◌++◌,
  Text, codes, if◌then◌else◌, Bool-cases, Option-cases, inl, inr, arith,
}
use video_meeting_recorder.Common.Maps.{lookup, lookup-delete}
use video_meeting_recorder.Errors.{Result, ok, err}
use video_meeting_recorder.Task.{Status, Task, recording, converting, failed, can_transition_to}
use video_meeting_recorder.TaskService
use video_meeting_recorder.Recorder.Registry.{stop_recording}
use video_meeting_recorder.Scheduler.{Cron, Scheduler, remove_task}
use video_meeting_recorder.Scheduler.Status.{update_task_status}
use video_meeting_recorder.Scheduler.Execute.{World, Write, set_status, any_huawei_auto}
use video_meeting_recorder.Scheduler.Complete.{
  Closing, System, load, disconnect_task, stop_all, create_files, has_conversion, submit,
  after_submit, leave_conference, wind_up, complete_loaded, complete_task,
}

-- A change of the status that the table allows, read and written.
set_status_ok :
    (t : Task) (x : Write) (status : Status) (message : Text) (w : World)
    → w.task ≡ some t
    → can_transition_to t.status status ≡ true
    → x.found ≡ true
    → x.written ≡ true
    → set_status x status message w
      ≡ (ok tt, record w { task = some (TaskService.update_task_status status message t) })
unfolding set_status update_task_status
set_status_ok t x status message w h c f g = ground arith

set_status_none :
    (t : Task) (x : Write) (status : Status) (message : Text) (w : World)
    → w.task ≡ some t
    → (x.found && x.written) ≡ false
    → (set_status x status message w).1 ≡ w
unfolding set_status update_task_status
set_status_none t x status message w h f = ground arith

updated-status :
    (status : Status) (message : Text) (t : Task)
    → (TaskService.update_task_status status message t).status ≡ status
unfolding TaskService.update_task_status
updated-status status message t = ground arith

module _ (C : Cron) where
  -- The parts of the system that a step does not change.
  record Kept (s s' : System C) : Type 0 where
    task : s'.world.task ≡ s.world.task
    coordinator : s'.world.coordinator ≡ s.world.coordinator
    scheduler : s'.scheduler ≡ s.scheduler
    conversions : s'.conversions ≡ s.conversions

  leave-Kept : (x : Closing) (t : Task) (s : System C) → Kept s (leave_conference C x t s)
  unfolding leave_conference disconnect_task
  leave-Kept x t s = elim (Bool-cases (x.has_connector && any_huawei_auto x.task_configs)) [
    | inl e ↦
        rw e (record { task = refl; coordinator = refl; scheduler = refl; conversions = refl })
    | inr e ↦
        rw e (record { task = refl; coordinator = refl; scheduler = refl; conversions = refl })
  ]

  files-Kept : (x : Closing) (t : Task) (s : System C) → Kept s (create_files C x t s)
  unfolding create_files
  files-Kept x t s = elim (Bool-cases x.has_files) [
    | inl e ↦
        rw e (record { task = refl; coordinator = refl; scheduler = refl; conversions = refl })
    | inr e ↦
        rw e (record { task = refl; coordinator = refl; scheduler = refl; conversions = refl })
  ]

  removed :
      (task_id : ℕ) (s : Scheduler C)
      → lookup task_id (remove_task C task_id s).1.task_entries ≡ none
  unfolding remove_task
  removed task_id s = elim (Option-cases (lookup task_id s.task_entries)) [
    | inl e ↦ rw (e, remove_task) e
    | inr (entry_id, e) ↦
        rw (e, remove_task) (ground (arith, lookup-delete task_id task_id s.task_entries))
  ]

  -- The status of the row.
  abbrev pub HasStatus : Status → System C → Type 0
  HasStatus status s = (row : Task) × (s.world.task ≡ some row) × (row.status ≡ status)

  abbrev pub fails : Closing → Task → Bool
  fails x t =
      (has_conversion C x t && not x.submitted) && (x.to_failed.found && x.to_failed.written)

  may_fail : (t : Task) → t.status ≡ converting → can_transition_to t.status failed ≡ true
  unfolding can_transition_to
  may_fail t e = ground arith

  after_submit-status :
      (x : Closing) (t : Task) (s : System C)
      → HasStatus converting s
      → HasStatus (if fails x t then failed else converting) (after_submit C x t s)
  unfolding after_submit
  after_submit-status x t s (row, e, q) =
      elim (Bool-cases (has_conversion C x t && not x.submitted)) [
        | inr p ↦ rw p (row, e, q)
        | inl p ↦ elim (Bool-cases (x.to_failed.found && x.to_failed.written)) [
          | inr n ↦
              rw (p, n, set_status_none row x.to_failed failed (codes "提交转换任务失败") s.world e n)
                (row, e, q)
          | inl y ↦
              let (found, written) : (x.to_failed.found ≡ true) × (x.to_failed.written ≡ true) =
                (ground arith, ground arith) in
              let message = codes "提交转换任务失败" in
              rw
                (
                  p,
                  y,
                  set_status_ok row x.to_failed failed message s.world e (may_fail row q) found
                      written,
                )
                (
                  TaskService.update_task_status failed message row,
                  refl,
                  updated-status failed message row,
                )
        ]
      ]

  set_status-coordinator :
      (x : Write) (status : Status) (message : Text) (w : World)
      → (set_status x status message w).1.coordinator ≡ w.coordinator
  unfolding set_status
  set_status-coordinator x status message w =
      go (update_task_status (if x.found then w.task else none) x.written status message)
    where
      go :
          (r : Result Task)
          → (elim r as (λ y. Result (Unit {0}) × World) [
            | ok t ↦ (ok tt, record w { task = some t })
            | err e ↦ (err e, w)
          ]).1.coordinator
            ≡ w.coordinator
      go (ok t) = refl
      go (err e) = refl

  after_submit-rest :
      (x : Closing) (t : Task) (s : System C)
      → ((after_submit C x t s).world.coordinator ≡ s.world.coordinator)
        × ((after_submit C x t s).scheduler ≡ s.scheduler)
        × ((after_submit C x t s).conversions ≡ s.conversions)
  unfolding after_submit
  after_submit-rest x t s = elim (Bool-cases (has_conversion C x t && not x.submitted)) [
    | inr p ↦ rw p (refl, refl, refl)
    | inl p ↦
        rw p (set_status-coordinator x.to_failed failed (codes "提交转换任务失败") s.world, refl, refl)
  ]

  submit_lem :
      (x : Closing) (task_id : ℕ) (t : Task) (s : System C)
      → ((submit C x task_id t s).world ≡ s.world)
        × ((submit C x task_id t s).scheduler ≡ s.scheduler)
        × ((submit C x task_id t s).conversions
            ≡ s.conversions ++ (if has_conversion C x t then task_id ∷ [] else []))
  unfolding submit
  submit_lem x task_id t s = elim (Bool-cases (has_conversion C x t)) [
    | inl p ↦ rw p (refl, refl, refl)
    | inr p ↦ rw p (refl, refl, sym (append_nil s.conversions))
  ]
    where
      append_nil : (xs : List ℕ) → xs ++ [] ≡ xs
      append_nil [] = refl
      append_nil (y ∷ ys) = ap (◌∷◌ y) (append_nil ys)

  pub load_ok :
      (found : Bool) (t : Task) (s : System C)
      → found ≡ true
      → s.world.task ≡ some t
      → load C found s ≡ some t
  unfolding load
  load_ok found t s f h = ground arith

  may_convert : (t : Task) → t.status ≡ recording → can_transition_to t.status converting ≡ true
  unfolding can_transition_to
  may_convert t e = ground arith

  wind_up_lem :
      (x : Closing) (task_id : ℕ) (t : Task) (s : System C)
      → s.world.task ≡ some t
      → t.status ≡ recording
      → x.to_converting.found ≡ true
      → x.to_converting.written ≡ true
      → let s' = wind_up C x task_id s in
        HasStatus converting s'
        × (s'.world.coordinator ≡ stop_recording s.world.coordinator task_id)
        × (lookup task_id s'.scheduler.task_entries ≡ none)
        × (s'.conversions ≡ s.conversions)
  unfolding wind_up stop_all
  wind_up_lem x task_id t s h r g w =
      let quiet = stop_all C task_id s in
      rw (set_status_ok t x.to_converting converting [] quiet.world h (may_convert t r) g w) (
        (TaskService.update_task_status converting [] t, refl, updated-status converting [] t),
        refl,
        removed task_id s.scheduler,
        refl,
      )

  -- When a recording task is completed, and its row can be read and marked, then its recordings are
  -- stopped, its entry is gone, its conversion is submitted if it has an MKV file, and the row is
  -- converting, or failed if the conversion was not accepted and that could be written.
  pub complete_task_lem :
      (x : Closing) (task_id : ℕ) (t : Task) (s : System C)
      → s.world.task ≡ some t
      → t.status ≡ recording
      → x.found ≡ true
      → x.to_converting.found ≡ true
      → x.to_converting.written ≡ true
      → let s' = complete_task C x task_id s in
        HasStatus (if fails x t then failed else converting) s'
        × (s'.world.coordinator ≡ stop_recording s.world.coordinator task_id)
        × (lookup task_id s'.scheduler.task_entries ≡ none)
        × (s'.conversions ≡ s.conversions ++ (if has_conversion C x t then task_id ∷ [] else []))
  unfolding complete_task complete_loaded
  complete_task_lem x task_id t s h r f g w =
      let left = leave_conference C x t s in
      let k = leave-Kept x t s in
      let wound = wind_up C x task_id left in
      let (converts, stopped, unlisted, same) = wind_up_lem x task_id t left (k.task ∙ h) r g w in
      let filed = create_files C x t wound in
      let n = files-Kept x t wound in
      let sent = submit C x task_id t filed in
      let (world, scheduler, conversions) = submit_lem x task_id t filed in
      let (coordinator, entries, submitted) = after_submit-rest x t sent in
      let (row, e, q) = converts in
      rw (load_ok x.found t s f h) (
        after_submit-status x t sent (row, ap World.task world ∙ n.task ∙ e, q),
        coordinator
            ∙ ap World.coordinator world
            ∙ n.coordinator
            ∙ stopped
            ∙ ap (λ c. stop_recording c task_id) k.coordinator,
        subst (λ v. lookup task_id v.task_entries ≡ none) (sym (entries ∙ scheduler ∙ n.scheduler))
            unlisted,
        submitted
            ∙ conversions
            ∙ ap (λ c. c ++ (if has_conversion C x t then task_id ∷ [] else []))
                (n.conversions ∙ same ∙ k.conversions),
      )
