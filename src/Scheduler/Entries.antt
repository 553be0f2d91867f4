-- ===== src/Scheduler/Entries.antt =====
-- The two maps of the scheduler are inverse to one another, and hold exactly the live cron entries.
use video_meeting_recorder.Common.{
  ℕ, ◌≡◌, sym, subst, true, false, ◌==◌, Option, none, some, List, [], ◌∷◌, contains, if◌then◌else◌,
  Bool-cases, Option-cases, inl, inr, arith,
}
use video_meeting_recorder.Common.Maps.{Map, lookup, has_key, lookup-insert, lookup-delete}
use video_meeting_recorder.Common.Clock.{after}
use video_meeting_recorder.Task.{Task, get_trigger_time}
use video_meeting_recorder.Scheduler.{
  Cron, Scheduler, unlink, link, schedule, add_task, remove_task, place, recheck_entry, recheck,
  add_pending, task_ids, sync_pending_tasks, spawn_execution, spawn_expiration,
}

module _ (C : Cron) where
  pub record Synced (s : Scheduler C) : Type 0 where
    pub forward : (t e : ℕ) → lookup t s.task_entries ≡ some e → lookup e s.entry_tasks ≡ some t
    pub backward : (t e : ℕ) → lookup e s.entry_tasks ≡ some t → lookup t s.task_entries ≡ some e
    pub registered : (e : ℕ) → C.live s.cron e ≡ has_key e s.entry_tasks

  pub unlink-Synced :
      (s : Scheduler C) (t e : ℕ)
      → lookup t s.task_entries ≡ some e
      → Synced s
      → Synced (unlink C s t e)
  unfolding unlink
  unlink-Synced s t e h v = record {
    forward = λ t' e' k. ground (
      arith,
      lookup-delete t' t s.task_entries,
      lookup-delete e' e s.entry_tasks,
      v.forward t' e',
      v.forward t e,
    );
    backward = λ t' e' k. ground (
      arith,
      lookup-delete t' t s.task_entries,
      lookup-delete e' e s.entry_tasks,
      v.backward t' e',
      v.backward t e,
    );
    registered = λ e'.
        unfold has_key in
        ground
          (arith, C.remove_live s.cron e e', v.registered e', lookup-delete e' e s.entry_tasks);
  }

  pub link-Synced :
      (s : Scheduler C) (t e : ℕ) (j : C.Jobs)
      → lookup t s.task_entries ≡ none
      → C.live s.cron e ≡ false
      → ((x : ℕ) → C.live j x ≡ (if x == e then true else C.live s.cron x))
      → Synced s
      → Synced (link C s t e j)
  unfolding link has_key
  link-Synced s t e j h n l v = record {
    forward = λ t' e' k. ground (
      arith,
      lookup-insert t' t e s.task_entries,
      lookup-insert e' e t s.entry_tasks,
      v.forward t' e',
      v.registered e',
    );
    backward = λ t' e' k. ground (
      arith,
      lookup-insert t' t e s.task_entries,
      lookup-insert e' e t s.entry_tasks,
      v.backward t' e',
    );
    registered = λ e'. ground (arith, l e', v.registered e', lookup-insert e' e t s.entry_tasks);
  }

  schedule-Synced :
      (s : Scheduler C) (time : ℕ) (t : Task)
      → lookup t.id s.task_entries ≡ none
      → Synced s
      → Synced (schedule C s time t).1
  unfolding schedule
  schedule-Synced s time t h v = elim (Option-cases (C.add_func s.cron time t.id)) [
    | inl e ↦ rw (e, schedule) v
    | inr ((entry, j), e) ↦
        rw (e, schedule)
          (link-Synced s t.id entry j h (C.add_new s.cron j time t.id entry e)
            (λ x. C.add_live s.cron j time t.id entry x e) v)
  ]

  has_key-false : (k : ℕ) (m : Map ℕ) → has_key k m ≡ false → lookup k m ≡ none
  unfolding has_key
  has_key-false k m h = ground arith

  pub place-Synced :
      (now : ℕ) (t : Task) (s : Scheduler C)
      → lookup t.id s.task_entries ≡ none
      → Synced s
      → Synced (place C now t s)
  unfolding place
  place-Synced now t s h v = elim (Bool-cases (after now t.end_time)) [
    | inl e ↦ rw e (
        unfold spawn_expiration in
        record { forward = v.forward; backward = v.backward; registered = v.registered })
    | inr e ↦ elim (Bool-cases (after now (get_trigger_time t))) [
      | inl d ↦
          rw (e, d)
            (unfold spawn_execution in
              record { forward = v.forward; backward = v.backward; registered = v.registered })
      | inr d ↦ rw (e, d) (schedule-Synced s (get_trigger_time t) t h v)
    ]
  ]

  add_task-Synced :
      (now : ℕ) (t : Task) (s : Scheduler C) → Synced s → Synced (add_task C now t s).1
  unfolding add_task
  add_task-Synced now t s v = elim (Bool-cases (has_key t.id s.task_entries)) [
    | inl k ↦ rw k v
    | inr k ↦ elim (Bool-cases (after now t.end_time)) [
      | inl e ↦ rw (k, e) v
      | inr e ↦ elim (Bool-cases (after now (get_trigger_time t))) [
        | inl d ↦
            rw (k, e, d)
              (unfold spawn_execution in
                record { forward = v.forward; backward = v.backward; registered = v.registered })
        | inr d ↦
            rw (k, e, d)
              (schedule-Synced s (get_trigger_time t) t (has_key-false t.id s.task_entries k) v)
      ]
    ]
  ]

  remove_task-Synced :
      (task_id : ℕ) (s : Scheduler C) → Synced s → Synced (remove_task C task_id s).1
  unfolding remove_task
  remove_task-Synced task_id s v = elim (Option-cases (lookup task_id s.task_entries)) [
    | inl e ↦ rw (e, remove_task) v
    | inr (entry, e) ↦ rw (e, remove_task) (unlink-Synced s task_id entry e v)
  ]

  lookup-unlink : (s : Scheduler C) (t e : ℕ) → lookup t (unlink C s t e).task_entries ≡ none
  unfolding unlink
  lookup-unlink s t e = ground (arith, lookup-delete t t s.task_entries)

  -- The database answers a task with the ID that was asked for.
  abbrev pub Answers : (ℕ → Option Task) → Type 0
  Answers get_task = (k : ℕ) (t : Task) → get_task k ≡ some t → t.id ≡ k

  pub recheck_entry-Synced :
      (now : ℕ) (ids : List ℕ) (get_task : ℕ → Option Task) (k e : ℕ) (s : Scheduler C)
      → Answers get_task
      → lookup k s.task_entries ≡ some e
      → Synced s
      → Synced (recheck_entry C now ids get_task k e s)
  unfolding recheck_entry
  recheck_entry-Synced now ids get_task k e s a h v =
      let v' = unlink-Synced s k e h v in
      elim (Bool-cases (contains k ids)) [
        | inr c ↦ rw c v'
        | inl c ↦ elim (Option-cases (get_task k)) [
          | inl g ↦ rw (c, g, recheck_entry) v'
          | inr (t, g) ↦
              rw (c, g, recheck_entry)
                (place-Synced now t (unlink C s k e)
                  (subst (λ x. lookup x (unlink C s k e).task_entries ≡ none) (sym (a k t g))
                    (lookup-unlink s k e))
                  v')
        ]
      ]

  recheck-Synced :
      (now : ℕ) (ids : List ℕ) (get_task : ℕ → Option Task) (visits : List ℕ) (s : Scheduler C)
      → Answers get_task
      → Synced s
      → Synced (recheck C now ids get_task visits s)
  unfolding recheck
  recheck-Synced now ids get_task [] s a v = v
  recheck-Synced now ids get_task (k ∷ visits) s a v =
      elim (Option-cases (lookup k s.task_entries)) [
        | inl e ↦ rw (e, recheck) (recheck-Synced now ids get_task visits s a v)
        | inr (entry, e) ↦
            rw (e, recheck)
              (recheck-Synced now ids get_task visits (recheck_entry C now ids get_task k entry s) a
                (recheck_entry-Synced now ids get_task k entry s a e v))
      ]

  add_pending-Synced :
      (now : ℕ) (ts : List Task) (s : Scheduler C) → Synced s → Synced (add_pending C now ts s)
  unfolding add_pending
  add_pending-Synced now [] s v = v
  add_pending-Synced now (t ∷ ts) s v = elim (Bool-cases (has_key t.id s.task_entries)) [
    | inl k ↦ rw k (add_pending-Synced now ts s v)
    | inr k ↦ rw k (
        add_pending-Synced now ts (place C now t s)
          (place-Synced now t s (has_key-false t.id s.task_entries k) v))
  ]

  -- A call of the scheduler: its clock, and what the database and the map iteration answer.
  pub data Call : Type 0 where
    adds : ℕ → Task → Call
    removes : ℕ → Call
    syncs : ℕ → Option (List Task) → (get_task : ℕ → Option Task) → List ℕ → Answers get_task → Call

  unfoldable pub step : Scheduler C → Call → Scheduler C
  step s (adds now t) = (add_task C now t s).1
  step s (removes task_id) = (remove_task C task_id s).1
  step s (syncs now tasks get_task visits a) = (sync_pending_tasks C now tasks get_task visits s).1

  unfoldable pub run : Scheduler C → List Call → Scheduler C
  unfolding step
  run s [] = s
  run s (x ∷ xs) = run (step s x) xs

  step-Synced : (s : Scheduler C) (x : Call) → Synced s → Synced (step s x)
  unfolding step sync_pending_tasks
  step-Synced s (adds now t) v = add_task-Synced now t s v
  step-Synced s (removes task_id) v = remove_task-Synced task_id s v
  step-Synced s (syncs now none get_task visits a) v = v
  step-Synced s (syncs now (some tasks) get_task visits a) v =
      add_pending-Synced now tasks _ (recheck-Synced now (task_ids C tasks) get_task visits s a v)

  -- From a state where the two maps are inverse to one another and the live cron entries are those of
  -- the maps, it stays so however tasks are added, removed and synchronised.
  pub run-Synced : (s : Scheduler C) (xs : List Call) → Synced s → Synced (run s xs)
  unfolding run
  run-Synced s [] v = v
  run-Synced s (x ∷ xs) v = run-Synced (step s x) xs (step-Synced s x v)
