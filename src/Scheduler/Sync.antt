-- ===== src/Scheduler/Sync.antt =====
-- What `SyncPendingTasks` leaves in the scheduler.
use video_meeting_recorder.Common.{
  ℕ, ◌≡◌, ◌≢◌, refl, sym, ◌∙◌, subst, true, false, Option, none, some, List, [], ◌∷◌, contains,
  if◌then◌else◌, Bool-cases, Option-cases, inl, inr, ◌⊎◌, arith,
}
use video_meeting_recorder.Common.Maps.{lookup, has_key, lookup-insert, lookup-delete}
use video_meeting_recorder.Task.{Task, get_trigger_time}
use video_meeting_recorder.Scheduler.{
  Cron, Scheduler, unlink, link, schedule, place, recheck_entry, recheck, add_pending, task_ids,
  sync_pending_tasks, spawn_execution, spawn_expiration,
}
use video_meeting_recorder.Scheduler.Entries.{Answers}

contains_self : (k : ℕ) (ks : List ℕ) → contains k (k ∷ ks) ≡ true
unfolding contains
contains_self k ks = ground arith

contains-tail : (k j : ℕ) (ks : List ℕ) → contains k ks ≡ true → contains k (j ∷ ks) ≡ true
unfolding contains
contains-tail k j ks h = ground arith

contains-ne :
    (k j : ℕ) (ks : List ℕ) → contains k (j ∷ ks) ≡ true → (k ≡ j) ⊎ (contains k ks ≡ true)
unfolding contains
contains-ne k j ks h = ground arith

none-some : (o : Option ℕ) (e : ℕ) → o ≡ none → o ≡ some e → ⊥
none-some o e p q = cc

module _ (C : Cron) where
  -- Every scheduled task has its ID in one of the lists.
  abbrev Within : List ℕ → List ℕ → Scheduler C → Type 0
  Within ids visits s =
      (k e : ℕ)
      → lookup k s.task_entries ≡ some e
      → (contains k ids ≡ true) ⊎ (contains k visits ≡ true)

  entries-schedule :
      (s : Scheduler C) (time : ℕ) (t : Task) (k e : ℕ)
      → lookup k (schedule C s time t).1.task_entries ≡ some e
      → (k ≡ t.id) ⊎ (lookup k s.task_entries ≡ some e)
  unfolding schedule
  entries-schedule s time t k e h = go (C.add_func s.cron time t.id) refl
    where
      go :
          (r : Option (ℕ × C.Jobs))
          → C.add_func s.cron time t.id ≡ r
          → (k ≡ t.id) ⊎ (lookup k s.task_entries ≡ some e)
      go none q = inr (rw (q, schedule) at h)
      go (some (entry, j)) q =
          let h' : lookup k (link C s t.id entry j).task_entries ≡ some e = rw (q, schedule) at h in
          unfold link in ground (arith, h', lookup-insert k t.id entry s.task_entries)

  entries-place :
      (now : ℕ) (t : Task) (s : Scheduler C) (k e : ℕ)
      → lookup k (place C now t s).task_entries ≡ some e
      → (k ≡ t.id) ⊎ (lookup k s.task_entries ≡ some e)
  unfolding place spawn_execution spawn_expiration
  entries-place now t s k e h = ground (arith, entries-schedule s (get_trigger_time t) t k e)

  entries-unlink :
      (s : Scheduler C) (j i k e : ℕ)
      → lookup k (unlink C s j i).task_entries ≡ some e
      → (k ≢ j) × (lookup k s.task_entries ≡ some e)
  unfolding unlink
  entries-unlink s j i k e h = (
    λ p. ground (arith, lookup-delete k j s.task_entries),
    ground (arith, lookup-delete k j s.task_entries),
  )

  entries-recheck_entry :
      (now : ℕ) (ids : List ℕ) (get_task : ℕ → Option Task) (j i : ℕ) (s : Scheduler C) (k e : ℕ)
      → Answers C get_task
      → lookup k (recheck_entry C now ids get_task j i s).task_entries ≡ some e
      → (contains k ids ≡ true) ⊎ ((k ≢ j) × (lookup k s.task_entries ≡ some e))
  unfolding recheck_entry
  entries-recheck_entry now ids get_task j i s k e a h = elim (Bool-cases (contains j ids)) [
    | inr c ↦ inr (entries-unlink s j i k e (rw c at h))
    | inl c ↦ elim (Option-cases (get_task j)) [
      | inl g ↦ inr (entries-unlink s j i k e (rw (c, g, recheck_entry) at h))
      | inr (t, g) ↦
          elim (entries-place now t (unlink C s j i) k e (rw (c, g, recheck_entry) at h)) [
            | inl p ↦ inl (subst (λ x. contains x ids ≡ true) (sym (p ∙ a j t g)) c)
            | inr q ↦ inr (entries-unlink s j i k e q)
          ]
    ]
  ]

  recheck-Within :
      (now : ℕ) (ids : List ℕ) (get_task : ℕ → Option Task) (visits : List ℕ) (s : Scheduler C)
      → Answers C get_task
      → Within ids visits s
      → Within ids [] (recheck C now ids get_task visits s)
  unfolding recheck
  recheck-Within now ids get_task [] s a w = w
  recheck-Within now ids get_task (j ∷ visits) s a w =
      elim (Option-cases (lookup j s.task_entries)) [
        | inl q ↦
            rw (q, recheck)
              (recheck-Within now ids get_task visits s a (λ k e h. elim (w k e h) [
                | inl c ↦ inl c
                | inr c ↦ elim (contains-ne k j visits c) [
                  | inl p ↦ absurd (
                      none-some (lookup j s.task_entries) e q
                        (subst (λ x. lookup x s.task_entries ≡ some e) p h))
                  | inr d ↦ inr d
                ]
              ]))
        | inr (i, q) ↦
            rw (q, recheck)
              (recheck-Within now ids get_task visits (recheck_entry C now ids get_task j i s) a
                (λ k e h. elim (entries-recheck_entry now ids get_task j i s k e a h) [
                  | inl c ↦ inl c
                  | inr (n, l) ↦ elim (w k e l) [
                    | inl c ↦ inl c
                    | inr c ↦ elim (contains-ne k j visits c) [
                      | inl p ↦ absurd (n p)
                      | inr d ↦ inr d
                    ]
                  ]
                ]))
      ]

  -- The tasks are among the IDs.
  abbrev Among : List ℕ → List Task → Type 0
  Among ids [] = Unit
  Among ids (t ∷ ts) = (contains t.id ids ≡ true) × Among ids ts

  Among-cons : (j : ℕ) (ids : List ℕ) (ts : List Task) → Among ids ts → Among (j ∷ ids) ts
  Among-cons j ids [] a = tt
  Among-cons j ids (t ∷ ts) a = (contains-tail t.id j ids a.0, Among-cons j ids ts a.1)

  Among-self : (ts : List Task) → Among (task_ids C ts) ts
  Among-self [] = tt
  Among-self (t ∷ ts) =
      (contains_self t.id (task_ids C ts), Among-cons t.id (task_ids C ts) ts (Among-self ts))

  add_pending-Within :
      (now : ℕ) (ids : List ℕ) (ts : List Task) (s : Scheduler C)
      → Among ids ts
      → Within ids [] s
      → Within ids [] (add_pending C now ts s)
  unfolding add_pending
  add_pending-Within now ids [] s a w = w
  add_pending-Within now ids (t ∷ ts) s a w =
      add_pending-Within now ids ts (if has_key t.id s.task_entries then s else place C now t s) a.1
        (elim (Bool-cases (has_key t.id s.task_entries)) [
          | inl k ↦ rw k w
          | inr k ↦ rw k (λ j e h. elim (entries-place now t s j e h) [
            | inl p ↦ inl (subst (λ x. contains x ids ≡ true) (sym p) a.0)
            | inr q ↦ w j e q
          ])
        ])

  -- After a synchronisation whose loop has visited every scheduled task, each scheduled task is one of
  -- the pending tasks that the database returned.
  pub sync_only_pending :
      (now : ℕ) (tasks : List Task) (get_task : ℕ → Option Task) (visits : List ℕ) (s : Scheduler C)
      → Answers C get_task
      → ((k e : ℕ) → lookup k s.task_entries ≡ some e → contains k visits ≡ true)
      → (k e : ℕ)
      → lookup k (sync_pending_tasks C now (some tasks) get_task visits s).1.task_entries ≡ some e
      → contains k (task_ids C tasks) ≡ true
  unfolding sync_pending_tasks contains
  sync_only_pending now tasks get_task visits s a v k e h =
      elim (add_pending-Within now (task_ids C tasks) tasks _ (Among-self tasks)
        (recheck-Within now (task_ids C tasks) get_task visits s a (λ j i q. inr (v j i q))) k e
        h) [ inl c ↦ c | inr c ↦ absurd (false_true c) ]
    where
      false_true : false ≡ true → ⊥
      false_true p = cc
