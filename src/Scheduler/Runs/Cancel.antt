-- ===== src/Scheduler/Runs/Cancel.antt =====
-- Which runs a cancellation reaches.
use video_meeting_recorder.Common.{
  ℕ, suc, ◌<◌, ◌≡◌, refl, true, false, none, some, List, [], ◌∷◌, contains, Bool-cases,
  Option-cases, inl, inr, arith,
}
use video_meeting_recorder.Common.Maps.{lookup, insert, delete, lookup-insert, lookup-delete}
use video_meeting_recorder.Scheduler.Runs.{
  Runs, is_executing, begin, end_early, begin_monitor, end_monitor, cancel, send,
  update_task_end_time, receive,
}

pub data Call : Type 0 where
  begins : (task_id : ℕ) → Call
  ends_early : (run : ℕ) → Call
  begins_monitor : (run end_time : ℕ) → Call
  ends_monitor : (run : ℕ) → Call
  cancels : (task_id : ℕ) → Call
  updates : (task_id time : ℕ) → Call
  receives : (run : ℕ) → Call

unfoldable pub step : Call → Runs → Runs
unfolding begin end_early begin_monitor end_monitor cancel update_task_end_time receive
step (begins task_id) s = begin task_id s
step (ends_early run) s = end_early run s
step (begins_monitor run end_time) s = begin_monitor run end_time s
step (ends_monitor run) s = end_monitor run s
step (cancels task_id) s = (cancel task_id s).1
step (updates task_id time) s = (update_task_end_time task_id time s).1
step (receives run) s = (receive run s).1

unfoldable pub run_all : List Call → Runs → Runs
unfolding step
run_all [] s = s
run_all (c ∷ cs) s = run_all cs (step c s)

-- Every run of the task that is cancelled has ended.
unfoldable pub Ended : ℕ → Runs → Type 0
Ended task_id s = (run : ℕ) → lookup run s.live ≡ some task_id → contains run s.cancelled ≡ true → ⊥

-- A task is executed again only when its cancelled runs have ended.
unfoldable pub Orderly : List Call → Runs → Type 0
Orderly [] s = Unit {0}
Orderly (begins task_id ∷ cs) s = Ended task_id s × Orderly cs (step (begins task_id) s)
Orderly (c ∷ cs) s = Orderly cs (step c s)

-- The runs of the state and its maps agree.
pub record Agrees (s : Runs) : Type 0 where
  pub owns :
      (run task_id : ℕ)
      → lookup run s.live ≡ some task_id
      → contains run s.cancelled ≡ false
      → (lookup task_id s.executing ≡ some true) × (lookup task_id s.cancel_funcs ≡ some run)
  pub apart :
      (run other task_id : ℕ)
      → lookup run s.live ≡ some task_id
      → lookup other s.live ≡ some task_id
      → contains run s.cancelled ≡ true
      → contains other s.cancelled ≡ false
      → ⊥
  pub numbered : (run task_id : ℕ) → lookup run s.live ≡ some task_id → run < s.next
  pub past : (run : ℕ) → contains run s.cancelled ≡ true → run < s.next
  pub known : (task_id run : ℕ) → lookup task_id s.cancel_funcs ≡ some run → run < s.next

-- A task without a run gets one.
begun-Agrees :
    (task_id : ℕ) (s : Runs)
    → ((run : ℕ) → lookup run s.live ≡ some task_id → ⊥)
    → Agrees s
    → Agrees (record s {
      executing = insert task_id true s.executing;
      cancel_funcs = insert task_id s.next s.cancel_funcs;
      live = insert s.next task_id s.live;
      next = suc s.next;
    })
begun-Agrees task_id s none_live a = record {
  owns = λ run t l n. ground (
    arith,
    lookup-insert run s.next task_id s.live,
    lookup-insert t task_id true s.executing,
    lookup-insert t task_id s.next s.cancel_funcs,
    a.owns run t,
    none_live run,
  );
  apart = λ run other t l m c n. ground (
    arith,
    lookup-insert run s.next task_id s.live,
    lookup-insert other s.next task_id s.live,
    a.apart run other t,
    a.past run,
    none_live run,
  );
  numbered = λ run t l. ground (arith, lookup-insert run s.next task_id s.live, a.numbered run t);
  past = λ run c. ground (arith, a.past run);
  known = λ t run l. ground (arith, lookup-insert t task_id s.next s.cancel_funcs, a.known t run);
}

begin-Agrees : (task_id : ℕ) (s : Runs) → Ended task_id s → Agrees s → Agrees (begin task_id s)
unfolding begin is_executing Ended
begin-Agrees task_id s e a = elim (Bool-cases (is_executing task_id s)) [
  | inl p ↦ rw (p, begin) a
  | inr p ↦
      rw (p, begin) (begun-Agrees task_id s (λ run l. ground (arith, a.owns run task_id, e run)) a)
]

-- A run that ends takes the entries of its task with it.
ended-Agrees :
    (run task_id : ℕ) (s : Runs)
    → lookup run s.live ≡ some task_id
    → Agrees s
    → Agrees (record s {
      executing = delete task_id s.executing;
      cancel_funcs = delete task_id s.cancel_funcs;
      live = delete run s.live;
    })
ended-Agrees run task_id s l a = record {
  owns = λ r t m n. ground (
    arith,
    lookup-delete r run s.live,
    lookup-delete t task_id s.executing,
    lookup-delete t task_id s.cancel_funcs,
    a.owns r t,
    a.owns run task_id,
    a.apart run r task_id,
  );
  apart = λ r other t m k c n.
      ground (arith, lookup-delete r run s.live, lookup-delete other run s.live, a.apart r other t);
  numbered = λ r t m. ground (arith, lookup-delete r run s.live, a.numbered r t);
  past = a.past;
  known = λ t r l. ground (arith, lookup-delete t task_id s.cancel_funcs, a.known t r);
}

-- Only the executing tasks, the cancel functions and the runs matter.
kept-Agrees :
    (s s' : Runs)
    → s'.executing ≡ s.executing
    → s'.cancel_funcs ≡ s.cancel_funcs
    → s'.live ≡ s.live
    → s'.cancelled ≡ s.cancelled
    → s'.next ≡ s.next
    → Agrees s
    → Agrees s'
kept-Agrees s s' p q l c n a = record {
  owns = rw (p, q, l, c) a.owns;
  apart = rw (l, c) a.apart;
  numbered = rw (l, n) a.numbered;
  past = rw (c, n) a.past;
  known = rw (q, n) a.known;
}

end_early-Agrees : (run : ℕ) (s : Runs) → Agrees s → Agrees (end_early run s)
unfolding end_early
end_early-Agrees run s a = elim (Option-cases (lookup run s.live)) [
  | inl p ↦ rw (p, end_early) a
  | inr (t, p) ↦ rw (p, end_early) (ended-Agrees run t s p a)
]

end_monitor-Agrees : (run : ℕ) (s : Runs) → Agrees s → Agrees (end_monitor run s)
unfolding end_monitor
end_monitor-Agrees run s a = elim (Option-cases (lookup run s.live)) [
  | inl p ↦ rw (p, end_monitor) a
  | inr (t, p) ↦
      rw (p, end_monitor) (kept-Agrees _ _ refl refl refl refl refl (ended-Agrees run t s p a))
]

begin_monitor-Agrees :
    (run end_time : ℕ) (s : Runs) → Agrees s → Agrees (begin_monitor run end_time s)
unfolding begin_monitor
begin_monitor-Agrees run end_time s a = elim (Option-cases (lookup run s.live)) [
  | inl p ↦ rw (p, begin_monitor) a
  | inr (t, p) ↦ rw (p, begin_monitor) (kept-Agrees s _ refl refl refl refl refl a)
]

cancelled-Agrees :
    (task_id run : ℕ) (s : Runs)
    → lookup task_id s.cancel_funcs ≡ some run
    → Agrees s
    → Agrees (record s {
      cancel_funcs = delete task_id s.cancel_funcs;
      executing = delete task_id s.executing;
      cancelled = run ∷ s.cancelled;
    })
unfolding contains
cancelled-Agrees task_id run s p a = record {
  owns = λ r t l n. ground (
    arith,
    lookup-delete t task_id s.executing,
    lookup-delete t task_id s.cancel_funcs,
    a.owns r t,
  );
  apart = λ r other t l m c n. ground (arith, a.apart r other t, a.owns r t, a.owns other t);
  numbered = a.numbered;
  past = λ r c. ground (arith, a.past r, a.known task_id run);
  known = λ t r l. ground (arith, lookup-delete t task_id s.cancel_funcs, a.known t r);
}

cancel-Agrees : (task_id : ℕ) (s : Runs) → Agrees s → Agrees (cancel task_id s).1
unfolding cancel
cancel-Agrees task_id s a = elim (Option-cases (lookup task_id s.cancel_funcs)) [
  | inl p ↦ rw (p, cancel) a
  | inr (run, p) ↦ rw (p, cancel) (cancelled-Agrees task_id run s p a)
]

send-Agrees : (run time : ℕ) (s : Runs) → Agrees s → Agrees (send run time s).1
unfolding send
send-Agrees run time s a = elim (Option-cases (lookup run s.channels)) [
  | inl p ↦ rw (p, send) a
  | inr (none, p) ↦ rw (p, send) (kept-Agrees s _ refl refl refl refl refl a)
  | inr (some earlier, p) ↦ rw (p, send) a
]

update-Agrees :
    (task_id time : ℕ) (s : Runs) → Agrees s → Agrees (update_task_end_time task_id time s).1
unfolding update_task_end_time
update-Agrees task_id time s a = elim (Bool-cases (is_executing task_id s)) [
  | inr p ↦ rw (p, update_task_end_time) a
  | inl p ↦ elim (Option-cases (lookup task_id s.task_update_chans)) [
    | inl q ↦ rw (p, q, update_task_end_time) a
    | inr (run, q) ↦
        rw (p, q, update_task_end_time)
          (send-Agrees run time (record s { task_end_times = insert task_id time s.task_end_times })
            (kept-Agrees s _ refl refl refl refl refl a))
  ]
]

receive-Agrees : (run : ℕ) (s : Runs) → Agrees s → Agrees (receive run s).1
unfolding receive
receive-Agrees run s a = elim (Option-cases (lookup run s.channels)) [
  | inl p ↦ rw (p, receive) a
  | inr (content, p) ↦ rw (p, receive) (kept-Agrees s _ refl refl refl refl refl a)
]

step-Agrees :
    (c : Call) (cs : List Call) (s : Runs)
    → Orderly (c ∷ cs) s
    → Agrees s
    → Agrees (step c s) × Orderly cs (step c s)
unfolding step Orderly
step-Agrees (begins task_id) cs s (e, o) a = (begin-Agrees task_id s e a, o)
step-Agrees (ends_early run) cs s o a = (end_early-Agrees run s a, o)
step-Agrees (begins_monitor run end_time) cs s o a = (begin_monitor-Agrees run end_time s a, o)
step-Agrees (ends_monitor run) cs s o a = (end_monitor-Agrees run s a, o)
step-Agrees (cancels task_id) cs s o a = (cancel-Agrees task_id s a, o)
step-Agrees (updates task_id time) cs s o a = (update-Agrees task_id time s a, o)
step-Agrees (receives run) cs s o a = (receive-Agrees run s a, o)

run_all-Agrees : (cs : List Call) (s : Runs) → Orderly cs s → Agrees s → Agrees (run_all cs s)
unfolding run_all
run_all-Agrees [] s o a = a
run_all-Agrees (c ∷ cs) s o a =
    let (a', o') = step-Agrees c cs s o a in run_all-Agrees cs (step c s) o' a'

-- The maps of a new scheduler.
abbrev pub initial : Runs
initial = record {
  executing = [];
  cancel_funcs = [];
  task_end_times = [];
  task_update_chans = [];
  channels = [];
  live = [];
  cancelled = [];
  next = 0;
}

initial-Agrees : Agrees initial
unfolding lookup contains
initial-Agrees = record {
  owns = λ run t l n. ground arith;
  apart = λ run other t l m c n. ground arith;
  numbered = λ run t l. ground arith;
  past = λ run c. ground arith;
  known = λ t run l. ground arith;
}

-- As long as no task is executed again before its cancelled runs have ended, a task has at most one run
-- that is not cancelled, which counts as executing, and a cancellation reaches every run of its task.
pub cancel_reaches :
    (cs : List Call) (task_id : ℕ)
    → Orderly cs initial
    → let s = run_all cs initial in
      ((run other : ℕ)
        → lookup run s.live ≡ some task_id
        → lookup other s.live ≡ some task_id
        → contains run s.cancelled ≡ false
        → contains other s.cancelled ≡ false
        → (run ≡ other) × (is_executing task_id s ≡ true))
      × ((run : ℕ)
          → lookup run (cancel task_id s).1.live ≡ some task_id
          → contains run (cancel task_id s).1.cancelled ≡ true)
unfolding cancel is_executing contains
cancel_reaches cs task_id o =
    let s = run_all cs initial in
    let a = run_all-Agrees cs initial o initial-Agrees in
    (
      λ run other l m c n. ground (arith, a.owns run task_id, a.owns other task_id),
      λ run l. ground (arith, a.owns run task_id),
    )

-- A run that ends after its cancellation, when the task is executed again already, takes the entries of
-- the new run with it: that run is live and not cancelled, no cancellation finds it, and a third run
-- of the task begins beside it.
pub late_end_hides :
    (task_id : ℕ)
    → let s =
        run_all (begins task_id ∷ cancels task_id ∷ begins task_id ∷ ends_early 0 ∷ []) initial in
      (lookup 1 s.live ≡ some task_id)
      × (contains 1 s.cancelled ≡ false)
      × (is_executing task_id s ≡ false)
      × (cancel task_id s ≡ (false, s))
      × (lookup 2 (begin task_id s).live ≡ some task_id)
unfolding run_all step begin cancel end_early is_executing lookup insert delete contains
late_end_hides task_id = ground arith
