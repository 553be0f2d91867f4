-- ===== src/Recorder/Stop.antt =====
-- Starting and stopping: which processes a call reaches.
use video_meeting_recorder.Common.{
  ℕ, ◌≡◌, refl, sym, ◌∙◌, subst, Bool, true, false, ◌&&◌, List, [], ◌∷◌, Text, text_eq,
  text_eq_refl, has_prefix, ◌==◌, ==_iff, if◌then◌else◌, Bool-cases, inl, inr, arith,
}
use video_meeting_recorder.Common.Maps.{lookup-insert}
use video_meeting_recorder.Errors.{Result, ok, err}
use video_meeting_recorder.Task.{Task}
use video_meeting_recorder.Recorder.Decimal.{
  decimal, get_process_key, key_prefix, key_prefix_iff, key-ne-decimal,
}
use video_meeting_recorder.Recorder.Source.{InputSourceType}
use video_meeting_recorder.Recorder.Registry.{
  Process, Processes, Coordinator, Launch, find_process, remove_process, is_process_alive,
  new_process, register, start_recording_with_config, finish_start, launch_ffmpeg, cancel_running,
  stop_matching, stop_legacy, stop_recording, mark_exited, monitor_exit,
}

-- Each process stands under the key of its task and its configuration type.
abbrev pub Keyed : Processes → Type 0
Keyed [] = Unit
Keyed ((k, p) ∷ ps) = (k ≡ get_process_key p.task_id p.config_type) × Keyed ps

-- The specification of a stop, by task and not by key.
unfoldable pub stop_task : ℕ → Processes → Processes
stop_task task_id [] = []
stop_task task_id ((k, p) ∷ ps) =
    (k, if p.task_id == task_id && p.running then record p { cancelled = true } else p)
    ∷ stop_task task_id ps

prefix_test : (a b : ℕ) (t : Text) → has_prefix (get_process_key a t) (key_prefix b) ≡ (a == b)
prefix_test a b t = elim (Bool-cases (a == b)) [
  | inl e ↦ rw e ((key_prefix_iff a b t).1 ((==_iff a b).0 e))
  | inr e ↦ rw e (elim (Bool-cases (has_prefix (get_process_key a t) (key_prefix b))) [
    | inl h ↦ absurd (differ a b e ((key_prefix_iff a b t).0 h))
    | inr h ↦ h
  ])
]
  where
    differ : (a b : ℕ) → (a == b) ≡ false → a ≡ b → ⊥
    differ a b e h = ground arith

key_test :
    (k : Text) (p : Process) (b : ℕ)
    → k ≡ get_process_key p.task_id p.config_type
    → has_prefix k (key_prefix b) ≡ (p.task_id == b)
key_test k p b e =
    subst (λ x. has_prefix x (key_prefix b) ≡ (p.task_id == b)) (sym e)
      (prefix_test p.task_id b p.config_type)

stop_matching-stop_task :
    (task_id : ℕ) (ps : Processes)
    → Keyed ps
    → stop_matching (key_prefix task_id) ps ≡ stop_task task_id ps
unfolding stop_matching stop_task cancel_running
stop_matching-stop_task task_id [] w = refl
stop_matching-stop_task task_id ((k, p) ∷ ps) w =
    ground (arith, stop_matching-stop_task task_id ps w.1, key_test k p task_id w.0)

stop_legacy-none : (task_id : ℕ) (ps : Processes) → Keyed ps → stop_legacy (decimal task_id) ps ≡ ps
unfolding stop_legacy
stop_legacy-none task_id [] w = refl
stop_legacy-none task_id ((k, p) ∷ ps) w =
    let e : text_eq k (decimal task_id) ≡ false =
      subst (λ x. text_eq x (decimal task_id) ≡ false) (sym w.0)
        (key-ne-decimal p.task_id task_id p.config_type) in
    rw (e, stop_legacy-none task_id ps w.1)

Keyed-stop_task : (task_id : ℕ) (ps : Processes) → Keyed ps → Keyed (stop_task task_id ps)
unfolding stop_task
Keyed-stop_task task_id [] w = tt
Keyed-stop_task task_id ((k, p) ∷ ps) w = (w.0 ∙ (ground arith), Keyed-stop_task task_id ps w.1)

-- A stop cancels the running processes of its task, all of them, and changes no other process.
pub stop_recording_lem :
    (c : Coordinator) (task_id : ℕ)
    → Keyed c.processes
    → (stop_recording c task_id).processes ≡ stop_task task_id c.processes
unfolding stop_recording
stop_recording_lem c task_id w = rw (stop_matching-stop_task task_id c.processes w) (
    stop_legacy-none task_id (stop_task task_id c.processes)
      (Keyed-stop_task task_id c.processes w))

Keyed-remove : (key : Text) (ps : Processes) → Keyed ps → Keyed (remove_process key ps)
unfolding remove_process
Keyed-remove key [] w = tt
Keyed-remove key ((k, p) ∷ ps) w = elim (Bool-cases (text_eq k key)) [
  | inl e ↦ rw e (Keyed-remove key ps w.1)
  | inr e ↦ rw e (w.0, Keyed-remove key ps w.1)
]

Keyed-mark : (key : Text) (cmd : ℕ) (ps : Processes) → Keyed ps → Keyed (mark_exited key cmd ps)
unfolding mark_exited
Keyed-mark key cmd [] w = tt
Keyed-mark key cmd ((k, p) ∷ ps) w = (w.0 ∙ (ground arith), Keyed-mark key cmd ps w.1)

Keyed-finish_start :
    (c : Coordinator) (t : Task) (config_type : Text) (i : InputSourceType) (l : Launch)
    (r : Result ℕ)
    → Keyed c.processes
    → Keyed (finish_start c t config_type i l r).coordinator.processes
unfolding finish_start
Keyed-finish_start c t config_type i l (err e) w = w
Keyed-finish_start c t config_type i l (ok cmd) w = (refl, Keyed-remove _ c.processes w)

-- Calls of the coordinator that change the registry.
pub data Call : Type 0 where
  starts : Task → Text → InputSourceType → Launch → Call
  stops : ℕ → Call
  exits : Text → ℕ → Bool → Bool → Call

unfoldable pub step : Coordinator → Call → Coordinator
step c (starts t config_type i l) = (start_recording_with_config c t config_type i l).coordinator
step c (stops task_id) = stop_recording c task_id
step c (exits key cmd failed ctx_done) = (monitor_exit c key cmd failed ctx_done).0

unfoldable pub run : Coordinator → List Call → Coordinator
unfolding step
run c [] = c
run c (x ∷ xs) = run (step c x) xs

Keyed-step : (c : Coordinator) (x : Call) → Keyed c.processes → Keyed (step c x).processes
unfolding step start_recording_with_config monitor_exit
Keyed-step c (starts t config_type i l) w =
    Keyed-finish_start c t config_type i l (launch_ffmpeg l) w
Keyed-step c (stops task_id) w =
    rw (stop_recording_lem c task_id w) (Keyed-stop_task task_id c.processes w)
Keyed-step c (exits key cmd failed ctx_done) w = Keyed-mark key cmd c.processes w

Keyed-run : (c : Coordinator) (xs : List Call) → Keyed c.processes → Keyed (run c xs).processes
unfolding run
Keyed-run c [] w = w
Keyed-run c (x ∷ xs) w = Keyed-run (step c x) xs (Keyed-step c x w)

abbrev pub idle : Coordinator
idle = record { processes = []; task_id_process_key_index = [] }

-- After any starts, stops and exits from an empty registry, a stop cancels all running processes of
-- its task and changes no other process.
pub stop-after_run :
    (xs : List Call) (task_id : ℕ)
    → (stop_recording (run idle xs) task_id).processes ≡ stop_task task_id (run idle xs).processes
stop-after_run xs task_id = stop_recording_lem (run idle xs) task_id (Keyed-run idle xs tt)

register-is_alive :
    (c : Coordinator) (p : Process) → is_process_alive (register c p) p.task_id ≡ p.alive
unfolding is_process_alive register find_process
register-is_alive c p =
    let key = get_process_key p.task_id p.config_type in
    ground
      (arith, lookup-insert p.task_id p.task_id key c.task_id_process_key_index, text_eq_refl key)

started_alive :
    (c : Coordinator) (t : Task) (config_type : Text) (i : InputSourceType) (l : Launch)
    (r : Result ℕ)
    → (finish_start c t config_type i l r).result ≡ ok tt
    → is_process_alive (finish_start c t config_type i l r).coordinator t.id ≡ true
unfolding finish_start
started_alive c t config_type i l (err e) h = ground arith
started_alive c t config_type i l (ok cmd) h =
    register-is_alive c (new_process t.id config_type i t.end_time l cmd)

-- When a start succeeds, the process of the task is alive.
pub start-is_alive :
    (c : Coordinator) (t : Task) (config_type : Text) (i : InputSourceType) (l : Launch)
    → (start_recording_with_config c t config_type i l).result ≡ ok tt
    → is_process_alive (start_recording_with_config c t config_type i l).coordinator t.id ≡ true
unfolding start_recording_with_config
start-is_alive c t config_type i l h = started_alive c t config_type i l (launch_ffmpeg l) h

-- Once the process that a task registered last has exited, the task counts as not alive, whatever
-- other processes of the task still run.
pub exit-is_alive :
    (c : Coordinator) (p : Process) (failed ctx_done : Bool)
    → is_process_alive
        (monitor_exit
          (register c p)
          (get_process_key p.task_id p.config_type)
          p.cmd
          failed
          ctx_done).0
        p.task_id
      ≡ false
unfolding is_process_alive register find_process monitor_exit
exit-is_alive c p failed ctx_done =
    let key = get_process_key p.task_id p.config_type in
    ground
      (arith, lookup-insert p.task_id p.task_id key c.task_id_process_key_index, text_eq_refl key)
