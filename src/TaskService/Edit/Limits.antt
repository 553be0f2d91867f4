-- ===== src/TaskService/Edit/Limits.antt =====
-- UpdateTask of video_recording_task_service.go: what of a task that is being recorded it may change.
use video_meeting_recorder.Common.{
  ℕ, ◌≡◌, refl, ap, ◌∙◌, ◌&&◌, ◌⊎◌, inl, inr, Bool, true, false, not, Option, none, some, List,
  Text, Bool-cases, if◌then◌else◌,
}
use video_meeting_recorder.Common.Maps.{lookup, insert}
use video_meeting_recorder.Errors.{Error, Result, ok, err, ◌>>=◌, external, invalid_input}
use video_meeting_recorder.Task.{Task, pending, recording, same_status}
use video_meeting_recorder.TaskService.{Caller, may_touch}
use video_meeting_recorder.TaskService.Edit.{
  Store, UpdateTaskRequest, UpdateAnswers, given, new_end, changed, notify, told, put_task, checked,
  write_changes, update_changed, update_found, update_task,
}

abbrev pub with_end : Task → ℕ → Task
with_end t e = record t { end_time = e }

-- The tasks are the same, or one has another end.
abbrev pub OnlyEnd : ℕ → Task → Store → Store → Type 0
OnlyEnd id t s s' = (s'.tasks ≡ s.tasks) ⊎ ((e : ℕ) × (s'.tasks ≡ insert id (with_end t e) s.tasks))

notify-tasks : (b : Bool) (id : ℕ) (e : Option ℕ) (s : Store) → (notify b id e s).tasks ≡ s.tasks
unfolding notify
notify-tasks b id none s = refl
notify-tasks false id (some e) s = refl
notify-tasks true id (some e) s = refl

write_changes-recording :
    (a : UpdateAnswers) (id : ℕ) (is : Option (List ℕ)) (t : Task) (s : Store)
    → (write_changes a id true is t s).1.tasks ≡ insert id t s.tasks
unfolding write_changes checked put_task
write_changes-recording a id none t s = refl
write_changes-recording a id (some is) t s = refl

ended :
    (t : Task) (r : Result (Option ℕ))
    → ((x : Error) × ((r >>= λ e. ok (record t { end_time = given t.end_time e })) ≡ err x))
      ⊎ ((e : ℕ) × ((r >>= λ e. ok (record t { end_time = given t.end_time e }))
            ≡ ok (with_end t e)))
ended t (err x) = inl (x, refl)
ended t (ok e) = inr (given t.end_time e, refl)

changed-recording :
    (parse : Text → Option ℕ) (q : UpdateTaskRequest) (t : Task)
    → same_status t.status recording ≡ true
    → ((x : Error) × (changed parse q t ≡ err x))
      ⊎ ((e : ℕ) × (changed parse q t ≡ ok (with_end t e)))
unfolding changed
changed-recording parse q t r = rw r (ended t (new_end parse q t))

after_fields :
    (a : UpdateAnswers) (id e : ℕ) (is : Option (List ℕ)) (t : Task) (s s' : Store) (written : Bool)
    → s'.tasks ≡ s.tasks
    → OnlyEnd id t s
        (if not written then (err external, s') else write_changes a id true is (with_end t e) s').1
after_fields a id e is t s s' false h = inl h
after_fields a id e is t s s' true h =
    inr (e, write_changes-recording a id is (with_end t e) s' ∙ ap (insert id (with_end t e)) h)

update_changed-recording :
    (parse : Text → Option ℕ) (a : UpdateAnswers) (id : ℕ) (q : UpdateTaskRequest) (t : Task)
    (e : ℕ) (s : Store)
    → same_status t.status recording ≡ true
    → OnlyEnd id t s (update_changed parse a id q t (ok (with_end t e)) s).1
unfolding update_changed
update_changed-recording parse a id q t e s r = rw r (
    after_fields a id e q.input_config_ids t s (notify true id (told q.end_time e) s)
      a.fields_written (notify-tasks true id (told q.end_time e) s))

found-recording :
    (parse : Text → Option ℕ) (a : UpdateAnswers) (id : ℕ) (q : UpdateTaskRequest) (t : Task)
    (s : Store)
    → same_status t.status recording ≡ true
    → OnlyEnd id t s
        (if not (same_status t.status recording) && not (same_status t.status pending)
          then (err invalid_input, s)
          else update_changed parse a id q t (changed parse q t) s).1
unfolding update_changed
found-recording parse a id q t s r = rw r (elim (changed-recording parse q t r) [
  | inl (x, e) ↦ rw e (inl refl)
  | inr (e, h) ↦ rw h (update_changed-recording parse a id q t e s r)
])

-- Whatever UpdateTask is asked of a task that is being recorded, and however it ends, the table of tasks
-- stays as it was, or the task has another end and is otherwise as it was.
pub update_task-recording :
    (parse : Text → Option ℕ) (a : UpdateAnswers) (id : ℕ) (q : UpdateTaskRequest) (u : Caller)
    (t : Task) (s : Store)
    → lookup id s.tasks ≡ some t
    → t.status ≡ recording
    → OnlyEnd id t s (update_task parse a id q u s).1
unfolding update_task update_found same_status
update_task-recording parse a id q u t s h r = rw h (elim (Bool-cases (may_touch u t)) [
  | inr e ↦ rw e (inl refl)
  | inl e ↦ rw e (found-recording parse a id q t s (ap (λ x. same_status x recording) r))
])
