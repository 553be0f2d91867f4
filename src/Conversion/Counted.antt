-- ===== src/Conversion/Counted.antt =====
-- The retry count of internal/services/conversion_service.go, under any calls.
use video_meeting_recorder.Common.{
  ℕ, ◌≡◌, refl, ap, sym, ◌∙◌, subst, Bool, true, false, not, ◌&&◌, Option, none, some, List, [],
  ◌∷◌, length, take, ltb, ◌==◌, if◌then◌else◌, Bool-cases, inl, inr, arith,
}
use video_meeting_recorder.Common.Maps.{Map, lookup}
use video_meeting_recorder.Conversion.{
  ConversionStatus, Recording, Conversion, Files, Answers, Progress, no_progress, queue_size,
  change, change_if, reset, begin, set_path, note_error, complete, enqueue, is_processing,
  submit_loaded, submit_conversion, retry_conversion, current_path, started_rows, convert_all,
  files_to_convert, handle_conversion_error, after_files, process_loaded, process_task, work_on,
  work, fire, fire_all, fire_retries, pending_rows, load_each, start, stop,
}
use video_meeting_recorder.Conversion.Calls.{
  Call, submits, resubmits, works, fires, starts, stops, step, run, all_rows, lookup_all,
  change_all, change_if_all,
}

unfoldable pub is_failed : ConversionStatus → Bool
is_failed ConversionStatus.failed = true
is_failed _ = false

-- The row has no retry counted, and its conversion has not failed.
unfoldable pub uncounted : Recording → Bool
unfolding is_failed
uncounted r = (r.conversion_retry_count == 0) && not (is_failed r.conversion_status)

abbrev Uncounted : Conversion → Type 0
Uncounted k = all_rows uncounted k.rows ≡ true

reset-uncounted : (r : Recording) → uncounted r ≡ true → uncounted (reset r) ≡ true
unfolding uncounted reset is_failed
reset-uncounted r h = refl

begin-uncounted : (now : ℕ) (r : Recording) → uncounted r ≡ true → uncounted (begin now r) ≡ true
unfolding uncounted begin is_failed
begin-uncounted now r h = ground arith

complete-uncounted :
    (now : ℕ) (pr : Progress) (r : Recording)
    → uncounted r ≡ true
    → uncounted (complete now pr r) ≡ true
unfolding uncounted complete is_failed
complete-uncounted now pr r h = ground arith

enqueue-rows : (sends : Bool) (i : ℕ) (k : Conversion) → (enqueue sends i k).1.rows ≡ k.rows
unfolding enqueue
enqueue-rows sends i k = ground arith

enqueued :
    (sends : Bool) (i j : ℕ) (k : Conversion)
    → Uncounted k
    → Uncounted (enqueue sends i (record k { rows = change j reset k.rows })).1
enqueued sends i j k h =
    ap (all_rows uncounted) (enqueue-rows sends i (record k { rows = change j reset k.rows }))
    ∙ change_all uncounted j reset k.rows reset-uncounted h

submit_loaded-Uncounted :
    (files : Files) (written sends : Bool) (i : ℕ) (o : Option Recording) (k : Conversion)
    → Uncounted k
    → Uncounted (submit_loaded files written sends i o k).1
unfolding submit_loaded
submit_loaded-Uncounted files written sends i none k h = h
submit_loaded-Uncounted files written sends i (some r) k h = ground (arith, enqueued sends i i k h)

retry-Uncounted :
    (written sends : Bool) (i : ℕ) (k : Conversion)
    → Uncounted k
    → Uncounted (retry_conversion written sends i k).1
unfolding retry_conversion
retry-Uncounted written sends i k h = ground (arith, enqueued sends i i k h)

-- A failure of a task without a count is no last one.
handle_error-Uncounted :
    (written : Bool) (now i count : ℕ) (k : Conversion)
    → count ≡ 0
    → Uncounted k
    → Uncounted (handle_conversion_error written now i count k)
unfolding handle_conversion_error note_error uncounted
handle_error-Uncounted written now i count k e h =
    subst (λ n. Uncounted (handle_conversion_error written now i n k)) (sym e)
      (change_if_all uncounted written i note_error k.rows (λ r t. t) h)

after_files-Uncounted :
    (a : Answers) (started ended i count : ℕ) (o : Option Progress) (k : Conversion)
    → count ≡ 0
    → Uncounted k
    → Uncounted (after_files a started ended i count o k).1
unfolding after_files
after_files-Uncounted a started ended i count none k e h = h
after_files-Uncounted a started ended i count (some pr) k e h =
    elim (Bool-cases (pr.converted == 0)) [
      | inl z ↦ rw (z, after_files) (handle_error-Uncounted a.end_written ended i count _ e h)
      | inr z ↦
          rw (z, after_files)
            (change_if_all uncounted a.end_written i (complete started pr) k.rows
              (complete-uncounted started pr) h)
    ]

started_uncounted :
    (files : Files) (a : Answers) (now i : ℕ) (r : Recording) (rows : Map Recording)
    → all_rows uncounted rows ≡ true
    → all_rows uncounted (started_rows files a now i r rows) ≡ true
unfolding started_rows set_path uncounted
started_uncounted files a now i r rows h =
    change_if_all uncounted a.start_written i (begin now) _ (begin-uncounted now) (
      change_if_all uncounted _ i (set_path (current_path files r.mkv_file_path)) rows (λ q t. t) h)

process_loaded-uncounted :
    (files : Files) (a : Answers) (started ended i : ℕ) (o : Option Recording) (k : Conversion)
    → ((r : Recording) → o ≡ some r → uncounted r ≡ true)
    → Uncounted k
    → Uncounted (process_loaded files a started ended i o k).1
unfolding process_loaded uncounted
process_loaded-uncounted files a started ended i none k q h = h
process_loaded-uncounted files a started ended i (some r) k q h =
    let path = current_path files r.mkv_file_path in
    after_files-Uncounted a started ended i r.conversion_retry_count
      (convert_all files (files_to_convert path (files.glob_mkv (files.dir path))) no_progress)
      (record k { rows = started_rows files a started i r k.rows }) (ground (arith, q r refl))
      (started_uncounted files a started i r k.rows h)

loaded_uncounted :
    (b : Bool) (i : ℕ) (rows : Map Recording)
    → all_rows uncounted rows ≡ true
    → (r : Recording) → (if b then lookup i rows else none) ≡ some r
    → uncounted r ≡ true
loaded_uncounted true i rows h r e = lookup_all uncounted i r rows h e
loaded_uncounted false i rows h r e = absurd (ground arith)

process_task-Uncounted :
    (files : Files) (a : Answers) (started ended i : ℕ) (k : Conversion)
    → Uncounted k
    → Uncounted (process_task files a started ended i k).1
unfolding process_task
process_task-Uncounted files a started ended i k h =
    process_loaded-uncounted files a started ended i (if a.loaded then lookup i k.rows else none) k
      (loaded_uncounted a.loaded i k.rows h) h

work_on-Uncounted :
    (files : Files) (a : Answers) (started ended : ℕ) (is : List ℕ) (k : Conversion)
    → Uncounted k
    → Uncounted (work_on files a started ended is k).1
unfolding work_on
work_on-Uncounted files a started ended [] k h = h
work_on-Uncounted files a started ended (i ∷ is) k h =
    process_task-Uncounted files a started ended i _ h

fire-rows : (now : ℕ) (r : ℕ × ℕ) (k : Conversion) → (fire now r k).rows ≡ k.rows
unfolding fire
fire-rows now r k = ground arith

fire_all-rows : (now : ℕ) (rs : List (ℕ × ℕ)) (k : Conversion) → (fire_all now rs k).rows ≡ k.rows
unfolding fire_all
fire_all-rows now [] k = refl
fire_all-rows now (r ∷ rs) k = fire_all-rows now rs (fire now r k) ∙ fire-rows now r k

load_each-Uncounted :
    (written : Bool) (rs : List Recording) (k : Conversion)
    → Uncounted k
    → Uncounted (load_each written rs k)
unfolding load_each
load_each-Uncounted written [] k h = h
load_each-Uncounted written (r ∷ rs) k h =
    let kept : all_rows uncounted
          (change_if (is_processing r.conversion_status && written) r.id reset k.rows)
        ≡ true =
      change_if_all uncounted _ r.id reset k.rows reset-uncounted h in
    elim (Bool-cases (ltb (length k.task_queue) queue_size)) [
      | inl e ↦ rw (e, load_each) (load_each-Uncounted written rs _ kept)
      | inr e ↦ rw (e, load_each) kept
    ]

start-Uncounted :
    (loaded written : Bool) (k : Conversion) → Uncounted k → Uncounted (start loaded written k)
unfolding start
start-Uncounted true written k h =
    load_each-Uncounted written (take 1000 (pending_rows k.rows))
      (record k { task_queue = []; retries = []; closed = false }) h
start-Uncounted false written k h = h

step-Uncounted : (c : Call) (k : Conversion) → Uncounted k → Uncounted (step c k)
unfolding submit_conversion work fire_retries stop
step-Uncounted (submits files loaded written sends i) k h =
    submit_loaded-Uncounted files written sends i _ k h
step-Uncounted (resubmits written sends i) k h = retry-Uncounted written sends i k h
step-Uncounted (works files a started ended) k h =
    work_on-Uncounted files a started ended k.task_queue k h
step-Uncounted (fires now) k h =
    ap (all_rows uncounted) (fire_all-rows now k.retries (record k { retries = [] })) ∙ h
step-Uncounted (starts loaded written) k h = start-Uncounted loaded written k h
step-Uncounted stops k h = h

-- From rows whose retry count is 0 and whose conversion has not failed, no calls of the service, whatever
-- the files, FFmpeg and the database answer, lead to a row with a retry count or a failed conversion:
-- the limit of three retries is never reached.
pub run-uncounted :
    (cs : List Call) (k : Conversion)
    → all_rows uncounted k.rows ≡ true
    → all_rows uncounted (run cs k).rows ≡ true
run-uncounted [] k h = h
run-uncounted (c ∷ cs) k h = run-uncounted cs (step c k) (step-Uncounted c k h)
