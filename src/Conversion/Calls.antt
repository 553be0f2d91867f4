-- ===== src/Conversion/Calls.antt =====
-- The calls of internal/services/conversion_service.go in any order, and what they keep in the rows.
use video_meeting_recorder.Common.{
  ℕ, ◌≡◌, refl, subst, Bool, true, false, some, List, [], ◌∷◌, all, ◌==◌, Bool-cases, Option-cases,
  inl, inr, arith,
}
use video_meeting_recorder.Common.Maps.{Map, lookup, insert, delete}
use video_meeting_recorder.Conversion.{
  Recording, Conversion, Files, Answers, change, change_if, submit_conversion, retry_conversion,
  work, fire_retries, start, stop,
}

pub data Call : Type 0 where
  submits : (files : Files) (loaded written sends : Bool) (i : ℕ) → Call
  resubmits : (written sends : Bool) (i : ℕ) → Call
  works : (files : Files) (answers : Answers) (started ended : ℕ) → Call
  fires : (now : ℕ) → Call
  starts : (loaded written : Bool) → Call
  stops : Call

abbrev pub step : Call → Conversion → Conversion
step (submits files loaded written sends i) k = (submit_conversion files loaded written sends i k).1
step (resubmits written sends i) k = (retry_conversion written sends i k).1
step (works files a started ended) k = (work files a started ended k).1
step (fires now) k = fire_retries now k
step (starts loaded written) k = start loaded written k
step stops k = stop k

abbrev pub run : List Call → Conversion → Conversion
run [] k = k
run (c ∷ cs) k = run cs (step c k)

abbrev pub all_rows : (Recording → Bool) → Map Recording → Bool
all_rows p rows = all (λ e. p e.1) rows

module _ (p : Recording → Bool) where
  pub delete_all :
      (i : ℕ) (rows : Map Recording) → all_rows p rows ≡ true → all_rows p (delete i rows) ≡ true
  unfolding all delete
  delete_all i [] h = refl
  delete_all i ((j, r) ∷ rows) h = ground (arith, delete_all i rows)

  pub insert_all :
      (i : ℕ) (r : Recording) (rows : Map Recording)
      → p r ≡ true
      → all_rows p rows ≡ true
      → all_rows p (insert i r rows) ≡ true
  unfolding all insert
  insert_all i r rows h t = ground (arith, delete_all i rows t, h)

  pub lookup_all :
      (i : ℕ) (r : Recording) (rows : Map Recording)
      → all_rows p rows ≡ true
      → lookup i rows ≡ some r
      → p r ≡ true
  unfolding all lookup
  lookup_all i r [] h e = absurd (ground arith)
  lookup_all i r ((j, q) ∷ rows) h e = elim (Bool-cases (i == j)) [
    | inl d ↦ subst (λ y. p y ≡ true) (found d) (ground arith)
    | inr d ↦ lookup_all i r rows (ground arith) (ground arith)
  ]
    where
      found : (i == j) ≡ true → q ≡ r
      found d = ground (arith, e)

  pub change_all :
      (i : ℕ) (f : Recording → Recording) (rows : Map Recording)
      → ((r : Recording) → p r ≡ true → p (f r) ≡ true)
      → all_rows p rows ≡ true
      → all_rows p (change i f rows) ≡ true
  unfolding change
  change_all i f rows h t = elim (Option-cases (lookup i rows)) [
    | inl e ↦ rw (e, change) t
    | inr (r, e) ↦ rw (e, change) (insert_all i (f r) rows (h r (lookup_all i r rows t e)) t)
  ]

  pub change_if_all :
      (b : Bool) (i : ℕ) (f : Recording → Recording) (rows : Map Recording)
      → ((r : Recording) → p r ≡ true → p (f r) ≡ true)
      → all_rows p rows ≡ true
      → all_rows p (change_if b i f rows) ≡ true
  unfolding change_if
  change_if_all true i f rows h t = change_all i f rows h t
  change_if_all false i f rows h t = t
