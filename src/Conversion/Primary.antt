-- ===== src/Conversion/Primary.antt =====
-- The loop of processTask in internal/services/conversion_service.go over the files of a directory: which
-- of the MP4 files becomes that of the task.
use video_meeting_recorder.Common.{
  ℕ, ◌+◌, ◌≡◌, refl, ap, sym, ◌∙◌, false, not, ◌||◌, Option, none, some, List, [], ◌∷◌, ◌++◌, ◌-◌,
  Text, codes, is_empty, length, take, ltb, ◌==◌, if◌then◌else◌, Bool-cases, Option-cases, inl, inr,
  arith,
}
use video_meeting_recorder.Conversion.{
  Files, Attempt, made, fails, panics, check_output, convert_to, convert_mkv_to_mp4,
  generate_mp4_path, attempt, is_stream, contains_text, Progress, no_progress, first_duration, note,
  after_attempt, convert_all,
}

with_output : Text → Attempt → Option (List (Text × Text)) → Option (List (Text × Text))
with_output mkv (made output) none = none
with_output mkv (made output) (some ps) = some ((mkv, output) ∷ ps)
with_output mkv fails o = o
with_output mkv panics o = none

-- The files that are converted, each with its MP4 file, in order; none is a panic.
unfoldable pub outputs : Files → List Text → Option (List (Text × Text))
unfolding with_output
outputs files [] = some []
outputs files (mkv ∷ mkvs) = with_output mkv (attempt files mkv) (outputs files mkvs)

-- The MP4 file of the last file that is not a stream's.
unfoldable pub last_local : List (Text × Text) → Option Text
last_local [] = none
last_local ((mkv, output) ∷ ps) = elim (last_local ps) [
  | some o ↦ some o
  | none ↦ if is_stream mkv then none else some output
]

unfoldable pub first_output : List (Text × Text) → Text
first_output [] = []
first_output ((mkv, output) ∷ ps) = output

unfoldable pub first_positive : Files → List (Text × Text) → Option ℕ
first_positive files [] = none
first_positive files ((mkv, output) ∷ ps) = elim (files.create_file output) [
  | none ↦ first_positive files ps
  | some d ↦ if d == 0 then first_positive files ps else some d
]

unfoldable pub reversed : List (Text × Text) → List Text → List Text
reversed [] done = done
reversed ((mkv, output) ∷ ps) done = reversed ps (output ∷ done)

-- The local one if any, else the path so far, else the first.
unfoldable pub or_first : Option Text → Text → List (Text × Text) → Text
or_first (some o) p ps = o
or_first none p ps = if is_empty p then first_output ps else p

unfoldable pub or_positive : Option ℕ → Option ℕ → Option ℕ
or_positive (some d) o = some d
or_positive none o = o

-- What the loop makes of the converted files, from the progress so far.
unfoldable pub extend : Files → Progress → List (Text × Text) → Progress
extend files pr ps = record {
  primary = or_first (last_local ps) pr.primary ps;
  converted = pr.converted + length ps;
  duration = or_positive pr.duration (first_positive files ps);
  video_files = reversed ps pr.video_files;
}

check_output_nonempty :
    (t o : Text) (size : Option ℕ)
    → is_empty t ≡ false
    → check_output t size ≡ made o
    → is_empty o ≡ false
unfolding check_output
check_output_nonempty t o none h = λ q. absurd (ground arith)
check_output_nonempty t o (some size) h = elim (Bool-cases (size == 0)) [
  | inl e ↦ rw (e, check_output) (λ q. absurd (ground arith))
  | inr e ↦ rw (e, check_output) (λ q. let same : t ≡ o = cc in ap is_empty (sym same) ∙ h)
]

append_nonempty : (s : Text) → is_empty (s ++ codes ".mp4") ≡ false
append_nonempty [] = refl
append_nonempty (c ∷ s) = refl

convert_to_nonempty :
    (files : Files) (input t o : Text)
    → is_empty t ≡ false
    → convert_to files input (some t) ≡ made o
    → is_empty o ≡ false
unfolding convert_to
convert_to_nonempty files input t o h q =
    ground (arith, check_output_nonempty t o (files.written t))

convert_nonempty :
    (files : Files) (input o : Text) → convert_mkv_to_mp4 files input ≡ made o → is_empty o ≡ false
unfolding convert_mkv_to_mp4 generate_mp4_path
convert_nonempty files input o = elim (Bool-cases (is_empty input)) [
  | inl e ↦ rw (e, convert_mkv_to_mp4) (λ h. absurd (ground arith))
  | inr e ↦ elim (Bool-cases (ltb (length input) 4)) [
    | inl l ↦
        rw (e, convert_mkv_to_mp4, l, generate_mp4_path, convert_to) (λ h. absurd (ground arith))
    | inr l ↦
        rw (e, convert_mkv_to_mp4, l, generate_mp4_path)
          (convert_to_nonempty files input _ o (append_nonempty (take (length input - 4) input)))
  ]
]

attempt_nonempty : (files : Files) (mkv o : Text) → attempt files mkv ≡ made o → is_empty o ≡ false
unfolding attempt
attempt_nonempty files mkv o = elim (Option-cases (files.stat mkv)) [
  | inl e ↦ rw (e, attempt) (λ h. absurd (ground arith))
  | inr (size, e) ↦ elim (Bool-cases (size == 0)) [
    | inl z ↦ rw (e, attempt, z) (λ h. absurd (ground arith))
    | inr z ↦ rw (e, attempt, z) (convert_nonempty files mkv o)
  ]
]

first_duration_lem :
    (d : Option ℕ) (o r : Option ℕ)
    → or_positive (first_duration d o) r
      ≡ or_positive d (elim o [ none ↦ r | some n ↦ if n == 0 then r else some n ])
unfolding or_positive first_duration
first_duration_lem (some d) o r = refl
first_duration_lem none none r = refl
first_duration_lem none (some n) r = elim (Bool-cases (n == 0)) [
  | inl e ↦ rw (e, first_duration) refl
  | inr e ↦ rw (e, first_duration) refl
]

primary_lem :
    (mkv output p : Text) (ps : List (Text × Text)) (l : Option Text)
    → is_empty output ≡ false
    → or_first l (if is_empty p || not (is_stream mkv) then output else p) ps
      ≡ or_first
          (elim l [ some o ↦ some o | none ↦ if is_stream mkv then none else some output ])
          p
          ((mkv, output) ∷ ps)
unfolding or_first first_output contains_text
primary_lem mkv output p ps (some o) h = refl
primary_lem mkv output p ps none h = ground (arith, h)

abbrev progress : Text → ℕ → Option ℕ → List Text → Progress
progress p n d v = record { primary = p; converted = n; duration = d; video_files = v }

progress_eq :
    {p p' : Text} {n n' : ℕ} {d d' : Option ℕ} (v : List Text)
    → p ≡ p'
    → n ≡ n'
    → d ≡ d'
    → progress p n d v ≡ progress p' n' d' v
progress_eq v hp hn hd = rw (hp, hn, hd) refl

extend-note :
    (files : Files) (mkv output : Text) (pr : Progress) (ps : List (Text × Text))
    → is_empty output ≡ false
    → extend files (note files mkv output pr) ps ≡ extend files pr ((mkv, output) ∷ ps)
unfolding extend note last_local first_positive reversed
extend-note files mkv output pr ps h =
    progress_eq (reversed ps (output ∷ pr.video_files))
      (primary_lem mkv output pr.primary ps (last_local ps) h) (omega arith)
      (first_duration_lem pr.duration (files.create_file output) (first_positive files ps))

unfoldable pub extended : Files → Progress → Option (List (Text × Text)) → Option Progress
unfolding extend
extended files pr none = none
extended files pr (some ps) = some (extend files pr ps)

extended-note :
    (files : Files) (mkv output : Text) (pr : Progress) (o : Option (List (Text × Text)))
    → is_empty output ≡ false
    → extended files (note files mkv output pr) o
      ≡ extended files pr (with_output mkv (made output) o)
unfolding extended with_output
extended-note files mkv output pr none h = refl
extended-note files mkv output pr (some ps) h = ap some (extend-note files mkv output pr ps h)

convert_all_from :
    (files : Files) (mkvs : List Text) (pr : Progress)
    → convert_all files mkvs pr ≡ extended files pr (outputs files mkvs)
unfolding convert_all after_attempt outputs extended extend last_local first_positive or_first
    or_positive reversed first_output
convert_all_from files [] pr = ap some (start pr)
  where
    start : (pr : Progress) → pr ≡ extend files pr []
    start pr = ground arith
convert_all_from files (mkv ∷ mkvs) pr =
    go (attempt files mkv) (λ output e. attempt_nonempty files mkv output e)
      (λ pr'. convert_all_from files mkvs pr')
  where
    go :
        (o : Attempt)
        → ((output : Text) → o ≡ made output → is_empty output ≡ false)
        → ((pr' : Progress) → convert_all files mkvs pr' ≡ extended files pr' (outputs files mkvs))
        → (elim (after_attempt files mkv o pr) as (λ y. Option Progress) [
          | none ↦ none
          | some pr' ↦ convert_all files mkvs pr'
        ])
          ≡ extended files pr (with_output mkv o (outputs files mkvs))
    go (made output) h rest =
        rest (note files mkv output pr)
        ∙ extended-note files mkv output pr (outputs files mkvs) (h output refl)
    go fails h rest = rest pr
    go panics h rest = refl

unfoldable pub described : Files → Option (List (Text × Text)) → Option Progress
unfolding or_first last_local first_output first_positive reversed
described files none = none
described files (some ps) = some (record {
  primary = or_first (last_local ps) [] ps;
  converted = length ps;
  duration = first_positive files ps;
  video_files = reversed ps [];
})

extended-described :
    (files : Files) (o : Option (List (Text × Text)))
    → extended files no_progress o ≡ described files o
unfolding extended described extend or_positive
extended-described files none = refl
extended-described files (some ps) = ap some (progress_eq (reversed ps []) refl (omega arith) refl)

-- The loop of processTask over the files of a directory makes this of the files that can be converted: the
-- MP4 file of the task is that of the last file that is not a stream's, or, if there is none, that of
-- the first; the count is theirs; the duration is the first positive one of the rows that are made;
-- CreateFileFromTask is called for every MP4 file, whether or not it makes a row; and the loop panics exactly when a conversion does.
pub convert_all_lem :
    (files : Files) (mkvs : List Text)
    → convert_all files mkvs no_progress ≡ described files (outputs files mkvs)
convert_all_lem files mkvs =
    convert_all_from files mkvs no_progress ∙ extended-described files (outputs files mkvs)
