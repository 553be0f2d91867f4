-- ===== src/Conversion/Recovered.antt =====
-- recoverLatestMKV of internal/services/conversion_service.go: the file it takes.
use video_meeting_recorder.Common.{
  ℕ, ◌≡◌, refl, sym, subst, ◌⊎◌, inl, inr, Bool, true, false, Option, none, some, List, [], ◌∷◌,
  Text, all, ltb, leb, Option-cases, Bool-cases, arith,
}
use mathlib.Core.List.{Mem, mem-cons_self, mem-cons_of_mem}
use video_meeting_recorder.Conversion.{
  Entry, Files, candidate, newer, latest_from, path_of, recover_latest_mkv,
}

-- A file that is not newer than a time, if it is one.
unfoldable pub below : ℕ → Option (ℕ × Text) → Bool
below t none = true
below t (some c) = leb c.0 t

abbrev pub is_none : Option (ℕ × Text) → Bool
is_none none = true
is_none (some c) = false

newer-below :
    (t : ℕ) (b c : Option (ℕ × Text))
    → below t (newer b c) ≡ true
    → (below t b ≡ true) × (below t c ≡ true)
unfolding below newer
newer-below t b none h = (h, refl)
newer-below t none (some c) h = (refl, h)
newer-below t (some b) (some c) h = ground arith

newer-some :
    (b c : Option (ℕ × Text)) (d : ℕ × Text) → newer b c ≡ some d → (b ≡ some d) ⊎ (c ≡ some d)
unfolding newer
newer-some b none d = λ h. inl h
newer-some none (some c) d = λ h. inr h
newer-some (some b) (some c) d = elim (Bool-cases (ltb b.0 c.0)) [
  | inl e ↦ rw (e, newer) (λ h. inr h)
  | inr e ↦ rw (e, newer) (λ h. inl h)
]

newer-none : (b c : Option (ℕ × Text)) → newer b c ≡ none → (b ≡ none) × (is_none c ≡ true)
unfolding newer
newer-none b none = λ h. (h, refl)
newer-none none (some c) = λ h. absurd (ground arith)
newer-none (some b) (some c) = elim (Bool-cases (ltb b.0 c.0)) [
  | inl e ↦ rw (e, newer) (λ h. absurd (ground arith))
  | inr e ↦ rw (e, newer) (λ h. absurd (ground arith))
]

module _ (files : Files) (directory : Text) where
  -- One of the entries is this file.
  abbrev pub Offers : ℕ × Text → List Entry → Type 0
  Offers c es = (e : Entry) × Mem e es × (candidate files directory e ≡ some c)

  latest_from-some :
      (best : Option (ℕ × Text)) (es : List Entry) (c : ℕ × Text)
      → latest_from files directory best es ≡ some c
      → (all (λ e. below c.0 (candidate files directory e)) es ≡ true)
        × (below c.0 best ≡ true)
        × ((best ≡ some c) ⊎ Offers c es)
  unfolding latest_from all below
  latest_from-some best [] c h =
      (refl, subst (λ b. below c.0 b ≡ true) (sym h) (ground arith), inl h)
  latest_from-some best (e ∷ es) c h =
      let (rest, first, from) =
        latest_from-some (newer best (candidate files directory e)) es c h in
      let (low, this) = newer-below c.0 best (candidate files directory e) first in
      (
        ground arith,
        low,
        elim from [
          | inl f ↦ elim (newer-some best (candidate files directory e) c f) [
            | inl b ↦ inl b
            | inr o ↦ inr (e, mem-cons_self, o)
          ]
          | inr o ↦ inr (o.0, mem-cons_of_mem e o.1, o.2)
        ],
      )

  latest_from-none :
      (best : Option (ℕ × Text)) (es : List Entry)
      → latest_from files directory best es ≡ none
      → (all (λ e. is_none (candidate files directory e)) es ≡ true) × (best ≡ none)
  unfolding latest_from all
  latest_from-none best [] h = (refl, h)
  latest_from-none best (e ∷ es) h =
      let (rest, first) = latest_from-none (newer best (candidate files directory e)) es h in
      let (b, this) = newer-none best (candidate files directory e) first in (ground arith, b)

-- The path that is recovered in a directory that can be read is empty, and then no entry is an MKV file
-- with content, or it is that of such an entry, and no other is newer.
pub recover_newest :
    (files : Files) (stale : Text) (es : List Entry)
    → files.read_dir (files.dir stale) ≡ some es
    → let at = files.dir stale in
      ((recover_latest_mkv files stale ≡ [])
        × (all (λ e. is_none (candidate files at e)) es ≡ true))
      ⊎ ((c : ℕ × Text) × (recover_latest_mkv files stale ≡ c.1)
          × Offers files at c es
          × (all (λ e. below c.0 (candidate files at e)) es ≡ true))
unfolding recover_latest_mkv path_of
recover_newest files stale es h =
    elim (Option-cases (latest_from files (files.dir stale) none es)) [
      | inl e ↦ inl (
        rw (h, recover_latest_mkv, e, path_of) refl,
        (latest_from-none files (files.dir stale) none es e).0,
      )
      | inr (c, e) ↦
          let (bound, low, from) = latest_from-some files (files.dir stale) none es c e in
          inr (
            c,
            rw (h, recover_latest_mkv, e, path_of) refl,
            elim from [ inl n ↦ absurd (ground arith) | inr o ↦ o ],
            bound,
          )
    ]
