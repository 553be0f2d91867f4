-- ===== src/Common/TextMaps.antt =====
-- Go maps from strings, as association lists.
use mathlib.Core.Path.{◌≡◌}
use mathlib.Core.Option.{Option, none, some}
use mathlib.Core.List.{List, [], ◌∷◌}
use native.Mathlib.Omega.{arith}
use video_meeting_recorder.Common.Tests.{if◌then◌else◌}
use video_meeting_recorder.Common.Texts.{Text, text_eq, text_eq_iff}

abbrev pub TextMap {ℓ} : Type ℓ → Type ℓ
TextMap V = List (Text × V)

module _ {ℓ} {V : Type ℓ} where
  unfoldable pub get : Text → TextMap V → Option V
  get k [] = none
  get k ((j, v) ∷ m) = let rest = get k m in if text_eq k j then some v else rest

  unfoldable pub remove : Text → TextMap V → TextMap V
  remove k [] = []
  remove k ((j, v) ∷ m) = let rest = remove k m in if text_eq k j then rest else (j, v) ∷ rest

  unfoldable pub put : Text → V → TextMap V → TextMap V
  put k v m = (k, v) ∷ remove k m

  pub get-remove :
      (k j : Text) (m : TextMap V) → get k (remove j m) ≡ (if text_eq k j then none else get k m)
  unfolding get remove
  get-remove k j [] = ground arith
  get-remove k j ((i, v) ∷ m) =
      ground (arith, get-remove k j m, text_eq_iff k j, text_eq_iff k i, text_eq_iff j i)

  pub get-put :
      (k j : Text) (v : V) (m : TextMap V)
      → get k (put j v m) ≡ (if text_eq k j then some v else get k m)
  unfolding get put
  get-put k j v m = ground (arith, get-remove k j m)
