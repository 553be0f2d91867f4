-- ===== src/Common/Maps.antt =====
-- Go maps from numbers, as association lists: `lookup`, `insert`, `delete`.
use Prim.Native.Nat.{ℕ}
use mathlib.Core.Path.{◌≡◌}
use mathlib.Core.Bool.{Bool, true, false}
use mathlib.Core.Option.{Option, none, some}
use mathlib.Core.List.{List, [], ◌∷◌}
use native.Mathlib.Omega.{arith}
use video_meeting_recorder.Common.Tests.{◌==◌, if◌then◌else◌}

abbrev pub Map {ℓ} : Type ℓ → Type ℓ
Map V = List (ℕ × V)

module _ {ℓ} {V : Type ℓ} where
  unfoldable pub lookup : ℕ → Map V → Option V
  lookup k [] = none
  lookup k ((j, v) ∷ m) = let rest = lookup k m in if k == j then some v else rest

  unfoldable pub delete : ℕ → Map V → Map V
  delete k [] = []
  delete k ((j, v) ∷ m) = let rest = delete k m in if k == j then rest else (j, v) ∷ rest

  unfoldable pub insert : ℕ → V → Map V → Map V
  insert k v m = (k, v) ∷ delete k m

  unfoldable pub has_key : ℕ → Map V → Bool
  has_key k m = elim (lookup k m) [ none ↦ false | some v ↦ true ]

  pub lookup-delete :
      (k j : ℕ) (m : Map V) → lookup k (delete j m) ≡ (if k == j then none else lookup k m)
  unfolding lookup delete
  lookup-delete k j [] = ground arith
  lookup-delete k j ((i, v) ∷ m) = ground (arith, lookup-delete k j m)

  pub lookup-insert :
      (k j : ℕ) (v : V) (m : Map V)
      → lookup k (insert j v m) ≡ (if k == j then some v else lookup k m)
  unfolding lookup insert
  lookup-insert k j v m = ground (arith, lookup-delete k j m)

  pub has_key-lookup : (k : ℕ) (v : V) (m : Map V) → lookup k m ≡ some v → has_key k m ≡ true
  unfolding has_key
  has_key-lookup k v m h = rw (h, has_key)
