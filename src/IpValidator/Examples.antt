-- ===== src/IpValidator/Examples.antt =====
-- Witnesses of the IP validator, with one digit for an address.
use video_meeting_recorder.Common.{
  ℕ, ◌≡◌, refl, subst, true, false, Option, none, some, [], ◌∷◌, ◌++◌, Text, codes, contains,
  length, replicate, leb, ltb, ◌&&◌, if◌then◌else◌, Bool-cases, inl, inr, arith,
}
use video_meeting_recorder.Errors.{ok}
use video_meeting_recorder.IpValidator.{Net, is_ip_allowed}
use video_meeting_recorder.IpValidator.Ranges.{number, is_bytes, Reads16, range_admits}

-- The address of one byte, after fifteen zeros.
abbrev address : ℕ → Text
address c = replicate 15 0 ++ c ∷ []

abbrev read_digit : Text → Option Text
read_digit (c ∷ []) = if ltb c 256 then some (address c) else none
read_digit _ = none

abbrev digits : Net
digits = record { trim_space = λ s. s; parse_ip = read_digit; to4 = some; parse_cidr = λ s. none }

address_bytes :
    (c : ℕ) (ip : Text)
    → (if ltb c 256 then some (address c) else none) ≡ some ip
    → (length ip ≡ 16) × (is_bytes ip ≡ true)
unfolding is_bytes
address_bytes c ip h = elim (Bool-cases (ltb c 256)) [
  | inr e ↦ absurd (ground (arith, h, e))
  | inl e ↦
      let same : address c ≡ ip = ground (arith, h, e) in
      subst (λ y. (length y ≡ 16) × (is_bytes y ≡ true)) same (refl, rw e refl)
]

digits-Reads16 : Reads16 digits
unfolding Reads16
digits-Reads16 [] ip h = absurd (ground arith)
digits-Reads16 (c ∷ []) ip h = address_bytes c ip h
digits-Reads16 (c ∷ d ∷ s) ip h = absurd (ground arith)

-- The range from 3 to 7 admits 5, and so would the range from `lan`, which is no address, to 7.
range_admits_example :
    ((x : Text)
      → read_digit (codes "3") ≡ some x
      → is_ip_allowed digits (codes "5") (codes "3-7" ∷ [])
        ≡ ok (
            leb (number x) (number (address 53))
            && leb (number (address 53)) (number (address 55))))
    × (read_digit (codes "3") ≡ none
        → is_ip_allowed digits (codes "5") (codes "3-7" ∷ [])
          ≡ ok (leb (number (address 53)) (number (address 55))))
unfolding contains
range_admits_example =
    range_admits digits (codes "5") (address 53) (address 53) (codes "3") (codes "7") (address 55)
      digits-Reads16 refl refl refl refl refl refl

-- A client before the range is refused.
before_range : is_ip_allowed digits (codes "2") (codes "3-7" ∷ []) ≡ ok false
unfolding is_ip_allowed contains
before_range = refl
