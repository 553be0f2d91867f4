-- ===== src/Recorder/Decimal.antt =====
-- fmt's %d, the key of a recording process and the prefix of a task's keys (coordinator.go).
use video_meeting_recorder.Common.{
  ℕ, zero, suc, ◌+◌, ◌-◌, ◌*◌, ◌/◌, ◌%◌, ◌≤◌, ◌≡◌, refl, ◌↔◌, ◌∙◌, ap, subst, true, false, [], ◌∷◌,
  ◌++◌, Text, text_eq, has_prefix, ◌==◌, if◌then◌else◌, Bool-cases, inl, inr, arith,
}
use video_meeting_recorder.Common.Int.{ℤ, pos, negsuc}

-- The digits of `n` before `out`; `fuel` is at least the number of digits.
unfoldable pub digits : ℕ → ℕ → Text → Text
digits zero n out = out
digits (suc fuel) n out =
    let rest = digits fuel (n / 10) ((b'0' + n % 10) ∷ out) in if n == 0 then out else rest

unfoldable pub decimal : ℕ → Text
unfolding digits
decimal n = if n == 0 then b'0' ∷ [] else digits n n []

unfoldable pub format_int : ℤ → Text
unfolding decimal
format_int (pos n) = decimal n
format_int (negsuc n) = b'-' ∷ decimal (suc n)

unfoldable pub get_process_key : ℕ → Text → Text
unfolding decimal
get_process_key task_id config_type = decimal task_id ++ b'_' ∷ config_type

-- fmt.Sprintf("%d_", taskID)
unfoldable pub key_prefix : ℕ → Text
unfolding decimal
key_prefix task_id = decimal task_id ++ b'_' ∷ []

value : ℕ → Text → ℕ
value acc [] = acc
value acc (c ∷ s) = value (acc * 10 + (c - b'0')) s

value-digits : (fuel n : ℕ) (out : Text) → n ≤ fuel → value 0 (digits fuel n out) ≡ value n out
unfolding digits value
value-digits zero n out h = ap (λ k. value k out) (omega arith)
value-digits (suc fuel) n out h = elim (Bool-cases (n == 0)) [
  | inl e ↦ rw e (ap (λ k. value k out) (ground arith))
  | inr e ↦ rw e (
      value-digits fuel (n / 10) ((b'0' + n % 10) ∷ out) (ground arith)
      ∙ ap (λ k. value k out) (omega arith))
]

value-decimal : (n : ℕ) → value 0 (decimal n) ≡ n
unfolding decimal value
value-decimal n = ground (arith, value-digits n n [])

abbrev IsDigits : Text → Type 0
IsDigits [] = Unit
IsDigits (c ∷ s) = (b'0' ≤ c) × (c ≤ b'9') × IsDigits s

digits-IsDigits : (fuel n : ℕ) (out : Text) → IsDigits out → IsDigits (digits fuel n out)
unfolding digits
digits-IsDigits zero n out h = h
digits-IsDigits (suc fuel) n out h = elim (Bool-cases (n == 0)) [
  | inl e ↦ rw e h
  | inr e ↦
      rw e (digits-IsDigits fuel (n / 10) ((b'0' + n % 10) ∷ out) (omega arith, omega arith, h))
]

decimal-IsDigits : (n : ℕ) → IsDigits (decimal n)
unfolding decimal
decimal-IsDigits n = elim (Bool-cases (n == 0)) [
  | inl e ↦ rw e (omega arith, omega arith, tt)
  | inr e ↦ rw e (digits-IsDigits n n [] tt)
]

-- Digits end at the underscore, so a prefix of one key in another fixes all digits.
has_prefix-digits :
    (xs ys rest : Text)
    → IsDigits xs
    → IsDigits ys
    → has_prefix (xs ++ b'_' ∷ rest) (ys ++ b'_' ∷ []) ≡ true
    → xs ≡ ys
unfolding has_prefix
has_prefix-digits [] [] rest dx dy h = refl
has_prefix-digits [] (y ∷ ys) rest dx dy h = ground arith
has_prefix-digits (x ∷ xs) [] rest dx dy h = ground arith
has_prefix-digits (x ∷ xs) (y ∷ ys) rest dx dy h =
    ground (arith, has_prefix-digits xs ys rest dx.2 dy.2)

has_prefix_self : (xs rest : Text) → has_prefix (xs ++ b'_' ∷ rest) (xs ++ b'_' ∷ []) ≡ true
unfolding has_prefix
has_prefix_self [] rest = ground arith
has_prefix_self (x ∷ xs) rest = ground (arith, has_prefix_self xs rest)

-- The prefix of a task matches exactly the process keys of that task.
pub key_prefix_iff :
    (a b : ℕ) (config_type : Text)
    → (has_prefix (get_process_key a config_type) (key_prefix b) ≡ true) ↔ (a ≡ b)
unfolding get_process_key key_prefix
key_prefix_iff a b config_type = (
  λ h.
      let e : decimal a ≡ decimal b =
        has_prefix-digits (decimal a) (decimal b) config_type (decimal-IsDigits a)
          (decimal-IsDigits b) h in
      omega (arith, value-decimal a, value-decimal b, ap (value 0) e),
  λ e.
      subst (λ k. has_prefix (decimal a ++ b'_' ∷ config_type) (decimal k ++ b'_' ∷ []) ≡ true) e
        (has_prefix_self (decimal a) config_type),
)

key_ne_digits : (xs ys rest : Text) → IsDigits ys → text_eq (xs ++ b'_' ∷ rest) ys ≡ false
unfolding text_eq
key_ne_digits [] [] rest d = refl
key_ne_digits [] (y ∷ ys) rest d = ground arith
key_ne_digits (x ∷ xs) [] rest d = refl
key_ne_digits (x ∷ xs) (y ∷ ys) rest d = ground (arith, key_ne_digits xs ys rest d.2)

-- No process key is a plain number.
pub key-ne-decimal :
    (a b : ℕ) (config_type : Text) → text_eq (get_process_key a config_type) (decimal b) ≡ false
unfolding get_process_key
key-ne-decimal a b config_type =
    key_ne_digits (decimal a) (decimal b) config_type (decimal-IsDigits b)
