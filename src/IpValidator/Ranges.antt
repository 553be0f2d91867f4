-- ===== src/IpValidator/Ranges.antt =====
-- What a range of addresses admits.
use video_meeting_recorder.Common.{
  ℕ, ◌+◌, ◌*◌, ◌<◌, ◌∙◌, sym, ◌==◌, ==_iff, none, length, ltb, leb, Bool-cases, inl, inr, ◌≡◌, refl,
  ap, Bool, true, false, ◌&&◌, some, [], ◌∷◌, ◌++◌, Text, contains, if◌then◌else◌, arith,
}
use video_meeting_recorder.Errors.{ok}
use video_meeting_recorder.IpValidator.{
  Net, bytes_leb, slash, dash, split_dash, or_nil, in_parts, matches, any_match, is_ip_allowed,
}

split_dash-dashless : (s : Text) → contains dash s ≡ false → split_dash s ≡ s ∷ []
unfolding split_dash contains
split_dash-dashless [] h = refl
split_dash-dashless (c ∷ s) h = ground (arith, split_dash-dashless s)

split_pair :
    (a b : Text)
    → contains dash a ≡ false
    → contains dash b ≡ false
    → split_dash (a ++ dash ∷ b) ≡ a ∷ b ∷ []
unfolding split_dash contains
split_pair [] b h k = rw (split_dash-dashless b k) refl
split_pair (c ∷ a) b h k = ground (arith, split_pair a b)

contains-dash : (a b : Text) → contains dash (a ++ dash ∷ b) ≡ true
unfolding contains
contains-dash [] b = refl
contains-dash (c ∷ a) b = ground (arith, contains-dash a b)

if_id : (b : Bool) → (if b then true else false) ≡ b
if_id true = refl
if_id false = refl

-- The number of an address, its first byte the most significant, from the number of the bytes before.
unfoldable pub number_from : ℕ → Text → ℕ
number_from n [] = n
number_from n (b ∷ bs) = number_from (n * 256 + b) bs

abbrev pub number : Text → ℕ
number ip = number_from 0 ip

unfoldable pub is_bytes : Text → Bool
is_bytes [] = true
is_bytes (b ∷ bs) = ltb b 256 && is_bytes bs

number_from-lt :
    (m n : ℕ) (a b : Text)
    → m < n
    → length a ≡ length b
    → is_bytes a ≡ true
    → number_from m a < number_from n b
unfolding number_from is_bytes
number_from-lt m n [] [] h l p = h
number_from-lt m n [] (y ∷ b) h l p = absurd (omega arith)
number_from-lt m n (x ∷ a) [] h l p = absurd (omega arith)
number_from-lt m n (x ∷ a) (y ∷ b) h l p =
    number_from-lt (m * 256 + x) (n * 256 + y) a b (ground (arith, h, p)) (omega arith)
      (ground arith)

-- The order of bytes.Compare is that of the numbers, for addresses of the same length.
bytes_leb-number :
    (n : ℕ) (a b : Text)
    → length a ≡ length b
    → is_bytes a ≡ true
    → is_bytes b ≡ true
    → bytes_leb a b ≡ leb (number_from n a) (number_from n b)
unfolding bytes_leb number_from is_bytes
bytes_leb-number n [] [] l p q = ground arith
bytes_leb-number n [] (y ∷ b) l p q = absurd (omega arith)
bytes_leb-number n (x ∷ a) [] l p q = absurd (omega arith)
bytes_leb-number n (x ∷ a) (y ∷ b) l p q = elim (Bool-cases (ltb x y)) [
  | inl e ↦ ground (
    arith,
    number_from-lt (n * 256 + x) (n * 256 + y) a b (ground arith) (omega arith) (ground arith),
  )
  | inr e ↦ elim (Bool-cases (x == y)) [
    | inl s ↦
        let ih = bytes_leb-number (n * 256 + y) a b (omega arith) (ground arith) (ground arith) in
        let same : x ≡ y = (==_iff x y).0 s in rw same (ground (arith, ih))
    | inr s ↦ ground (
      arith,
      number_from-lt (n * 256 + y) (n * 256 + x) b a (ground arith) (omega arith) (ground arith),
    )
  ]
]

range_compares :
    (n : Net) (client ip v4 a b : Text)
    → n.parse_ip client ≡ some ip
    → n.to4 ip ≡ some v4
    → contains dash a ≡ false
    → contains dash b ≡ false
    → contains slash (a ++ dash ∷ b) ≡ false
    → is_ip_allowed n client ((a ++ dash ∷ b) ∷ [])
      ≡ ok (
          bytes_leb (or_nil (n.parse_ip (n.trim_space a))) ip
          && bytes_leb ip (or_nil (n.parse_ip (n.trim_space b))))
unfolding is_ip_allowed any_match matches in_parts
range_compares n client ip v4 a b p q h k s =
    rw (p, q, s, contains-dash a b, split_pair a b h k, is_ip_allowed) (ap ok (if_id _))

-- The addresses that net.ParseIP reads have 16 bytes.
unfoldable pub Reads16 : Net → Type 0
Reads16 n = (s ip : Text) → n.parse_ip s ≡ some ip → (length ip ≡ 16) × (is_bytes ip ≡ true)

-- A list of one range whose second end is an address admits an IPv4 client exactly when the number of its
-- address is at most that of the second end, and not below that of the first; but if the first end is no
-- address, every client up to the second end is admitted. net.ParseIP reads addresses of 16 bytes.
pub range_admits :
    (n : Net) (client ip v4 a b y : Text)
    → Reads16 n
    → n.parse_ip client ≡ some ip
    → n.to4 ip ≡ some v4
    → contains dash a ≡ false
    → contains dash b ≡ false
    → contains slash (a ++ dash ∷ b) ≡ false
    → n.parse_ip (n.trim_space b) ≡ some y
    → ((x : Text)
        → n.parse_ip (n.trim_space a) ≡ some x
        → is_ip_allowed n client ((a ++ dash ∷ b) ∷ [])
          ≡ ok (leb (number x) (number ip) && leb (number ip) (number y)))
      × (n.parse_ip (n.trim_space a) ≡ none
          → is_ip_allowed n client ((a ++ dash ∷ b) ∷ []) ≡ ok (leb (number ip) (number y)))
unfolding Reads16 or_nil bytes_leb number_from
range_admits n client ip v4 a b y reads p q h k s last =
    let (size, bytes) = reads client ip p in
    let (size_y, bytes_y) = reads (n.trim_space b) y last in
    let upper = bytes_leb-number 0 ip y (size ∙ sym size_y) bytes bytes_y in
    let e = range_compares n client ip v4 a b p q h k s in
    (
      λ x first.
          let (size_x, bytes_x) = reads (n.trim_space a) x first in
          let lower = bytes_leb-number 0 x ip (size_x ∙ sym size) bytes_x bytes in
          e ∙ (rw (first, last, or_nil, lower, upper) refl),
      λ first. e ∙ (rw (first, last, or_nil, upper, bytes_leb) refl),
    )
