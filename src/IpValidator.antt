-- ===== src/IpValidator.antt =====
-- internal/auth/ip_validator.go, and checkIPRestrictions of internal/auth/local_auth.go. Go's package net
-- is a parameter; a slice of bytes is the text of its bytes, and nil is empty.
mod Examples
pub mod Ranges
use video_meeting_recorder.Common.{
  ℕ, Bool, true, false, not, ◌&&◌, ◌||◌, Option, none, some, List, [], ◌∷◌, ◌++◌, Text, text_eq,
  contains, ltb, ◌==◌, if◌then◌else◌,
}
use video_meeting_recorder.Errors.{Result, ok, err, external, invalid_input, forbidden}

-- net.ParseIP, its To4, net.ParseCIDR with Contains, and strings.TrimSpace.
pub record Net : Type 0 where
  pub trim_space : Text → Text
  pub parse_ip : Text → Option Text
  pub to4 : Text → Option Text
  pub parse_cidr : Text → Option (Text → Bool)

-- bytes.Compare(a, b) <= 0
unfoldable pub bytes_leb : Text → Text → Bool
bytes_leb [] b = true
bytes_leb (x ∷ a) [] = false
bytes_leb (x ∷ a) (y ∷ b) = let rest = bytes_leb a b in ltb x y || (x == y && rest)

abbrev pub slash : ℕ
slash = 47

abbrev pub dash : ℕ
dash = 45

abbrev pub prepend : ℕ → List Text → List Text
prepend c [] = (c ∷ []) ∷ []
prepend c (p ∷ ps) = (c ∷ p) ∷ ps

-- strings.Split(range, "-")
unfoldable pub split_dash : Text → List Text
split_dash [] = [] ∷ []
split_dash (c ∷ s) = let rest = split_dash s in if c == dash then [] ∷ rest else prepend c rest

unfoldable pub validate_ip : Net → Text → Result (Unit {0})
validate_ip n s = elim (n.parse_ip s) [
  | none ↦ err invalid_input
  | some ip ↦ elim (n.to4 ip) [ none ↦ err invalid_input | some v4 ↦ ok tt ]
]

unfoldable pub validate_cidr : Net → Text → Result (Unit {0})
validate_cidr n s = elim (n.parse_cidr s) [ none ↦ err invalid_input | some net ↦ ok tt ]

-- Both ends are IPv4 addresses, the first not after the second.
unfoldable pub validate_ends : Net → Option Text → Option Text → Result (Unit {0})
unfolding bytes_leb
validate_ends n (some a) (some b) = elim (n.to4 a) [
  | none ↦ err invalid_input
  | some x ↦ elim (n.to4 b) [
    | none ↦ err invalid_input
    | some y ↦ if bytes_leb x y then ok tt else err invalid_input
  ]
]
validate_ends n _ _ = err invalid_input

unfoldable pub validate_parts : Net → List Text → Result (Unit {0})
unfolding validate_ends
validate_parts n (a ∷ b ∷ []) =
    validate_ends n (n.parse_ip (n.trim_space a)) (n.parse_ip (n.trim_space b))
validate_parts n _ = err invalid_input

unfoldable pub validate_ip_range : Net → Text → Result (Unit {0})
unfolding validate_parts split_dash
validate_ip_range n s = validate_parts n (split_dash s)

-- An address that is not read is nil.
unfoldable pub or_nil : Option Text → Text
or_nil none = []
or_nil (some ip) = ip

-- The first two parts; a text with a dash has two.
unfoldable pub in_parts : Net → Text → List Text → Bool
unfolding bytes_leb or_nil
in_parts n ip (a ∷ b ∷ ps) =
    bytes_leb (or_nil (n.parse_ip (n.trim_space a))) ip
    && bytes_leb ip (or_nil (n.parse_ip (n.trim_space b)))
in_parts n ip _ = false

unfoldable pub matches : Net → Text → Text → Text → Bool
unfolding in_parts split_dash
matches n client ip allowed =
    if not (contains slash allowed) && not (contains dash allowed)
    then text_eq client allowed
    else if contains slash allowed
    then elim (n.parse_cidr allowed) [ none ↦ false | some holds ↦ holds ip ]
    else in_parts n ip (split_dash allowed)

unfoldable pub any_match : Net → Text → Text → List Text → Bool
unfolding matches
any_match n client ip [] = false
any_match n client ip (allowed ∷ list) =
    let rest = any_match n client ip list in if matches n client ip allowed then true else rest

unfoldable pub is_ip_allowed : Net → Text → List Text → Result Bool
unfolding any_match
is_ip_allowed n client [] = ok true
is_ip_allowed n client (allowed ∷ list) = elim (n.parse_ip client) [
  | none ↦ err invalid_input
  | some ip ↦ elim (n.to4 ip) [
    | none ↦ err invalid_input
    | some v4 ↦ ok (any_match n client ip (allowed ∷ list))
  ]
]

-- The lists of the roles, one after the other.
unfoldable pub collect : List (List Text) → List Text
collect [] = []
collect (ips ∷ roles) = ips ++ collect roles

-- The lists of a user and of the user's roles; none is no restriction.
unfoldable pub check_ip_restrictions : Net → Text → List Text → List (List Text) → Result (Unit {0})
unfolding is_ip_allowed collect
check_ip_restrictions n client user_ips role_ips =
    elim (is_ip_allowed n client (user_ips ++ collect role_ips)) [
      | err e ↦ err external
      | ok allowed ↦ if allowed then ok tt else err forbidden
    ]
