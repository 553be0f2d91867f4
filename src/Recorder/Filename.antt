-- ===== src/Recorder/Filename.antt =====
-- `sanitizeFilename` and the path helpers of `buildRecordingCommand` (coordinator.go).
use video_meeting_recorder.Common.{
  ℕ, zero, suc, ◌≤◌, ◌≡◌, refl, ◌∙◌, ap, true, Bool, ◌&&◌, ◌||◌, not, [], ◌∷◌, Text, all, take,
  length, length-take, leb, ltb, ◌==◌, if◌then◌else◌, arith,
}

-- The characters that become an underscore.
unfoldable pub is_reserved : ℕ → Bool
is_reserved c =
    c == b' '
    || c == b'/'
    || c == 92
    || c == b':'
    || c == b'*'
    || c == b'?'
    || c == 34
    || c == b'<'
    || c == b'>'
    || c == b'|'

-- The control characters that are taken out by name.
is_layout : ℕ → Bool
is_layout c = c == 10 || c == 13 || c == 9

-- The loop of `sanitizeFilename` over the runes.
unfoldable pub replace_runes : Text → Text
unfolding is_layout
replace_runes [] = []
replace_runes (c ∷ s) =
    let rest = replace_runes s in
    if is_reserved c
    then b'_' ∷ rest
    else if is_layout c
    then rest
    else if leb 32 c
    then c ∷ rest
    else rest

-- if len(result) > n { result = result[:n] }
unfoldable pub cut_to : ℕ → Text → Text
cut_to n result = if ltb n (length result) then take n result else result

unfoldable pub sanitize_filename : Text → Text
unfolding replace_runes
sanitize_filename name = cut_to 100 (replace_runes name)

-- filepath.ToSlash, which changes the separator on Windows only.
unfoldable pub to_slash : Bool → Text → Text
to_slash windows [] = []
to_slash windows (c ∷ s) = (if windows && c == 92 then b'/' else c) ∷ to_slash windows s

-- for strings.HasPrefix(normalized, "./") { normalized = normalized[2:] }
unfoldable pub strip_dots : Text → Text
strip_dots [] = []
strip_dots (a ∷ []) = a ∷ []
strip_dots (a ∷ b ∷ s) =
    let rest = strip_dots s in if a == b'.' && b == b'/' then rest else a ∷ b ∷ s

unfoldable pub trim_slash : Text → Text
trim_slash [] = []
trim_slash (c ∷ s) = if c == b'/' then s else c ∷ s

unfoldable pub normalize_path : Bool → Text → Text
unfolding to_slash strip_dots trim_slash
normalize_path windows p = trim_slash (strip_dots (to_slash windows p))

-- strings.ReplaceAll of one character by a backslash and itself
unfoldable pub escape_char : ℕ → Text → Text
escape_char k [] = []
escape_char k (c ∷ s) = let rest = escape_char k s in if c == k then 92 ∷ c ∷ rest else c ∷ rest

unfoldable pub escape_simple : Text → Text
unfolding escape_char
escape_simple p = escape_char b']' (escape_char b'[' (escape_char 39 (escape_char b' ' p)))

-- A character that a file name may hold.
unfoldable pub is_safe : ℕ → Bool
unfolding is_reserved
is_safe c = leb 32 c && not (is_reserved c)

all-take : (n : ℕ) (s : Text) → all is_safe s ≡ true → all is_safe (take n s) ≡ true
unfolding all
all-take zero s h = refl
all-take (suc n) [] h = refl
all-take (suc n) (c ∷ s) h = ground (arith, all-take n s)

all-replace : (s : Text) → all is_safe (replace_runes s) ≡ true
unfolding replace_runes all is_safe
all-replace [] = refl
all-replace (c ∷ s) = ground (arith, all-replace s)

cut_to-safe :
    (n : ℕ) (s : Text)
    → all is_safe s ≡ true
    → (all is_safe (cut_to n s) ≡ true) × (length (cut_to n s) ≤ n)
unfolding cut_to
cut_to-safe n s h = ground (arith, all-take n s, length-take n s)

-- A sanitized name has at most a hundred characters, none of them reserved or a control character.
pub sanitize_safe :
    (name : Text)
    → (all is_safe (sanitize_filename name) ≡ true) × (length (sanitize_filename name) ≤ 100)
unfolding sanitize_filename
sanitize_safe name = cut_to-safe 100 (replace_runes name) (all-replace name)

replace-safe : (s : Text) → all is_safe s ≡ true → replace_runes s ≡ s
unfolding replace_runes all is_safe is_reserved
replace-safe [] h = refl
replace-safe (c ∷ s) h = ground (arith, replace-safe s)

cut_to-short : (n : ℕ) (s : Text) → length s ≤ n → cut_to n s ≡ s
unfolding cut_to
cut_to-short n s h = ground arith

sanitize_of_safe : (s : Text) → (all is_safe s ≡ true) × (length s ≤ 100) → sanitize_filename s ≡ s
unfolding sanitize_filename
sanitize_of_safe s h = ap (cut_to 100) (replace-safe s h.0) ∙ cut_to-short 100 s h.1

-- Sanitizing a sanitized name changes nothing.
pub sanitize-sanitize :
    (name : Text) → sanitize_filename (sanitize_filename name) ≡ sanitize_filename name
sanitize-sanitize name = sanitize_of_safe (sanitize_filename name) (sanitize_safe name)
