-- ===== src/Strings.antt =====
-- What the modelled code uses of Rust's `str`, on texts as lists of code points.
pub mod Lines
pub mod Decode
pub mod Trim
pub mod Digits
use ores_otel_sidecar_rs.Prelude.{
  ℕ, ◌+◌, ◌-◌, ◌*◌, Bool, true, false, not, ◌&&◌, ◌||◌, Option, none, some, List, [], ◌∷◌, ◌++◌,
  leb, ◌==◌, if◌then◌else◌, u64_max, Text, is_empty, is_ascii_digit, is_ascii_uppercase,
  strip_prefix, map,
}

-- `char::is_whitespace`: the property White_Space
unfoldable pub is_whitespace : ℕ → Bool
is_whitespace c =
    leb 0x9 c && leb c 0xD
    || c == 0x20
    || c == 0x85
    || c == 0xA0
    || c == 0x1680
    || leb 0x2000 c && leb c 0x200A
    || c == 0x2028
    || c == 0x2029
    || c == 0x202F
    || c == 0x205F
    || c == 0x3000

-- `u8::is_ascii_whitespace`
unfoldable pub is_ascii_whitespace : ℕ → Bool
is_ascii_whitespace c = c == 0x20 || c == 0x9 || c == 0xA || c == 0xC || c == 0xD

-- `trim_start_matches` and `trim_end_matches`
unfoldable pub trim_start : (ℕ → Bool) → Text → Text
trim_start p [] = []
trim_start p (c ∷ s) = let rest = trim_start p s in if p c then rest else c ∷ s

unfoldable pub trim_end : (ℕ → Bool) → Text → Text
trim_end p [] = []
trim_end p (c ∷ s) = let rest = trim_end p s in if is_empty rest && p c then [] else c ∷ rest

-- `trim()`
unfoldable pub trim : Text → Text
unfolding trim_start trim_end is_whitespace
trim s = trim_end is_whitespace (trim_start is_whitespace s)

unfoldable pub contains_char : ℕ → Text → Bool
contains_char c [] = false
contains_char c (d ∷ s) = d == c || contains_char c s

unfoldable pub starts_with : Text → Text → Bool
starts_with [] s = true
starts_with (p ∷ ps) [] = false
starts_with (p ∷ ps) (c ∷ s) = p == c && starts_with ps s

-- `contains` with a text
unfoldable pub contains_text : Text → Text → Bool
unfolding starts_with
contains_text p [] = is_empty p
contains_text p (c ∷ s) = starts_with p (c ∷ s) || contains_text p s

abbrev cons_head : ℕ → List Text → List Text
cons_head c [] = (c ∷ []) ∷ []
cons_head c (t ∷ ts) = (c ∷ t) ∷ ts

-- `split` with a character
unfoldable pub split_on : ℕ → Text → List Text
split_on sep [] = [] ∷ []
split_on sep (c ∷ s) = let rest = split_on sep s in if c == sep then [] ∷ rest else cons_head c rest

abbrev cons_first : ℕ → Option (Text × Text) → Option (Text × Text)
cons_first c none = none
cons_first c (some (a, b)) = some (c ∷ a, b)

-- `split_once` with a character
unfoldable pub split_once : ℕ → Text → Option (Text × Text)
split_once sep [] = none
split_once sep (c ∷ s) =
    let rest = split_once sep s in if c == sep then some ([], s) else cons_first c rest

-- A carriage return before the newline that ends a line.
unfoldable pub strip_cr : Text → Text
strip_cr [] = []
strip_cr (c ∷ s) = let rest = strip_cr s in if is_empty s && c == b'\r' then [] else c ∷ rest

-- `lines()`, after the part `line` of the current line
unfoldable pub lines_from : Text → Text → List Text
unfolding strip_cr
lines_from line [] = if is_empty line then [] else line ∷ []
lines_from line (c ∷ s) =
    let same = lines_from (line ++ c ∷ []) s in
    let other = lines_from [] s in if c == b'\n' then strip_cr line ∷ other else same

unfoldable pub lines : Text → List Text
unfolding lines_from
lines s = lines_from [] s

unfoldable pub to_ascii_lowercase : Text → Text
unfolding is_ascii_uppercase
to_ascii_lowercase s = map (λ c. if is_ascii_uppercase c then c + 32 else c) s

abbrev flush : Text → List Text
flush word = if is_empty word then [] else word ∷ []

abbrev joined : Text → List Text → List Text
joined word rest = if is_empty word then rest else word ∷ rest

-- The nonempty parts between separators, after the part `word` of the current one
unfoldable words_from : (ℕ → Bool) → Text → Text → List Text
words_from p word [] = flush word
words_from p word (c ∷ s) =
    let inside = words_from p (word ++ c ∷ []) s in
    let outside = joined word (words_from p [] s) in if p c then outside else inside

-- `split_ascii_whitespace` and `split_whitespace`
unfoldable pub split_ascii_whitespace : Text → List Text
unfolding words_from is_ascii_whitespace
split_ascii_whitespace s = words_from is_ascii_whitespace [] s

unfoldable pub split_whitespace : Text → List Text
unfolding words_from is_whitespace
split_whitespace s = words_from is_whitespace [] s

-- The number that decimal digits after `acc` write.
unfoldable pub digits_value : ℕ → Text → Option ℕ
unfolding is_ascii_digit
digits_value acc [] = some acc
digits_value acc (c ∷ s) =
    let rest = digits_value (acc * 10 + (c - b'0')) s in if is_ascii_digit c then rest else none

abbrev at_most : ℕ → Option ℕ → Option ℕ
at_most maximum none = none
at_most maximum (some n) = if leb n maximum then some n else none

-- `parse` of an unsigned integer: one `+` may stand before the digits.
unfoldable parse_digits : ℕ → Text → Option ℕ
unfolding digits_value
parse_digits maximum [] = none
parse_digits maximum (c ∷ s) = at_most maximum (digits_value 0 (c ∷ s))

unfoldable pub parse_unsigned : ℕ → Text → Option ℕ
unfolding parse_digits
parse_unsigned maximum [] = none
parse_unsigned maximum (c ∷ s) =
    if c == b'+' then parse_digits maximum s else parse_digits maximum (c ∷ s)

abbrev pub parse_u32 : Text → Option ℕ
parse_u32 = parse_unsigned 4294967295

abbrev pub parse_u64 : Text → Option ℕ
parse_u64 = parse_unsigned u64_max
