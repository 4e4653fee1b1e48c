-- ===== src/Paths.antt =====
-- What the modelled code uses of Rust's `Path` on Unix, on paths as texts. A component is its
-- text: `/` for the root, `.` for a leading current directory, `..`, or a name.
use ores_otel_sidecar_rs.Prelude.{
  Bool, true, false, ◌&&◌, ◌||◌, Option, none, some, List, [], ◌∷◌, ◌++◌, ◌==◌, ◌≟◌, if◌then◌else◌,
  Eq, Text, text_eq, Text-discrete, codes, is_empty,
}
use ores_otel_sidecar_rs.Strings.{split_on}

unfoldable pub Texts-discrete : Discrete (List Text)
unfolding Text-discrete
Texts-discrete = hlevel Text-discrete

instance abbrev pub texts_eq : Eq (List Text)
texts_eq = record { dec = Texts-discrete }

unfoldable pub is_absolute : Text → Bool
is_absolute [] = false
is_absolute (c ∷ p) = c == b'/'

abbrev pub cur_dir : Text
cur_dir = codes "."

abbrev pub parent_dir : Text
parent_dir = codes ".."

abbrev pub root_dir : Text
root_dir = codes "/"

-- The segments that are components: neither empty nor `.`.
unfoldable pub parts : List Text → List Text
parts [] = []
parts (s ∷ segments) =
    let rest = parts segments in if is_empty s || s ≟ cur_dir then rest else s ∷ rest

abbrev starts_in_cur_dir : List Text → Bool
starts_in_cur_dir [] = false
starts_in_cur_dir (s ∷ segments) = s ≟ cur_dir

-- `components()`
unfoldable pub components : Text → List Text
unfolding is_absolute parts split_on
components p =
    let segments = split_on b'/' p in
    if is_absolute p
    then root_dir ∷ parts segments
    else if starts_in_cur_dir segments
    then cur_dir ∷ parts segments
    else parts segments

-- `==`
unfoldable pub path_eq : Text → Text → Bool
unfolding components
path_eq p q = components p ≟ components q

unfoldable pub is_prefix : List Text → List Text → Bool
is_prefix [] ys = true
is_prefix (x ∷ xs) [] = false
is_prefix (x ∷ xs) (y ∷ ys) = x ≟ y && is_prefix xs ys

-- `starts_with(base)`
unfoldable pub path_starts_with : Text → Text → Bool
unfolding components is_prefix
path_starts_with p base = is_prefix (components base) (components p)

unfoldable without_last : List Text → List Text
without_last [] = []
without_last (x ∷ xs) = let rest = without_last xs in if is_empty xs then [] else x ∷ rest

-- `parent()`, as its components: none for the root and the empty path.
unfoldable pub parent_of : List Text → Option (List Text)
unfolding without_last
parent_of [] = none
parent_of (x ∷ xs) = if is_empty xs && x ≟ root_dir then none else some (without_last (x ∷ xs))

abbrev ends_in_slash : Text → Bool
ends_in_slash [] = true
ends_in_slash (c ∷ []) = c == b'/'
ends_in_slash (c ∷ d ∷ p) = ends_in_slash (d ∷ p)

-- `join`
unfoldable pub join : Text → Text → Text
unfolding is_absolute
join base p =
    if is_absolute p then p else if ends_in_slash base then base ++ p else base ++ b'/' ∷ p
