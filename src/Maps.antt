-- ===== src/Maps.antt =====
-- The operations of the standard library's `BTreeMap<String, String>` and `BTreeSet<String>` that
-- src/runtime_values.rs and src/runtime_updates.rs use: association lists in key order.
pub mod Laws
pub mod Order
use ores_otel_sidecar_rs.Prelude.{
  ℕ, zero, ◌≤◌, ◌≡◌, refl, ◌↔◌, Bool, true, false, ◌||◌, Option, none, some, List, [], ◌∷◌, ◌++◌,
  arith, ltb, ◌==◌, ◌≟◌, if◌then◌else◌, Text, text_eq, length,
}

-- The order of `String`: of the UTF-8 bytes, which is that of the code points.
unfoldable pub text_lt : Text → Text → Bool
text_lt s [] = false
text_lt [] (d ∷ t) = true
text_lt (c ∷ s) (d ∷ t) = ltb c d || (if c == d then text_lt s t else false)

abbrev pub Map : Type 0
Map = List (Text × Text)

abbrev pub KeySet : Type 0
KeySet = List Text

unfoldable pub lookup : Text → Map → Option Text
lookup k [] = none
lookup k ((j, v) ∷ m) = if k ≟ j then some v else lookup k m

unfoldable pub insert : Text → Text → Map → Map
unfolding text_lt
insert k v [] = (k, v) ∷ []
insert k v ((j, w) ∷ m) =
    if k ≟ j then (k, v) ∷ m else if text_lt k j then (k, v) ∷ (j, w) ∷ m else (j, w) ∷ insert k v m

-- `collect()`: a later entry of a key replaces an earlier one.
unfoldable pub collect_into : Map → List (Text × Text) → Map
unfolding insert
collect_into m [] = m
collect_into m ((k, v) ∷ kvs) = collect_into (insert k v m) kvs

unfoldable pub collect : List (Text × Text) → Map
unfolding collect_into
collect kvs = collect_into [] kvs

unfoldable pub keys : Map → List Text
keys [] = []
keys ((k, v) ∷ m) = k ∷ keys m

unfoldable pub contains : KeySet → Text → Bool
contains [] k = false
contains (j ∷ ks) k = (k ≟ j) || contains ks k

unfoldable pub contains_key : Map → Text → Bool
contains_key [] k = false
contains_key ((j, v) ∷ m) k = (k ≟ j) || contains_key m k

unfoldable pub insert_key : Text → KeySet → KeySet
unfolding text_lt
insert_key k [] = k ∷ []
insert_key k (j ∷ ks) =
    if k ≟ j then k ∷ ks else if text_lt k j then k ∷ j ∷ ks else j ∷ insert_key k ks

unfoldable pub collect_keys : KeySet → List Text → KeySet
unfolding insert_key
collect_keys s [] = s
collect_keys s (k ∷ ks) = collect_keys (insert_key k s) ks
