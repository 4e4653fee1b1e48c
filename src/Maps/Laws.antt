-- ===== src/Maps/Laws.antt =====
-- Lookups after insertions.
use ores_otel_sidecar_rs.Prelude.{
  ◌≡◌, refl, ap, ◌∙◌, Bool, true, false, ◌||◌, Option, none, some, List, [], ◌∷◌, arith, ◌≟◌,
  if◌then◌else◌, Text, text_eq,
}
use ores_otel_sidecar_rs.Maps.{
  Map, KeySet, lookup, insert, collect_into, keys, contains, contains_key, insert_key, collect_keys,
}

lookup-insert :
    (j k v : Text) (m : Map) → lookup j (insert k v m) ≡ (if j ≟ k then some v else lookup j m)
unfolding lookup insert
lookup-insert j k v [] = refl
lookup-insert j k v ((i, w) ∷ m) = ground (arith, lookup-insert j k v m)

-- The last entry of the key.
unfoldable pub last_value : Text → List (Text × Text) → Option Text → Option Text
last_value k [] old = old
last_value k ((j, v) ∷ kvs) old = last_value k kvs (if k ≟ j then some v else old)

pub lookup-collect_into :
    (k : Text) (kvs : List (Text × Text)) (m : Map)
    → lookup k (collect_into m kvs) ≡ last_value k kvs (lookup k m)
unfolding collect_into last_value
lookup-collect_into k [] m = refl
lookup-collect_into k ((j, v) ∷ kvs) m =
    lookup-collect_into k kvs (insert j v m) ∙ ap (last_value k kvs) (lookup-insert k j v m)

contains-insert_key :
    (j k : Text) (s : KeySet) → contains (insert_key k s) j ≡ ((j ≟ k) || contains s j)
unfolding contains insert_key
contains-insert_key j k [] = refl
contains-insert_key j k (i ∷ s) = ground (arith, contains-insert_key j k s)

pub contains-collect_keys :
    (k : Text) (ks : List Text) (s : KeySet)
    → contains (collect_keys s ks) k ≡ (contains s k || contains ks k)
unfolding contains collect_keys
contains-collect_keys k [] s = ground arith
contains-collect_keys k (j ∷ ks) s =
    ground (arith, contains-collect_keys k ks (insert_key j s), contains-insert_key k j s)

pub contains-keys : (k : Text) (m : Map) → contains (keys m) k ≡ contains_key m k
unfolding contains keys contains_key
contains-keys k [] = refl
contains-keys k ((j, v) ∷ m) = ground (arith, contains-keys k m)

abbrev pub is_some : Option Text → Bool
is_some none = false
is_some (some v) = true

pub contains_key-lookup : (k : Text) (m : Map) → contains_key m k ≡ is_some (lookup k m)
unfolding contains_key lookup
contains_key-lookup k [] = refl
contains_key-lookup k ((j, v) ∷ m) = ground (arith, contains_key-lookup k m)
