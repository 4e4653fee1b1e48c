-- ===== src/Maps/Order.antt =====
-- Maps stay in key order, so that each key has one entry.
use ores_otel_sidecar_rs.Prelude.{
  ◌≡◌, refl, ◌⊎◌, inl, inr, true, false, Option, none, some, List, [], ◌∷◌, arith, Text, text_eq,
}
use ores_otel_sidecar_rs.Maps.{Map, text_lt, lookup, insert, collect_into, collect}
use ores_otel_sidecar_rs.Maps.Laws.{last_value}

text_lt_irrefl : (s : Text) → text_lt s s ≡ false
unfolding text_lt
text_lt_irrefl [] = refl
text_lt_irrefl (c ∷ s) = ground (arith, text_lt_irrefl s)

text_lt_trans : (s t u : Text) → text_lt s t ≡ true → text_lt t u ≡ true → text_lt s u ≡ true
unfolding text_lt
text_lt_trans s t [] h k = k
text_lt_trans [] t (e ∷ u) h k = refl
text_lt_trans (c ∷ s) [] (e ∷ u) h k = cc
text_lt_trans (c ∷ s) (d ∷ t) (e ∷ u) h k = ground (arith, text_lt_trans s t u)

text_lt_total : (s t : Text) → (s ≡ t) ⊎ (text_lt s t ≡ true) ⊎ (text_lt t s ≡ true)
unfolding text_lt
text_lt_total [] [] = inl refl
text_lt_total [] (d ∷ t) = inr (inl refl)
text_lt_total (c ∷ s) [] = inr (inr refl)
text_lt_total (c ∷ s) (d ∷ t) = ground (arith, text_lt_total s t)

-- Every key of the map comes after `k`.
abbrev Above : Text → Map → Type 0
Above k [] = Unit
Above k ((j, v) ∷ m) = (text_lt k j ≡ true) × Above k m

abbrev pub Sorted : Map → Type 0
Sorted [] = Unit
Sorted ((k, v) ∷ m) = Above k m × Sorted m

Above-trans : (j k : Text) (m : Map) → text_lt j k ≡ true → Above k m → Above j m
Above-trans j k [] h a = tt
Above-trans j k ((i, v) ∷ m) h a = (text_lt_trans j k i h a.0, Above-trans j k m h a.1)

Above-insert : (j k v : Text) (m : Map) → text_lt j k ≡ true → Above j m → Above j (insert k v m)
unfolding insert
Above-insert j k v [] h a = (h, tt)
Above-insert j k v ((i, w) ∷ m) h a = ground (arith, Above-insert j k v m)

insert-Sorted : (k v : Text) (m : Map) → Sorted m → Sorted (insert k v m)
unfolding insert
insert-Sorted k v [] s = (tt, tt)
insert-Sorted k v ((j, w) ∷ m) s =
    ground (arith, text_lt_total k j, Above-trans k j m, Above-insert j k v m, insert-Sorted k v m)

collect_into-Sorted : (m : Map) (kvs : List (Text × Text)) → Sorted m → Sorted (collect_into m kvs)
unfolding collect_into
collect_into-Sorted m [] s = s
collect_into-Sorted m ((k, v) ∷ kvs) s =
    collect_into-Sorted (insert k v m) kvs (insert-Sorted k v m s)

-- A collected map is in order.
pub collect-Sorted : (kvs : List (Text × Text)) → Sorted (collect kvs)
unfolding collect
collect-Sorted kvs = collect_into-Sorted [] kvs tt

lookup-Above : (k : Text) (m : Map) → Above k m → lookup k m ≡ none
unfolding lookup
lookup-Above k [] a = refl
lookup-Above k ((j, v) ∷ m) a = ground (arith, lookup-Above k m, text_lt_irrefl k)

-- In a map in order the first entry of a key is its last.
pub last_value-Sorted :
    (k : Text) (m : Map) (old : Option Text)
    → Sorted m
    → last_value k m old ≡ (elim (lookup k m) [ none ↦ old | some v ↦ some v ])
unfolding lookup last_value
last_value-Sorted k [] old s = refl
last_value-Sorted k ((j, v) ∷ m) old s =
    ground
      (arith, last_value-Sorted k m old s.1, last_value-Sorted k m (some v) s.1, lookup-Above k m)
