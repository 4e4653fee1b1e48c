-- ===== src/Values/Patch.antt =====
-- What a patch of src/runtime_values.rs leaves in the overrides.
use ores_otel_sidecar_rs.Prelude.{
  ◌≡◌, refl, ap, ◌∙◌, Bool, true, false, Option, none, some, List, [], ◌∷◌, ◌++◌, arith, ◌≟◌, Text,
  text_eq, if◌then◌else◌, any, ok, ◌⊎◌, ◌≢◌,
}
use ores_otel_sidecar_rs.Maps.{Map, KeySet, lookup, collect, contains, collect_keys}
use ores_otel_sidecar_rs.Maps.Laws.{last_value, lookup-collect_into, contains-collect_keys}
use ores_otel_sidecar_rs.Maps.Order.{Sorted, collect-Sorted, last_value-Sorted}
use ores_otel_sidecar_rs.Values.{
  RuntimeValueUpdate, RuntimeValues, filter_keys, set_entries, patched, validate_entries,
  validate_patch, apply_patch,
}

abbrev has_key : Text → List RuntimeValueUpdate → Bool
has_key k us = any (λ u. u.key ≟ k) us

-- The value of a key after a patch, from its value before it.
abbrev pub patched_value : Text → List RuntimeValueUpdate → Option Text → Option Text
patched_value k [] old = old
patched_value k (u ∷ us) old = if u.key ≟ k then u.value else patched_value k us old

abbrev pub Distinct : List RuntimeValueUpdate → Type 0
Distinct [] = Unit
Distinct (u ∷ us) = (has_key u.key us ≡ false) × Distinct us

abbrev Unseen : KeySet → List RuntimeValueUpdate → Type 0
Unseen seen [] = Unit
Unseen seen (u ∷ us) = (contains seen u.key ≡ false) × Unseen seen us

Unseen-add :
    (seen : KeySet) (k : Text) (us : List RuntimeValueUpdate)
    → Unseen (collect_keys seen (k ∷ [])) us
    → Unseen seen us × (has_key k us ≡ false)
unfolding contains
Unseen-add seen k [] h = (tt, refl)
Unseen-add seen k (u ∷ us) h =
    ground (arith, Unseen-add seen k us h.1, contains-collect_keys u.key (k ∷ []) seen)

validate_entries-Distinct :
    (mutable seen : KeySet) (us : List RuntimeValueUpdate)
    → validate_entries mutable seen us ≡ ok tt
    → Unseen seen us × Distinct us
unfolding validate_entries
validate_entries-Distinct mutable seen [] h = (tt, tt)
validate_entries-Distinct mutable seen (u ∷ us) h = ground (
  arith,
  validate_entries-Distinct mutable (collect_keys seen (u.key ∷ [])) us,
  Unseen-add seen u.key us,
)

last_value-append :
    (k : Text) (xs ys : List (Text × Text)) (old : Option Text)
    → last_value k (xs ++ ys) old ≡ last_value k ys (last_value k xs old)
unfolding last_value
last_value-append k [] ys old = refl
last_value-append k ((j, v) ∷ xs) ys old = last_value-append k xs ys (if k ≟ j then some v else old)

last_value-filter_keys :
    (k : Text) (drop : Text → Bool) (m : Map) (old : Option Text)
    → last_value k (filter_keys drop m) old ≡ (if drop k then old else last_value k m old)
unfolding filter_keys last_value
last_value-filter_keys k drop [] old = ground arith
last_value-filter_keys k drop ((j, v) ∷ m) old =
    ground (arith, last_value-filter_keys k drop m old, last_value-filter_keys k drop m (some v))

last_value-absent :
    (k : Text) (us : List RuntimeValueUpdate) (old : Option Text)
    → has_key k us ≡ false
    → last_value k (set_entries us) old ≡ old
unfolding last_value set_entries
last_value-absent k [] old h = refl
last_value-absent k (u ∷ us) old h = ground (arith, last_value-absent k us old)

last_value-set_entries :
    (k : Text) (us : List RuntimeValueUpdate)
    → Distinct us
    → last_value k (set_entries us) none ≡ patched_value k us none
unfolding last_value set_entries
last_value-set_entries k [] d = refl
last_value-set_entries k (u ∷ us) d =
    ground (arith, last_value-set_entries k us d.1, last_value-absent k us u.value)

patched_value-absent :
    (k : Text) (us : List RuntimeValueUpdate) (old : Option Text)
    → has_key k us ≡ false
    → patched_value k us old ≡ old
patched_value-absent k [] old h = refl
patched_value-absent k (u ∷ us) old h = ground (arith, patched_value-absent k us old)

patched_value-present :
    (k : Text) (us : List RuntimeValueUpdate) (old : Option Text)
    → has_key k us ≡ true
    → patched_value k us old ≡ patched_value k us none
patched_value-present k [] old h = cc
patched_value-present k (u ∷ us) old h = ground (arith, patched_value-present k us old)

lookup-collect_append :
    (k : Text) (us : List RuntimeValueUpdate) (m : Map)
    → lookup k (patched m us)
      ≡ last_value k (set_entries us) (if has_key k us then none else last_value k m none)
unfolding patched collect lookup
lookup-collect_append k us m =
    lookup-collect_into k (filter_keys (λ j. has_key j us) m ++ set_entries us) []
    ∙ last_value-append k (filter_keys (λ j. has_key j us) m) (set_entries us) none
    ∙ ap (last_value k (set_entries us)) (last_value-filter_keys k (λ j. has_key j us) m none)

lookup-patched :
    (k : Text) (us : List RuntimeValueUpdate) (m : Map)
    → Distinct us
    → Sorted m
    → lookup k (patched m us) ≡ patched_value k us (lookup k m)
lookup-patched k us m d s = ground (
  arith,
  lookup-collect_append k us m,
  last_value-Sorted k m none s,
  last_value-absent k us (lookup k m),
  last_value-set_entries k us d,
  patched_value-absent k us (lookup k m),
  patched_value-present k us (lookup k m),
)

pub patched-Sorted : (m : Map) (us : List RuntimeValueUpdate) → Sorted (patched m us)
unfolding patched
patched-Sorted m us = collect-Sorted _

validate_patch-Distinct :
    (values : RuntimeValues) (us : List RuntimeValueUpdate)
    → validate_patch values us ≡ ok tt
    → Distinct us
unfolding validate_patch
validate_patch-Distinct values us h = ground (arith, validate_entries-Distinct values.mutable [] us)

-- A patch that succeeds gives each key that it names the value that it names (none, if it removes
-- the override), and leaves every other key; a patch that fails changes nothing.
pub lookup-apply_patch :
    (values : RuntimeValues) (us : List RuntimeValueUpdate) (k : Text)
    → Sorted values.overrides
    → let (r, after) = apply_patch values us in
      ((r ≡ ok tt)
        × (lookup k after.overrides ≡ patched_value k us (lookup k values.overrides))
        × Distinct us)
      ⊎ ((r ≢ ok tt) × (after ≡ values))
unfolding apply_patch
lookup-apply_patch values us k s =
    ground (arith, validate_patch-Distinct values us, lookup-patched k us values.overrides)
