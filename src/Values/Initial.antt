-- ===== src/Values/Initial.antt =====
-- The values that `RuntimeValues::new` of src/runtime_values.rs makes.
use ores_otel_sidecar_rs.Prelude.{
  ◌≡◌, refl, false, ◌||◌, arith, Option, none, some, List, [], ◌∷◌, ◌++◌, Text, Result, ok, bind_ok,
}
use ores_otel_sidecar_rs.SidecarError.{SidecarError}
use ores_otel_sidecar_rs.Maps.{Map, KeySet, lookup, collect, contains, collect_keys}
use ores_otel_sidecar_rs.Maps.Laws.{contains-collect_keys}
use ores_otel_sidecar_rs.Values.{RuntimeValues, allow_keys, add_baseline, new, get, validate_update}
use ores_otel_sidecar_rs.Values.Governed.{
  IsAdmissible, Entries, IsGoverned, validate_update-IsAdmissible, Entries-collect_into,
  Entries-append, lookup-Entries,
}

-- Governed overrides over a baseline that the allow-list admits.
pub record Governs (mutable : KeySet) (values : RuntimeValues) : Type 0 where
  pub allows : values.mutable ≡ mutable
  pub initial : Entries values.mutable values.baseline
  pub governed : IsGoverned values

record Step (allowed : KeySet) (baseline : Map) (k v : Text) (rest : List (Text × Text)) (m : Map)
    : Type 0 where
  admits : validate_update allowed k (some v) ≡ ok tt
  more : add_baseline allowed (collect (baseline ++ (k, v) ∷ [])) rest ≡ ok m

add_baseline-Step :
    (allowed : KeySet) (baseline : Map) (k v : Text) (rest : List (Text × Text)) (m : Map)
    → add_baseline allowed baseline ((k, v) ∷ rest) ≡ ok m
    → Step allowed baseline k v rest m
unfolding add_baseline
add_baseline-Step allowed baseline k v rest m h = ground arith

add_baseline-Entries :
    (allowed : KeySet) (baseline : Map) (kvs : List (Text × Text)) (m : Map)
    → Entries allowed baseline
    → add_baseline allowed baseline kvs ≡ ok m
    → Entries allowed m
add_baseline-Entries allowed baseline [] m e h = unfold add_baseline in ground arith
add_baseline-Entries allowed baseline ((k, v) ∷ rest) m e h =
    let step = add_baseline-Step allowed baseline k v rest m h in
    let one : Entries allowed ((k, v) ∷ []) =
      (validate_update-IsAdmissible allowed k v step.admits, tt) in
    add_baseline-Entries allowed (collect (baseline ++ (k, v) ∷ [])) rest m
      (unfold collect in
        Entries-collect_into allowed [] (baseline ++ (k, v) ∷ []) tt
          (Entries-append allowed baseline ((k, v) ∷ []) e one))
      step.more

made_of :
    (allowed : KeySet) (baseline : Map) (values : RuntimeValues)
    → Entries allowed baseline
    → ◌≡◌ {A = Result SidecarError RuntimeValues}
        (ok (record { mutable = allowed; baseline = baseline; overrides = []; poisoned = false }))
        (ok values)
    → Governs values.mutable values
made_of allowed baseline values e h = record {
  allows = refl;
  initial = ground (arith, e, h);
  governed = record { sorted = ground (arith, h); entries = ground (arith, h) };
}

pub new-Governs :
    (mutable : List Text) (initial : List (Text × Text)) (values : RuntimeValues)
    → new mutable initial ≡ ok values
    → Governs values.mutable values
unfolding new
new-Governs mutable initial values h =
    let (allowed, _, rest) = bind_ok {m = allow_keys [] mutable} h in
    let (baseline, made, done) = bind_ok {m = add_baseline allowed [] initial} rest in
    made_of allowed baseline values (add_baseline-Entries allowed [] initial baseline tt made) done

pub get-IsAdmissible :
    (mutable : KeySet) (values : RuntimeValues) (k v : Text)
    → Governs mutable values
    → get values k ≡ ok (some v)
    → IsAdmissible mutable k v
unfolding get
get-IsAdmissible mutable values k v g h = rw (← g.allows) (go (lookup k values.overrides) refl)
  where
    go : (o : Option Text) → lookup k values.overrides ≡ o → IsAdmissible values.mutable k v
    go (some x) is =
        lookup-Entries values.mutable k v values.overrides g.governed.entries (ground (arith, is))
    go none is = lookup-Entries values.mutable k v values.baseline g.initial (ground (arith, is))

record KeyStep (allowed : KeySet) (key : Text) (rest : List Text) (m : KeySet) : Type 0 where
  more : allow_keys (collect_keys allowed (key ∷ [])) rest ≡ ok m

allow_keys-KeyStep :
    (allowed : KeySet) (key : Text) (rest : List Text) (m : KeySet)
    → allow_keys allowed (key ∷ rest) ≡ ok m
    → KeyStep allowed key rest m
unfolding allow_keys
allow_keys-KeyStep allowed key rest m h = ground arith

contains-allow_keys :
    (k : Text) (allowed : KeySet) (keys : List Text) (m : KeySet)
    → allow_keys allowed keys ≡ ok m
    → contains m k ≡ (contains allowed k || contains keys k)
unfolding contains
contains-allow_keys k allowed [] m h = unfold allow_keys in ground arith
contains-allow_keys k allowed (key ∷ rest) m h =
    let step = allow_keys-KeyStep allowed key rest m h in
    ground (
      arith,
      contains-allow_keys k (collect_keys allowed (key ∷ [])) rest m step.more,
      contains-collect_keys k (key ∷ []) allowed,
    )

same_mutable :
    (k : Text) (mutable : List Text) (allowed : KeySet) (baseline : Map) (values : RuntimeValues)
    → ◌≡◌ {A = Result SidecarError RuntimeValues}
        (ok (record { mutable = allowed; baseline = baseline; overrides = []; poisoned = false }))
        (ok values)
    → contains allowed k ≡ (contains [] k || contains mutable k)
    → contains values.mutable k ≡ contains mutable k
unfolding contains
same_mutable k mutable allowed baseline values h c = ground (arith, h, c)

-- The allow-list is the list that it was made of.
pub new-mutable :
    (mutable : List Text) (initial : List (Text × Text)) (values : RuntimeValues) (k : Text)
    → new mutable initial ≡ ok values
    → contains values.mutable k ≡ contains mutable k
unfolding new
new-mutable mutable initial values k h =
    let (allowed, made, rest) = bind_ok {m = allow_keys [] mutable} h in
    let (baseline, _, done) = bind_ok {m = add_baseline allowed [] initial} rest in
    same_mutable k mutable allowed baseline values done
      (contains-allow_keys k [] mutable allowed made)
