-- ===== src/Values/Governed.antt =====
-- What every reachable set of overrides of src/runtime_values.rs satisfies.
use ores_otel_sidecar_rs.Prelude.{
  ◌≤◌, ◌≡◌, refl, Bool, true, false, some, List, [], ◌∷◌, ◌++◌, arith, ◌≟◌, Text, text_eq, byte_len,
  ok, any, sym,
}
use ores_otel_sidecar_rs.Maps.{
  Map, KeySet, lookup, insert, collect_into, collect, contains, collect_keys,
}
use ores_otel_sidecar_rs.Maps.Order.{Sorted}
use ores_otel_sidecar_rs.Values.{
  RuntimeValueUpdate, RuntimeValues, max_runtime_value_bytes, is_sensitive_runtime_key, valid_shape,
  validate_update, filter_keys, set_entries, patched, validate_entries, validate_patch, apply_patch,
  validate_all, replace_overrides,
}
use ores_otel_sidecar_rs.Values.Patch.{patched-Sorted}

-- An allow-listed key of the right shape that names no secret, and a value within the bound.
abbrev pub IsAdmissible : KeySet → Text → Text → Type 0
IsAdmissible mutable k v =
    (contains mutable k ≡ true)
    × (valid_shape k ≡ true)
    × (is_sensitive_runtime_key k ≡ false)
    × (byte_len v ≤ max_runtime_value_bytes)

abbrev pub Entries : KeySet → List (Text × Text) → Type 0
Entries mutable [] = Unit
Entries mutable ((k, v) ∷ m) = IsAdmissible mutable k v × Entries mutable m

pub record IsGoverned (values : RuntimeValues) : Type 0 where
  pub sorted : Sorted values.overrides
  pub entries : Entries values.mutable values.overrides

module _ (mutable : KeySet) where
  pub validate_update-IsAdmissible :
      (k v : Text) → validate_update mutable k (some v) ≡ ok tt → IsAdmissible mutable k v
  unfolding validate_update
  validate_update-IsAdmissible k v h = ground arith

  Entries-insert :
      (k v : Text) (m : Map)
      → IsAdmissible mutable k v
      → Entries mutable m
      → Entries mutable (insert k v m)
  unfolding insert
  Entries-insert k v [] a e = (a, tt)
  Entries-insert k v ((j, w) ∷ m) a e = ground (arith, Entries-insert k v m a e.1)

  pub Entries-collect_into :
      (m : Map) (kvs : List (Text × Text))
      → Entries mutable m
      → Entries mutable kvs
      → Entries mutable (collect_into m kvs)
  unfolding collect_into
  Entries-collect_into m [] e f = e
  Entries-collect_into m ((k, v) ∷ kvs) e f =
      Entries-collect_into (insert k v m) kvs (Entries-insert k v m f.0 e) f.1

  pub Entries-append :
      (xs ys : List (Text × Text))
      → Entries mutable xs
      → Entries mutable ys
      → Entries mutable (xs ++ ys)
  Entries-append [] ys e f = f
  Entries-append ((k, v) ∷ xs) ys e f = (e.0, Entries-append xs ys e.1 f)

  Entries-filter_keys :
      (drop : Text → Bool) (m : Map) → Entries mutable m → Entries mutable (filter_keys drop m)
  unfolding filter_keys
  Entries-filter_keys drop [] e = tt
  Entries-filter_keys drop ((k, v) ∷ m) e = ground (arith, Entries-filter_keys drop m e.1)

  Entries-set_entries :
      (seen : KeySet) (us : List RuntimeValueUpdate)
      → validate_entries mutable seen us ≡ ok tt
      → Entries mutable (set_entries us)
  unfolding validate_entries set_entries
  Entries-set_entries seen [] h = tt
  Entries-set_entries seen (u ∷ us) h = ground (
    arith,
    Entries-set_entries (collect_keys seen (u.key ∷ [])) us,
    λ (v : Text). validate_update-IsAdmissible u.key v,
  )

  Entries-validate_all : (m : Map) → validate_all mutable m ≡ ok tt → Entries mutable m
  unfolding validate_all
  Entries-validate_all [] h = tt
  Entries-validate_all ((k, v) ∷ m) h =
      ground (arith, validate_update-IsAdmissible k v, Entries-validate_all m)

module _ (values : RuntimeValues) (g : IsGoverned values) where
  pub apply_patch-IsGoverned : (us : List RuntimeValueUpdate) → IsGoverned (apply_patch values us).1
  unfolding apply_patch validate_patch patched collect
  apply_patch-IsGoverned us =
      let kept = filter_keys (λ key. any (λ u. u.key ≟ key) us) values.overrides in
      let set_ = λ (h : validate_entries values.mutable [] us ≡ ok tt).
        Entries-collect_into values.mutable [] (kept ++ set_entries us) tt (
          Entries-append values.mutable kept (set_entries us)
            (Entries-filter_keys values.mutable _ values.overrides g.entries)
            (Entries-set_entries values.mutable [] us h)) in
      ground (arith, set_, patched-Sorted values.overrides us)

  pub replace_overrides-IsGoverned :
      (next : Map) → Sorted next → IsGoverned (replace_overrides values next).1
  unfolding replace_overrides
  replace_overrides-IsGoverned next s = ground (arith, Entries-validate_all values.mutable next)

-- The two writes of the overrides.
pub data Write : Type 0 where
  patch : List RuntimeValueUpdate → Write
  replace : (next : Map) → Sorted next → Write

abbrev pub write : Write → RuntimeValues → RuntimeValues
write (patch us) values = (apply_patch values us).1
write (replace next s) values = (replace_overrides values next).1

abbrev pub write_all : List Write → RuntimeValues → RuntimeValues
write_all [] values = values
write_all (w ∷ ws) values = write_all ws (write w values)

write_all-IsGoverned :
    (ws : List Write) (values : RuntimeValues)
    → IsGoverned values
    → IsGoverned (write_all ws values)
write_all-IsGoverned [] values g = g
write_all-IsGoverned (patch us ∷ ws) values g =
    write_all-IsGoverned ws _ (apply_patch-IsGoverned values g us)
write_all-IsGoverned (replace next s ∷ ws) values g =
    write_all-IsGoverned ws _ (replace_overrides-IsGoverned values g next s)

pub lookup-Entries :
    (mutable : KeySet) (k v : Text) (m : Map)
    → Entries mutable m
    → lookup k m ≡ some v
    → IsAdmissible mutable k v
unfolding lookup
lookup-Entries mutable k v [] e h = cc
lookup-Entries mutable k v ((j, w) ∷ m) e h = ground (arith, lookup-Entries mutable k v m e.1)

mutable-write_all :
    (ws : List Write) (values : RuntimeValues) → (write_all ws values).mutable ≡ values.mutable
unfolding apply_patch replace_overrides
mutable-write_all [] values = refl
mutable-write_all (patch us ∷ ws) values =
    ground (arith, mutable-write_all ws (write (patch us) values))
mutable-write_all (replace next s ∷ ws) values =
    ground (arith, mutable-write_all ws (write (replace next s) values))

-- After any sequence of patches and replacements, accepted or refused, from governed overrides, a
-- key is overridden only if it is on the allow-list, has the shape of a key and names no secret,
-- and its value is within the bound.
write_all-IsAdmissible :
    (values : RuntimeValues) (ws : List Write) (k v : Text)
    → IsGoverned values
    → lookup k (write_all ws values).overrides ≡ some v
    → IsAdmissible values.mutable k v
write_all-IsAdmissible values ws k v g h = rw (sym (mutable-write_all ws values)) (
    lookup-Entries (write_all ws values).mutable k v (write_all ws values).overrides
      (write_all-IsGoverned ws values g).entries h)
