-- ===== src/Updates/Mirror.antt =====
-- What an applied batch of src/runtime_updates.rs writes, and the key set that mirrors it.
use ores_otel_sidecar_rs.Prelude.{
  ℕ, ◌≡◌, refl, inl, inr, false, Option, none, List, [], ◌∷◌, arith, if◌then◌else◌, ok, Text,
  text_eq,
}
use ores_otel_sidecar_rs.Maps.{Map, KeySet, lookup, keys, contains, collect_keys}
use ores_otel_sidecar_rs.Maps.Laws.{
  is_some, contains-collect_keys, contains-keys, contains_key-lookup,
}
use ores_otel_sidecar_rs.Maps.Order.{Sorted}
use ores_otel_sidecar_rs.Values.{RuntimeValues, apply_patch, replace_overrides, or_else}
use ores_otel_sidecar_rs.Values.Patch.{patched_value, lookup-apply_patch, patched-Sorted}
use ores_otel_sidecar_rs.Batch.{
  RuntimeUpdateOperation, upsert, delete, replace, invalidate, resync, RuntimeUpdateBatch, applied,
  RuntimeUpdateInner, admit, without_keys, backend_keys_after,
}
use ores_otel_sidecar_rs.Updates.Steps.{apply_batch-BatchStep, apply_snapshot-SnapshotStep}
use ores_otel_sidecar_rs.Updates.{
  RuntimeUpdateController, set_updates, remove_updates, apply_values, apply_snapshot, advance,
  apply_admission, apply_batch,
}

-- The value of a key after a batch, from its value before it.
abbrev pub effect : RuntimeUpdateOperation → Map → List Text → Text → Option Text → Option Text
effect upsert entries ks k old = or_else (lookup k entries) old
effect delete entries ks k old = if contains ks k then none else old
effect replace entries ks k old = lookup k entries
effect invalidate entries ks k old = none
effect resync entries ks k old = old

patched_value-set_updates :
    (k : Text) (m : Map) (old : Option Text)
    → patched_value k (set_updates m) old ≡ or_else (lookup k m) old
unfolding set_updates lookup
patched_value-set_updates k [] old = refl
patched_value-set_updates k ((j, v) ∷ m) old = ground (arith, patched_value-set_updates k m old)

patched_value-remove_updates :
    (k : Text) (ks : List Text) (old : Option Text)
    → patched_value k (remove_updates ks) old ≡ (if contains ks k then none else old)
unfolding remove_updates contains
patched_value-remove_updates k [] old = refl
patched_value-remove_updates k (j ∷ ks) old = ground (arith, patched_value-remove_updates k ks old)

contains-without_keys :
    (k : Text) (ks : List Text) (s : KeySet)
    → contains (without_keys ks s) k ≡ (if contains ks k then false else contains s k)
unfolding without_keys contains
contains-without_keys k ks [] = ground arith
contains-without_keys k ks (j ∷ s) = ground (arith, contains-without_keys k ks s)

lookup-apply_values :
    (v : RuntimeValues) (b : RuntimeUpdateBatch) (op : RuntimeUpdateOperation) (k : Text)
    → Sorted v.overrides
    → (apply_values v b op).0 ≡ ok tt
    → lookup k (apply_values v b op).1.overrides
      ≡ effect op b.entries b.keys k (lookup k v.overrides)
unfolding apply_values
lookup-apply_values v b upsert k s h = ground (
  arith,
  lookup-apply_patch v (set_updates b.entries) k s,
  patched_value-set_updates k b.entries (lookup k v.overrides),
)
lookup-apply_values v b delete k s h = ground (
  arith,
  lookup-apply_patch v (remove_updates b.keys) k s,
  patched_value-remove_updates k b.keys (lookup k v.overrides),
)
lookup-apply_values v b replace k s h = unfold replace_overrides in ground arith
lookup-apply_values v b invalidate k s h = unfold replace_overrides lookup in ground arith
lookup-apply_values v b resync k s h = cc

apply_values-Sorted :
    (v : RuntimeValues) (b : RuntimeUpdateBatch) (op : RuntimeUpdateOperation)
    → Sorted v.overrides
    → Sorted b.entries
    → Sorted (apply_values v b op).1.overrides
unfolding apply_values apply_patch replace_overrides
apply_values-Sorted v b upsert s e =
    ground (arith, patched-Sorted v.overrides (set_updates b.entries))
apply_values-Sorted v b delete s e =
    ground (arith, patched-Sorted v.overrides (remove_updates b.keys))
apply_values-Sorted v b replace s e = ground arith
apply_values-Sorted v b invalidate s e = ground arith
apply_values-Sorted v b resync s e = s

-- The keys after an applied batch are those that its effect leaves a value.
contains-backend_keys_after :
    (i : RuntimeUpdateInner) (b : RuntimeUpdateBatch) (op : RuntimeUpdateOperation) (k : Text)
    (old : Option Text) (ks : KeySet)
    → contains i.backend_keys k ≡ is_some old
    → backend_keys_after i b op ≡ ok ks
    → contains ks k ≡ is_some (effect op b.entries b.keys k old)
unfolding backend_keys_after contains
contains-backend_keys_after i b upsert k old ks m h = ground (
  arith,
  contains-collect_keys k i.backend_keys [],
  contains-collect_keys k (keys b.entries) (collect_keys [] i.backend_keys),
  contains-keys k b.entries,
  contains_key-lookup k b.entries,
)
contains-backend_keys_after i b delete k old ks m h = ground (
  arith,
  contains-collect_keys k (without_keys b.keys i.backend_keys) [],
  contains-without_keys k b.keys i.backend_keys,
)
contains-backend_keys_after i b replace k old ks m h = ground (
  arith,
  contains-collect_keys k (keys b.entries) [],
  contains-keys k b.entries,
  contains_key-lookup k b.entries,
)
contains-backend_keys_after i b invalidate k old ks m h = ground arith
contains-backend_keys_after i b resync k old ks m h = cc

-- The tracked keys are those that have an override.
pub record IsMirror (c : RuntimeUpdateController) : Type 0 where
  pub sorted : Sorted c.values.overrides
  pub mirrored :
      (k : Text) → contains c.state.backend_keys k ≡ is_some (lookup k c.values.overrides)

-- The state and the values after a batch that is applied.
module _ (c : RuntimeUpdateController) (b : RuntimeUpdateBatch) where
  AfterBatch : RuntimeUpdateController → Type 0
  AfterBatch after =
      (after.values ≡ (apply_values c.values b b.operation).1)
      × ((apply_values c.values b b.operation).0 ≡ ok tt)
      × (backend_keys_after c.state b b.operation ≡ ok after.state.backend_keys)

  apply_batch-AfterBatch :
      (n : ℕ) → (apply_batch c b).0 ≡ ok (applied n) → AfterBatch (apply_batch c b).1
  unfolding apply_batch apply_admission advance AfterBatch admit
  apply_batch-AfterBatch n h = ground arith

-- A batch that is applied gives each key the value that its operation says: an upsert's own value
-- or the old one, nothing for a deleted key, a replacement's value or nothing, and nothing after an
-- invalidation.
pub lookup-apply_batch :
    (c : RuntimeUpdateController) (b : RuntimeUpdateBatch) (n : ℕ) (k : Text)
    → Sorted c.values.overrides
    → (apply_batch c b).0 ≡ ok (applied n)
    → lookup k (apply_batch c b).1.values.overrides
      ≡ effect b.operation b.entries b.keys k (lookup k c.values.overrides)
unfolding AfterBatch
lookup-apply_batch c b n k s h =
    let a = apply_batch-AfterBatch c b n h in
    ground (arith, a, lookup-apply_values c.values b b.operation k s)

apply_batch_mirrors :
    (c : RuntimeUpdateController) (b : RuntimeUpdateBatch) (n : ℕ)
    → Sorted b.entries
    → IsMirror c
    → (apply_batch c b).0 ≡ ok (applied n)
    → IsMirror (apply_batch c b).1
unfolding AfterBatch
apply_batch_mirrors c b n e m h =
    let a = apply_batch-AfterBatch c b n h in
    record {
      sorted = ground (arith, a, apply_values-Sorted c.values b b.operation m.sorted e);
      mirrored = λ k. ground (
        arith,
        a,
        lookup-apply_batch c b n k m.sorted h,
        contains-backend_keys_after c.state b b.operation k (lookup k c.values.overrides)
            (apply_batch c b).1.state.backend_keys (m.mirrored k),
      );
    }

-- Every batch, whatever becomes of it, keeps the tracked keys those of the overrides.
pub apply_batch-IsMirror :
    (c : RuntimeUpdateController) (b : RuntimeUpdateBatch)
    → Sorted b.entries
    → IsMirror c
    → IsMirror (apply_batch c b).1
apply_batch-IsMirror c b e m = elim (apply_batch-BatchStep c b) [
  | inl a ↦ apply_batch_mirrors c b b.revision e m a.0
  | inr (inl d) ↦ rw d.2 m
  | inr (inr (inl r)) ↦ record {
    sorted = rw r.2 m.sorted;
    mirrored = λ k. rw (r.2, r.5) (m.mirrored k);
  }
  | inr (inr (inr f)) ↦ rw f.1 m
]

-- So does every snapshot.
pub apply_snapshot-IsMirror :
    (c : RuntimeUpdateController) (namespace cache : Text) (revision : ℕ) (entries : Map)
    → Sorted entries
    → IsMirror c
    → IsMirror (apply_snapshot c namespace cache revision entries).1
unfolding contains
apply_snapshot-IsMirror c namespace cache revision entries e m =
    elim (apply_snapshot-SnapshotStep c namespace cache revision entries) [
      | inl a ↦ record {
        sorted = rw a.4 e;
        mirrored = λ k.
            rw (a.4, a.5)
              (ground (
                arith,
                contains-collect_keys k (keys entries) [],
                contains-keys k entries,
                contains_key-lookup k entries,
              ));
      }
      | inr (inl d) ↦ rw d.2 m
      | inr (inr f) ↦ rw f.1 m
    ]
