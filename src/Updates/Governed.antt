-- ===== src/Updates/Governed.antt =====
-- What src/runtime_updates.rs delivers to the values stays governed by their allow-list.
use ores_otel_sidecar_rs.Prelude.{◌≡◌, refl, arith, ok, err, List, [], ◌∷◌, Text, Result, ℕ}
use ores_otel_sidecar_rs.Maps.{Map, KeySet}
use ores_otel_sidecar_rs.Maps.Order.{Sorted}
use ores_otel_sidecar_rs.SidecarError.{Stop}
use ores_otel_sidecar_rs.Values.{
  RuntimeValueUpdate, RuntimeValues, Checked, apply_patch, replace_overrides,
}
use ores_otel_sidecar_rs.Values.Governed.{apply_patch-IsGoverned, replace_overrides-IsGoverned}
use ores_otel_sidecar_rs.Values.Initial.{Governs}
use ores_otel_sidecar_rs.Batch.{
  RuntimeUpdateBatch, RuntimeUpdateOperation, upsert, delete, replace, invalidate, resync,
  Admission, rejected, admitted, admit,
}
use ores_otel_sidecar_rs.Updates.{
  RuntimeUpdateController, set_updates, remove_updates, apply_values, install, apply_snapshot,
  advance, apply_admission, apply_batch,
}
use ores_otel_sidecar_rs.Updates.Runs.{Delivery, batch, snapshot, deliver_all}

module _ (mutable : KeySet) where
  apply_patch-Governs :
      (values : RuntimeValues) (us : List RuntimeValueUpdate)
      → Governs mutable values
      → Governs mutable (apply_patch values us).1
  unfolding apply_patch
  apply_patch-Governs values us g = record {
    allows = ground (arith, g.allows);
    initial = ground (arith, g.initial);
    governed = apply_patch-IsGoverned values g.governed us;
  }

  replace_overrides-Governs :
      (values : RuntimeValues) (next : Map)
      → Sorted next
      → Governs mutable values
      → Governs mutable (replace_overrides values next).1
  unfolding replace_overrides
  replace_overrides-Governs values next s g = record {
    allows = ground (arith, g.allows);
    initial = ground (arith, g.initial);
    governed = replace_overrides-IsGoverned values g.governed next s;
  }

  apply_values-Governs :
      (values : RuntimeValues) (b : RuntimeUpdateBatch) (op : RuntimeUpdateOperation)
      → Sorted b.entries
      → Governs mutable values
      → Governs mutable (apply_values values b op).1
  unfolding apply_values
  apply_values-Governs values b upsert s g = apply_patch-Governs values (set_updates b.entries) g
  apply_values-Governs values b delete s g = apply_patch-Governs values (remove_updates b.keys) g
  apply_values-Governs values b replace s g = replace_overrides-Governs values b.entries s g
  apply_values-Governs values b invalidate s g = replace_overrides-Governs values [] tt g
  apply_values-Governs values b resync s g = g

  advance-values :
      (c : RuntimeUpdateController) (b : RuntimeUpdateBatch)
      (r : Result Stop (Unit {0}) × RuntimeValues)
      → (advance c b r).1.values ≡ r.1
  unfolding advance
  advance-values c b (err e, values) = refl
  advance-values c b (ok _, values) = ground arith

  install-values :
      (c : RuntimeUpdateController) (revision : ℕ) (entries : Map) (r : Checked × RuntimeValues)
      → (install c revision entries r).1.values ≡ r.1
  unfolding install
  install-values c revision entries (err e, values) = refl
  install-values c revision entries (ok _, values) = refl

  apply_admission-Governs :
      (c : RuntimeUpdateController) (b : RuntimeUpdateBatch) (a : Admission)
      → Sorted b.entries
      → Governs mutable c.values
      → Governs mutable (apply_admission c b a).1.values
  unfolding apply_admission
  apply_admission-Governs c b (rejected next outcome) s g = g
  apply_admission-Governs c b admitted s g =
      rw (advance-values c b (apply_values c.values b b.operation))
        (apply_values-Governs c.values b b.operation s g)

  apply_batch-Governs :
      (c : RuntimeUpdateController) (b : RuntimeUpdateBatch)
      → Sorted b.entries
      → Governs mutable c.values
      → Governs mutable (apply_batch c b).1.values
  unfolding apply_batch
  apply_batch-Governs c b s g = ground (arith, g, apply_admission-Governs c b (admit c.state b) s g)

  apply_snapshot-Governs :
      (c : RuntimeUpdateController) (namespace cache : Text) (revision : ℕ) (entries : Map)
      → Sorted entries
      → Governs mutable c.values
      → Governs mutable (apply_snapshot c namespace cache revision entries).1.values
  unfolding apply_snapshot
  apply_snapshot-Governs c namespace cache revision entries s g = ground (
    arith,
    g,
    install-values c revision entries (replace_overrides c.values entries),
    replace_overrides-Governs c.values entries s g,
  )

  -- Whatever is delivered, the values stay governed.
  pub deliver_all-Governs :
      (ds : List Delivery) (c : RuntimeUpdateController)
      → Governs mutable c.values
      → Governs mutable (deliver_all ds c).values
  deliver_all-Governs [] c g = g
  deliver_all-Governs (batch b s ∷ ds) c g =
      deliver_all-Governs ds (apply_batch c b).1 (apply_batch-Governs c b s g)
  deliver_all-Governs (snapshot namespace cache revision entries s ∷ ds) c g =
      deliver_all-Governs ds (apply_snapshot c namespace cache revision entries).1
        (apply_snapshot-Governs c namespace cache revision entries s g)
