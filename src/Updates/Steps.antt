-- ===== src/Updates/Steps.antt =====
-- How src/runtime_updates.rs moves its revision, and when it writes values.
use ores_otel_sidecar_rs.Prelude.{
  ℕ, ◌+◌, ◌≤◌, ◌<◌, ◌≡◌, refl, ◌≢◌, ◌⊎◌, true, false, [], arith, saturating_add, Result, ok, err,
  Text,
}
use ores_otel_sidecar_rs.SidecarError.{Stop, failed, panicked}
use ores_otel_sidecar_rs.Maps.{Map, collect_keys, keys}
use ores_otel_sidecar_rs.Values.{RuntimeValues, apply_patch, replace_overrides}
use ores_otel_sidecar_rs.Batch.{
  RuntimeUpdateBatch, RuntimeUpdateOperation, upsert, delete, replace, invalidate, resync,
  is_resync, rejected, admitted, RuntimeUpdateOutcome, applied, duplicate, reconcile_required,
  stale_snapshot_ignored, RuntimeUpdateInner, Admission, admit, backend_keys_after,
  max_safe_runtime_revision, validate_batch_shape,
}
use ores_otel_sidecar_rs.Updates.{
  RuntimeUpdateController, Stepped, apply_values, install, apply_snapshot, advance, apply_admission,
  apply_batch,
}

abbrev Refused : Result Stop RuntimeUpdateOutcome → Type 0
Refused (err (failed e)) = Unit
Refused (err panicked) = ⊥
Refused (ok o) = ⊥

-- A batch that skips a revision, or that asks for a resync. The increment is Rust's saturating one.
abbrev OutOfTurn : RuntimeUpdateInner → RuntimeUpdateBatch → Type 0
OutOfTurn i b = (b.revision ≢ saturating_add i.revision 1) ⊎ (is_resync b.operation ≡ true)

-- What a batch does: it is applied in sequence to a controller that is not stale; or it is a
-- duplicate that changes nothing; or the controller is stale or the batch out of turn, and the
-- controller keeps its values, keys and revision and is stale; or it is refused with an error and
-- changes nothing.
abbrev pub BatchStep : RuntimeUpdateController → RuntimeUpdateBatch → Stepped → Type 0
BatchStep c b (r, after) =
    ((r ≡ ok (applied b.revision))
      × (b.revision ≡ c.state.revision + 1)
      × (c.state.stale ≡ false)
      × (after.state.revision ≡ b.revision)
      × (after.state.stale ≡ false)
      × (after.target ≡ c.target)
      × (is_resync b.operation ≡ false))
    ⊎ ((r ≡ ok (duplicate c.state.revision)) × (b.revision ≤ c.state.revision) × (after ≡ c))
    ⊎ ((r ≡ ok (reconcile_required c.state.revision b.revision))
        × (c.state.revision < b.revision)
        × (after.values ≡ c.values)
        × (after.state.revision ≡ c.state.revision)
        × (after.state.stale ≡ true)
        × (after.state.backend_keys ≡ c.state.backend_keys)
        × (after.target ≡ c.target)
        × ((c.state.stale ≡ true) ⊎ OutOfTurn c.state b))
    ⊎ (Refused r × (after ≡ c))

-- A write succeeds, or is refused with an error and changes nothing.
abbrev AllOrNothing : RuntimeValues → Result Stop (Unit {0}) × RuntimeValues → Type 0
AllOrNothing v (ok _, after) = Unit
AllOrNothing v (err (failed e), after) = after ≡ v
AllOrNothing v (err panicked, after) = ⊥

apply_values-AllOrNothing :
    (v : RuntimeValues) (b : RuntimeUpdateBatch) (op : RuntimeUpdateOperation)
    → is_resync op ≡ false
    → AllOrNothing v (apply_values v b op)
unfolding apply_values apply_patch replace_overrides
apply_values-AllOrNothing v b upsert h = ground arith
apply_values-AllOrNothing v b delete h = ground arith
apply_values-AllOrNothing v b replace h = ground arith
apply_values-AllOrNothing v b invalidate h = ground arith
apply_values-AllOrNothing v b resync h = cc

backend_keys_ok :
    (i : RuntimeUpdateInner) (b : RuntimeUpdateBatch) (op : RuntimeUpdateOperation)
    → is_resync op ≡ false
    → backend_keys_after i b op ≢ err panicked
unfolding backend_keys_after
backend_keys_ok i b op h = ground arith

-- An admitted batch is the next one of a controller that is not stale, and no `Resync`.
admit-admitted :
    (i : RuntimeUpdateInner) (b : RuntimeUpdateBatch)
    → b.revision ≤ max_safe_runtime_revision
    → admit i b ≡ admitted
    → (b.revision ≡ i.revision + 1) × (i.stale ≡ false) × (is_resync b.operation ≡ false)
unfolding admit
admit-admitted i b fits h = ground arith

abbrev AfterRejection : RuntimeUpdateInner → RuntimeUpdateBatch → Admission → Type 0
AfterRejection i b admitted = Unit
AfterRejection i b (rejected next o) =
    ((o ≡ duplicate i.revision) × (b.revision ≤ i.revision) × (next ≡ i))
    ⊎ ((o ≡ reconcile_required i.revision b.revision)
        × (i.revision < b.revision)
        × (next.revision ≡ i.revision)
        × (next.stale ≡ true)
        × (next.backend_keys ≡ i.backend_keys)
        × ((i.stale ≡ true) ⊎ OutOfTurn i b))

admit-AfterRejection :
    (i : RuntimeUpdateInner) (b : RuntimeUpdateBatch) → AfterRejection i b (admit i b)
unfolding admit
admit-AfterRejection i b = ground arith

advance-BatchStep :
    (c : RuntimeUpdateController) (b : RuntimeUpdateBatch)
    → (b.revision ≡ c.state.revision + 1)
      × (c.state.stale ≡ false)
      × (is_resync b.operation ≡ false)
    → BatchStep c b (advance c b (apply_values c.values b b.operation))
unfolding advance
advance-BatchStep c b h =
    ground (
      arith,
      apply_values-AllOrNothing c.values b b.operation,
      backend_keys_ok c.state b b.operation,
    )

admission-BatchStep :
    (c : RuntimeUpdateController) (b : RuntimeUpdateBatch)
    → b.revision ≤ max_safe_runtime_revision
    → (a : Admission) → admit c.state b ≡ a
    → BatchStep c b (apply_admission c b a)
unfolding apply_admission
admission-BatchStep c b fits admitted e = advance-BatchStep c b (admit-admitted c.state b fits e)
admission-BatchStep c b fits (rejected next o) e = ground (arith, admit-AfterRejection c.state b)

-- The fate of every batch. If it is applied, it is no resync, it carries the revision after that of
-- a controller that is not stale, and the controller is at it. Else it is a duplicate, which changes
-- nothing; or it asks for a reconcile, since the controller is stale or the batch is out of turn,
-- and leaves the values, the keys and the revision; or it is refused with an error that is no panic,
-- which changes nothing.
pub apply_batch-BatchStep :
    (c : RuntimeUpdateController) (b : RuntimeUpdateBatch) → BatchStep c b (apply_batch c b)
unfolding apply_batch validate_batch_shape
apply_batch-BatchStep c b = ground (
  arith,
  λ (fits : b.revision ≤ max_safe_runtime_revision).
      admission-BatchStep c b fits (admit c.state b) refl,
)

-- What a snapshot does: it is installed whole, at its revision, if that is no older than the
-- controller's; or it is ignored as stale, and changes nothing; or it is refused with an error and
-- changes nothing.
abbrev pub SnapshotStep : RuntimeUpdateController → ℕ → Map → Stepped → Type 0
SnapshotStep c revision entries (r, after) =
    ((r ≡ ok (applied revision))
      × (c.state.revision ≤ revision)
      × (after.state.revision ≡ revision)
      × (after.state.stale ≡ false)
      × (after.values.overrides ≡ entries)
      × (after.state.backend_keys ≡ collect_keys [] (keys entries))
      × (after.target ≡ c.target))
    ⊎ ((r ≡ ok (stale_snapshot_ignored c.state.revision revision))
        × (revision < c.state.revision)
        × (after ≡ c))
    ⊎ (Refused r × (after ≡ c))

-- The fate of every snapshot. It is installed whole, at its revision, over a controller that is no
-- newer, and ends staleness; or it is older than the controller, and is ignored; or it is refused
-- with an error that is no panic. The last two change nothing.
pub apply_snapshot-SnapshotStep :
    (c : RuntimeUpdateController) (namespace cache : Text) (revision : ℕ) (entries : Map)
    → SnapshotStep c revision entries (apply_snapshot c namespace cache revision entries)
unfolding apply_snapshot install replace_overrides
apply_snapshot-SnapshotStep c namespace cache revision entries = ground arith
