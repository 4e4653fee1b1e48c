-- ===== src/Scenarios/Overrides.antt =====
-- Patches, batches and snapshots of runtime values.
use ores_otel_sidecar_rs.Prelude.{
  ℕ, ◌≡◌, refl, true, false, some, ok, Text, codes, Text-discrete, bytes, [], ◌∷◌, List,
}
use ores_otel_sidecar_rs.Maps.{Map, lookup, contains}
use ores_otel_sidecar_rs.Values.{RuntimeValueUpdate, RuntimeValues, apply_patch, replace_overrides}
use ores_otel_sidecar_rs.Batch.{
  RuntimeUpdateOperation, upsert, invalidate, RuntimeUpdateBatch, applied, validate_batch_shape,
  admit,
}
use ores_otel_sidecar_rs.Updates.{
  RuntimeUpdateController, apply_values, advance, apply_admission, apply_batch, apply_snapshot,
}
use ores_otel_sidecar_rs.Updates.Steps.{
  BatchStep, SnapshotStep, apply_batch-BatchStep, apply_snapshot-SnapshotStep,
}
use ores_otel_sidecar_rs.Updates.Mirror.{IsMirror}
use ores_otel_sidecar_rs.Updates.Runs.{
  batch, deliver_all, deliver_all-IsMirror, apply_batches, replay, apply_batches-replay,
}

abbrev log_filter : Text
log_filter = codes "LOG_FILTER"

abbrev values : RuntimeValues
values = record {
  mutable = log_filter ∷ [];
  baseline = (log_filter, codes "info") ∷ [];
  overrides = [];
  poisoned = false;
}

abbrev set_debug : List RuntimeValueUpdate
set_debug = record { key = log_filter; value = some (codes "debug") } ∷ []

abbrev controller : RuntimeUpdateController
controller = record {
  values = values;
  target = some (record { namespace = codes "ns"; cache = codes "env" });
  state = record { revision = 1; stale = false; backend_keys = [] };
  poisoned = false;
}

abbrev stale_controller : RuntimeUpdateController
stale_controller = record controller {
  state = record { revision = 1; stale = true; backend_keys = [] };
}

abbrev batch_of : ℕ → RuntimeUpdateOperation → Map → RuntimeUpdateBatch
batch_of revision operation entries = record {
  namespace = codes "ns";
  cache = codes "env";
  revision = revision;
  operation = operation;
  entries = entries;
  keys = [];
}

abbrev second : RuntimeUpdateBatch
second = batch_of 2 upsert ((log_filter, codes "debug") ∷ [])

abbrev third : RuntimeUpdateBatch
third = batch_of 3 invalidate []

abbrev gap : RuntimeUpdateBatch
gap = batch_of 4 upsert ((log_filter, codes "trace") ∷ [])

second_applied : (apply_batch controller second).0 ≡ ok (applied 2)
unfolding apply_batch validate_batch_shape admit apply_admission apply_values apply_patch advance
    Text-discrete bytes lookup contains
second_applied = refl

third_applied : (apply_batch (apply_batch controller second).1 third).0 ≡ ok (applied 3)
unfolding apply_batch validate_batch_shape admit apply_admission apply_values apply_patch
    replace_overrides advance Text-discrete bytes lookup contains
third_applied = refl

controller-IsMirror : IsMirror controller
unfolding contains lookup
controller-IsMirror = record { sorted = tt; mirrored = λ k. refl }

apply_batch-BatchStep_example : BatchStep controller gap (apply_batch controller gap)
apply_batch-BatchStep_example = apply_batch-BatchStep controller gap

apply_snapshot-SnapshotStep_example :
    SnapshotStep controller 5 [] (apply_snapshot controller (codes "ns") (codes "env") 5 [])
apply_snapshot-SnapshotStep_example =
    apply_snapshot-SnapshotStep controller (codes "ns") (codes "env") 5 []

deliver_all-IsMirror_example :
    IsMirror (deliver_all (batch second (tt, tt) ∷ batch gap (tt, tt) ∷ []) controller)
deliver_all-IsMirror_example =
    deliver_all-IsMirror (batch second (tt, tt) ∷ batch gap (tt, tt) ∷ []) controller
      controller-IsMirror

apply_batches-replay_example :
    lookup log_filter (apply_batches (second ∷ third ∷ []) controller).values.overrides
    ≡ replay (second ∷ third ∷ []) log_filter (lookup log_filter [])
apply_batches-replay_example =
    apply_batches-replay controller (second ∷ third ∷ []) log_filter controller-IsMirror
      ((tt, tt), (tt, tt)) ((2, second_applied), ((3, third_applied), tt))
