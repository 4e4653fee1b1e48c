-- ===== src/Updates/Runs.antt =====
-- Sequences of batches and snapshots against the controller of src/runtime_updates.rs.
use ores_otel_sidecar_rs.Prelude.{
  ℕ, ◌≤◌, ◌≡◌, refl, ◌∙◌, ap, true, Option, List, [], ◌∷◌, arith, Text, ok,
}
use ores_otel_sidecar_rs.Maps.{Map, lookup}
use ores_otel_sidecar_rs.Maps.Order.{Sorted}
use ores_otel_sidecar_rs.Batch.{RuntimeUpdateBatch, applied}
use ores_otel_sidecar_rs.Updates.{RuntimeUpdateController, apply_batch, apply_snapshot}
use ores_otel_sidecar_rs.Updates.Steps.{apply_batch-BatchStep, apply_snapshot-SnapshotStep}
use ores_otel_sidecar_rs.Updates.Mirror.{
  effect, IsMirror, lookup-apply_batch, apply_batch-IsMirror, apply_snapshot-IsMirror,
}

-- What the transport delivers. A `BTreeMap` of entries is in key order.
pub data Delivery : Type 0 where
  batch : (b : RuntimeUpdateBatch) → Sorted b.entries → Delivery
  snapshot : (namespace cache : Text) (revision : ℕ) (entries : Map) → Sorted entries → Delivery

abbrev pub deliver : Delivery → RuntimeUpdateController → RuntimeUpdateController
deliver (batch b s) c = (apply_batch c b).1
deliver (snapshot namespace cache revision entries s) c =
    (apply_snapshot c namespace cache revision entries).1

abbrev pub deliver_all : List Delivery → RuntimeUpdateController → RuntimeUpdateController
deliver_all [] c = c
deliver_all (d ∷ ds) c = deliver_all ds (deliver d c)

deliver-revision :
    (d : Delivery) (c : RuntimeUpdateController) → c.state.revision ≤ (deliver d c).state.revision
deliver-revision (batch b s) c = ground (arith, apply_batch-BatchStep c b)
deliver-revision (snapshot namespace cache revision entries s) c =
    ground (arith, apply_snapshot-SnapshotStep c namespace cache revision entries)

-- Whatever is delivered, in whatever order, the controller's revision never goes back.
deliver_all-revision :
    (ds : List Delivery) (c : RuntimeUpdateController)
    → c.state.revision ≤ (deliver_all ds c).state.revision
deliver_all-revision [] c = omega arith
deliver_all-revision (d ∷ ds) c =
    omega (arith, deliver-revision d c, deliver_all-revision ds (deliver d c))

-- Whatever is delivered, the tracked keys stay those of the overrides.
pub deliver_all-IsMirror :
    (ds : List Delivery) (c : RuntimeUpdateController) → IsMirror c → IsMirror (deliver_all ds c)
deliver_all-IsMirror [] c m = m
deliver_all-IsMirror (batch b s ∷ ds) c m =
    deliver_all-IsMirror ds (apply_batch c b).1 (apply_batch-IsMirror c b s m)
deliver_all-IsMirror (snapshot namespace cache revision entries s ∷ ds) c m =
    deliver_all-IsMirror ds (apply_snapshot c namespace cache revision entries).1
      (apply_snapshot-IsMirror c namespace cache revision entries s m)

abbrev pub apply_batches :
    List RuntimeUpdateBatch → RuntimeUpdateController → RuntimeUpdateController
apply_batches [] c = c
apply_batches (b ∷ bs) c = apply_batches bs (apply_batch c b).1

stale-apply_batch :
    (c : RuntimeUpdateController) (b : RuntimeUpdateBatch)
    → c.state.stale ≡ true
    → ((apply_batch c b).1.state.stale ≡ true)
      × ((apply_batch c b).1.values ≡ c.values)
      × ((apply_batch c b).1.state.revision ≡ c.state.revision)
stale-apply_batch c b h = ground (arith, apply_batch-BatchStep c b)

-- A stale controller stays stale, and keeps its values and its revision, through any batches at
-- all: only a snapshot repairs it.
stale-apply_batches :
    (c : RuntimeUpdateController) (bs : List RuntimeUpdateBatch)
    → c.state.stale ≡ true
    → ((apply_batches bs c).state.stale ≡ true)
      × ((apply_batches bs c).values ≡ c.values)
      × ((apply_batches bs c).state.revision ≡ c.state.revision)
stale-apply_batches c [] h = (h, refl, refl)
stale-apply_batches c (b ∷ bs) h =
    ground (arith, stale-apply_batch c b h, stale-apply_batches (apply_batch c b).1 bs)

abbrev AllSorted : List RuntimeUpdateBatch → Type 0
AllSorted [] = Unit
AllSorted (b ∷ bs) = Sorted b.entries × AllSorted bs

-- Every batch was answered by `Applied`.
abbrev AllApplied : List RuntimeUpdateBatch → RuntimeUpdateController → Type 0
AllApplied [] c = Unit
AllApplied (b ∷ bs) c =
    ((n : ℕ) × ((apply_batch c b).0 ≡ ok (applied n))) × AllApplied bs (apply_batch c b).1

-- The reference: the value of a key after the batches, in order.
abbrev pub replay : List RuntimeUpdateBatch → Text → Option Text → Option Text
replay [] k old = old
replay (b ∷ bs) k old = replay bs k (effect b.operation b.entries b.keys k old)

-- Batches that are all applied leave each key the value that replaying their operations in order
-- leaves it.
pub apply_batches-replay :
    (c : RuntimeUpdateController) (bs : List RuntimeUpdateBatch) (k : Text)
    → IsMirror c
    → AllSorted bs
    → AllApplied bs c
    → lookup k (apply_batches bs c).values.overrides ≡ replay bs k (lookup k c.values.overrides)
apply_batches-replay c [] k m s a = refl
apply_batches-replay c (b ∷ bs) k m s ((n, h), a) =
    apply_batches-replay (apply_batch c b).1 bs k (apply_batch-IsMirror c b s.0 m) s.1 a
    ∙ ap (replay bs k) (lookup-apply_batch c b n k m.sorted h)
