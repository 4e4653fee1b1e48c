-- ===== src/Record/Valid.antt =====
-- What `LifecycleRecord::validate` of src/process_lifecycle_record.rs accepts.
use ores_otel_sidecar_rs.Prelude.{◌<◌, ◌≡◌, ◌≢◌, ◌↔◌, Option, none, some, arith, ok, refl}
use ores_otel_sidecar_rs.Record.{
  PersistedLifecycleState, running, quiescing, freezing, frozen, checkpointing, hibernated, thawing,
  restoring, PersistedSuspendStrategy, freeze, hibernate, LifecycleCheckpoint, LifecycleRecord,
  validate_checkpoint, validate_state, validate,
}
use ores_otel_sidecar_rs.Record.Segment.{IsSegment, valid_identity_segment_iff}
use ores_otel_sidecar_rs.Record.Checkpoint.{IsCheckpoint, validate_checkpoint_iff}

abbrev IsOptCheckpoint : Option LifecycleCheckpoint → Type 0
IsOptCheckpoint none = Unit
IsOptCheckpoint (some c) = IsCheckpoint c

-- Only a hibernated or restoring workload holds a checkpoint; a state of one strategy's path has
-- that strategy.
abbrev Fits :
    PersistedLifecycleState → PersistedSuspendStrategy → Option LifecycleCheckpoint → Type 0
Fits running strategy o = o ≡ none
Fits quiescing strategy o = o ≡ none
Fits freezing strategy o = (strategy ≡ freeze) × (o ≡ none)
Fits frozen strategy o = (strategy ≡ freeze) × (o ≡ none)
Fits thawing strategy o = (strategy ≡ freeze) × (o ≡ none)
Fits checkpointing strategy o = (strategy ≡ hibernate) × (o ≡ none)
Fits hibernated strategy o = (strategy ≡ hibernate) × (o ≢ none)
Fits restoring strategy o = (strategy ≡ hibernate) × (o ≢ none)

pub record IsValid (r : LifecycleRecord) : Type 0 where
  pub workload : IsSegment r.workload_id
  pub node : IsSegment r.assigned_node
  pub placed : 0 < r.placement_epoch
  pub incarnated : 0 < r.runtime_epoch
  pub fenced : 0 < r.fencing_token
  pub revised : 0 < r.revision
  pub metadata : IsOptCheckpoint r.checkpoint
  pub fits : Fits r.state r.strategy r.checkpoint

pub validate_state_iff :
    (st : PersistedLifecycleState) (strategy : PersistedSuspendStrategy)
    (o : Option LifecycleCheckpoint)
    → (validate_state st strategy o ≡ ok tt) ↔ Fits st strategy o
unfolding validate_state
validate_state_iff st strategy o = (λ h. ground arith, λ h. ground arith)

validate_metadata_iff :
    (o : Option LifecycleCheckpoint) → (validate_checkpoint o ≡ ok tt) ↔ IsOptCheckpoint o
unfolding validate_checkpoint
validate_metadata_iff none = (λ h. tt, λ h. refl)
validate_metadata_iff (some c) = validate_checkpoint_iff c

module _ (r : LifecycleRecord) where
  validate-IsValid : validate r ≡ ok tt → IsValid r
  unfolding validate
  validate-IsValid h = ground (
    arith,
    valid_identity_segment_iff r.workload_id,
    valid_identity_segment_iff r.assigned_node,
    validate_metadata_iff r.checkpoint,
    validate_state_iff r.state r.strategy r.checkpoint,
  )

  IsValid-validate : IsValid r → validate r ≡ ok tt
  unfolding validate
  IsValid-validate v = ground (
    arith,
    valid_identity_segment_iff r.workload_id,
    valid_identity_segment_iff r.assigned_node,
    validate_metadata_iff r.checkpoint,
    validate_state_iff r.state r.strategy r.checkpoint,
  )

-- `validate` accepts exactly the valid records.
pub validate_iff : (r : LifecycleRecord) → (validate r ≡ ok tt) ↔ IsValid r
validate_iff r = (validate-IsValid r, IsValid-validate r)
