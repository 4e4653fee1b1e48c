-- ===== src/Record/Update.antt =====
-- What `validate_record_update` of src/process_lifecycle_record.rs accepts.
use ores_otel_sidecar_rs.Prelude.{◌<◌, ◌≤◌, ◌≡◌, ◌≢◌, ◌↔◌, none, arith, ok}
use ores_otel_sidecar_rs.Record.{running, LifecycleRecord, validate_record_update}
use ores_otel_sidecar_rs.Record.Valid.{IsValid, validate_iff}

pub record IsUpdate (current next : LifecycleRecord) : Type 0 where
  pub current_valid : IsValid current
  pub next_valid : IsValid next
  pub workload : next.workload_id ≡ current.workload_id
  pub fence : current.fencing_token ≤ next.fencing_token
  pub revision : current.revision < next.revision
  pub placement : current.placement_epoch ≤ next.placement_epoch
  pub moved :
      next.assigned_node ≢ current.assigned_node → current.placement_epoch < next.placement_epoch
  pub replaced :
      current.placement_epoch < next.placement_epoch → current.runtime_epoch < next.runtime_epoch
  pub runtime : current.runtime_epoch ≤ next.runtime_epoch
  pub fenced_anew :
      current.runtime_epoch < next.runtime_epoch → current.fencing_token < next.fencing_token
  pub restarted :
      current.runtime_epoch < next.runtime_epoch → (next.state ≡ running) × (next.checkpoint ≡ none)

module _ (current next : LifecycleRecord) where
  validate_record_update-IsUpdate :
      validate_record_update current next ≡ ok tt → IsUpdate current next
  unfolding validate_record_update
  validate_record_update-IsUpdate h = ground (arith, validate_iff current, validate_iff next)

  IsUpdate-validate_record_update :
      IsUpdate current next → validate_record_update current next ≡ ok tt
  unfolding validate_record_update
  IsUpdate-validate_record_update u = ground (arith, validate_iff current, validate_iff next)

-- The replacement test accepts exactly the updates between valid records that keep the workload,
-- advance the revision, never move the fence, the placement or the runtime back, move nodes only
-- with a new placement, replace the placement only with a new runtime, and start a new runtime
-- only under a strictly newer fence, in `Running`, without a checkpoint.
pub validate_record_update_iff :
    (current next : LifecycleRecord)
    → (validate_record_update current next ≡ ok tt) ↔ IsUpdate current next
validate_record_update_iff current next =
    (validate_record_update-IsUpdate current next, IsUpdate-validate_record_update current next)
