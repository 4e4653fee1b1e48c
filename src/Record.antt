-- ===== src/Record.antt =====
-- src/process_lifecycle_record.rs: the durable lifecycle record, its validation, and the
-- validation of a compare-and-set replacement. A `u64` field is a number.
pub mod Segment
pub mod Checkpoint
pub mod Valid
pub mod Update
pub mod History
use ores_otel_sidecar_rs.Prelude.{
  ℕ, Bool, true, false, not, ◌&&◌, ◌||◌, Option, none, some, ltb, leb, ◌==◌, if◌then◌else◌, ◌≟◌,
  Result, ok, ◌>>◌, reject_if, Text, codes, text_eq, bytes, byte_len, all, any, is_empty,
  is_ascii_alphanumeric, is_ascii_hexdigit, is_ascii_uppercase, is_control, strip_prefix,
}

abbrev max_checkpoint_artifact_ref_bytes : ℕ
max_checkpoint_artifact_ref_bytes = 2048

abbrev max_checkpoint_format_bytes : ℕ
max_checkpoint_format_bytes = 128

abbrev pub max_identity_bytes : ℕ
max_identity_bytes = 96

pub data PersistedLifecycleState : Type 0 where
  running quiescing freezing frozen checkpointing hibernated thawing restoring :
      PersistedLifecycleState

pub data PersistedSuspendStrategy : Type 0 where
  freeze hibernate : PersistedSuspendStrategy

pub record LifecycleCheckpoint : Type 0 where
  pub artifact_ref : Text
  pub digest : Text
  pub format : Text

pub record LifecycleRecord : Type 0 where
  pub workload_id : Text
  pub assigned_node : Text
  pub placement_epoch : ℕ
  pub runtime_epoch : ℕ
  pub fencing_token : ℕ
  pub revision : ℕ
  pub state : PersistedLifecycleState
  pub strategy : PersistedSuspendStrategy
  pub checkpoint : Option LifecycleCheckpoint

pub data LifecycleRecordError : Type 0 where
  empty_workload_id empty_assigned_node invalid_workload_id invalid_assigned_node invalid_checkpoint
        invalid_checkpoint_digest state_strategy_mismatch zero_placement_epoch zero_runtime_epoch
        zero_fencing_token zero_revision workload_changed stale_fencing_token
        revision_did_not_advance placement_epoch_regressed placement_changed_without_epoch_advance
        placement_changed_without_runtime_advance runtime_epoch_regressed
        runtime_changed_without_fence_advance runtime_changed_outside_running checkpoint_required
        checkpoint_not_allowed :
      LifecycleRecordError

abbrev pub Checked : Type 0
Checked = Result LifecycleRecordError (Unit {0})

-- The bytes of an identity segment.
unfoldable pub is_segment_byte : ℕ → Bool
unfolding is_ascii_alphanumeric
is_segment_byte b = is_ascii_alphanumeric b || b == b'-' || b == b'_' || b == b'.' || b == b':'

unfoldable pub valid_identity_segment : Text → Bool
unfolding is_segment_byte
valid_identity_segment value =
    not (is_empty value)
    && leb (byte_len value) max_identity_bytes
    && all is_segment_byte (bytes value)

unfoldable pub is_digest_byte : ℕ → Bool
unfolding is_ascii_hexdigit is_ascii_uppercase
is_digest_byte b = is_ascii_hexdigit b && not (is_ascii_uppercase b)

unfoldable pub valid_raw_digest : Option Text → Bool
valid_raw_digest none = false
valid_raw_digest (some raw) = byte_len raw == 64 && all is_digest_byte (bytes raw)

unfoldable pub valid_checkpoint_digest : Text → Bool
unfolding valid_raw_digest strip_prefix
valid_checkpoint_digest value = valid_raw_digest (strip_prefix (codes "sha256:") value)

-- The tests of `validate` on the texts of a checkpoint.
unfoldable pub checkpoint_texts_invalid : LifecycleCheckpoint → Bool
checkpoint_texts_invalid c =
    is_empty c.artifact_ref
    || ltb max_checkpoint_artifact_ref_bytes (byte_len c.artifact_ref)
    || any is_control c.artifact_ref
    || is_empty c.format
    || ltb max_checkpoint_format_bytes (byte_len c.format)
    || any is_control c.format

unfoldable pub validate_checkpoint : Option LifecycleCheckpoint → Checked
unfolding checkpoint_texts_invalid valid_checkpoint_digest
validate_checkpoint none = ok tt
validate_checkpoint (some c) = do
  reject_if (checkpoint_texts_invalid c) invalid_checkpoint
  reject_if (not (valid_checkpoint_digest c.digest)) invalid_checkpoint_digest
  ok tt

abbrev pub is_hibernate : PersistedSuspendStrategy → Bool
is_hibernate hibernate = true
is_hibernate freeze = false

abbrev pub is_some : Option LifecycleCheckpoint → Bool
is_some none = false
is_some (some c) = true

-- A state that holds a checkpoint, one of the hibernate path that does not, one of the freeze
-- path, and one of either.
abbrev with_checkpoint : PersistedSuspendStrategy → Option LifecycleCheckpoint → Checked
with_checkpoint strategy checkpoint = do
  reject_if (not (is_hibernate strategy)) state_strategy_mismatch
  reject_if (not (is_some checkpoint)) checkpoint_required
  ok tt

abbrev hibernate_only : PersistedSuspendStrategy → Option LifecycleCheckpoint → Checked
hibernate_only strategy checkpoint = do
  reject_if (not (is_hibernate strategy)) state_strategy_mismatch
  reject_if (is_some checkpoint) checkpoint_not_allowed
  ok tt

abbrev freeze_only : PersistedSuspendStrategy → Option LifecycleCheckpoint → Checked
freeze_only strategy checkpoint = do
  reject_if (is_hibernate strategy) state_strategy_mismatch
  reject_if (is_some checkpoint) checkpoint_not_allowed
  ok tt

unfoldable pub validate_state :
    PersistedLifecycleState → PersistedSuspendStrategy → Option LifecycleCheckpoint → Checked
validate_state hibernated strategy checkpoint = with_checkpoint strategy checkpoint
validate_state restoring strategy checkpoint = with_checkpoint strategy checkpoint
validate_state checkpointing strategy checkpoint = hibernate_only strategy checkpoint
validate_state freezing strategy checkpoint = freeze_only strategy checkpoint
validate_state frozen strategy checkpoint = freeze_only strategy checkpoint
validate_state thawing strategy checkpoint = freeze_only strategy checkpoint
validate_state running strategy checkpoint = reject_if (is_some checkpoint) checkpoint_not_allowed
validate_state quiescing strategy checkpoint = reject_if (is_some checkpoint) checkpoint_not_allowed

unfoldable pub validate : LifecycleRecord → Checked
unfolding valid_identity_segment validate_checkpoint validate_state
validate r = do
  reject_if (is_empty r.workload_id) empty_workload_id
  reject_if (not (valid_identity_segment r.workload_id)) invalid_workload_id
  reject_if (is_empty r.assigned_node) empty_assigned_node
  reject_if (not (valid_identity_segment r.assigned_node)) invalid_assigned_node
  reject_if (r.placement_epoch == 0) zero_placement_epoch
  reject_if (r.runtime_epoch == 0) zero_runtime_epoch
  reject_if (r.fencing_token == 0) zero_fencing_token
  reject_if (r.revision == 0) zero_revision
  validate_checkpoint r.checkpoint
  validate_state r.state r.strategy r.checkpoint

unfoldable pub authorizes_controller : LifecycleRecord → Text → ℕ → ℕ → ℕ → Bool
authorizes_controller r node placement_epoch runtime_epoch fencing_token =
    r.assigned_node ≟ node
    && r.placement_epoch == placement_epoch
    && r.runtime_epoch == runtime_epoch
    && r.fencing_token == fencing_token

abbrev is_running : PersistedLifecycleState → Bool
is_running running = true
is_running _ = false

-- `placement_changed` of `validate_record_update`
unfoldable placement_changed : LifecycleRecord → LifecycleRecord → Bool
placement_changed current next =
    not (next.assigned_node ≟ current.assigned_node)
    || ltb current.placement_epoch next.placement_epoch

-- The tests of `validate_record_update` on a replaced runtime.
unfoldable validate_runtime_change : LifecycleRecord → LifecycleRecord → Checked
validate_runtime_change current next =
    if ltb current.runtime_epoch next.runtime_epoch
    then (do
      reject_if (leb next.fencing_token current.fencing_token) runtime_changed_without_fence_advance
      reject_if (not (is_running next.state) || is_some next.checkpoint)
          runtime_changed_outside_running
      ok tt)
    else ok tt

unfoldable pub validate_record_update : LifecycleRecord → LifecycleRecord → Checked
unfolding placement_changed validate_runtime_change
validate_record_update current next = do
  validate current
  validate next
  reject_if (not (next.workload_id ≟ current.workload_id)) workload_changed
  reject_if (ltb next.fencing_token current.fencing_token) stale_fencing_token
  reject_if (leb next.revision current.revision) revision_did_not_advance
  reject_if (ltb next.placement_epoch current.placement_epoch) placement_epoch_regressed
  reject_if
      (not (next.assigned_node ≟ current.assigned_node)
        && leb next.placement_epoch current.placement_epoch)
      placement_changed_without_epoch_advance
  reject_if (placement_changed current next && leb next.runtime_epoch current.runtime_epoch)
      placement_changed_without_runtime_advance
  reject_if (ltb next.runtime_epoch current.runtime_epoch) runtime_epoch_regressed
  validate_runtime_change current next
