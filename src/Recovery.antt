-- ===== src/Recovery.antt =====
-- src/adapters/state_machine/process_lifecycle_recovery.rs: recovery of a freeze or a thaw that a
-- crash interrupted. `recover_freeze_transition` is also what the public function calls with the
-- grant's fencing token.
pub mod Protocol
pub mod Fence
use ores_otel_sidecar_rs.Prelude.{
  ℕ, Bool, true, false, not, ◌||◌, none, ltb, ◌==◌, ◌≟◌, if◌then◌else◌, Result, ok, err, map_err,
  Text, codes, text_eq, saturating_add,
}
use ores_otel_sidecar_rs.Lifecycle.{SuspendStrategy, LifecyclePolicy}
use ores_otel_sidecar_rs.Record.{
  PersistedLifecycleState, freezing, thawing, is_hibernate, LifecycleRecord, validate,
  validate_record_update,
}
use ores_otel_sidecar_rs.Services.{
  Services, Act, ReconcileError, effect, invalid_record, stale_placement, stale_fence,
  recovery_required, FreezeTransitionStatus, pure, lift, ◌>>=◌, ◌>>◌, call_load, call_replace,
  call_verify_ready, call_cancel_quiesce, call_thaw, call_freeze_status,
}
use ores_otel_sidecar_rs.Agent.{ControllerScope, same_strategy}

pub data FreezeRecoveryOutcome : Type 0 where
  frozen running : FreezeRecoveryOutcome

abbrev unpopulated_target : Text
unpopulated_target = codes "managed cgroup is not populated during freeze transition recovery"

unfoldable pub next_record : LifecycleRecord → ℕ → PersistedLifecycleState → LifecycleRecord
next_record current fencing_token state = record current {
  fencing_token = fencing_token;
  revision = saturating_add current.revision 1;
  state = state;
  checkpoint = none;
}

unfoldable pub validate_recovery_authority :
    ControllerScope → ℕ → LifecyclePolicy → LifecycleRecord → Result ReconcileError (Unit {0})
validate_recovery_authority scope fencing_token policy r =
    if not (r.workload_id ≟ scope.workload_id)
      || not (r.assigned_node ≟ scope.node)
      || not (r.placement_epoch == scope.placement_epoch)
      || not (r.runtime_epoch == scope.runtime_epoch)
    then err stale_placement
    else if ltb fencing_token r.fencing_token
    then err stale_fence
    else if not (same_strategy policy.strategy SuspendStrategy.freeze) || is_hibernate r.strategy
    then err invalid_record
    else ok tt

module _ (S : Services) where
  unfoldable pub persist : LifecycleRecord → LifecycleRecord → Act S (Unit {0})
  unfolding lift
  persist current next = do
    lift (map_err (λ _. invalid_record) (validate_record_update current next))
    call_replace S current next

  unfoldable finish_running : LifecycleRecord → ℕ → Act S FreezeRecoveryOutcome
  unfolding persist next_record
  finish_running current token = do
    call_cancel_quiesce S
    call_verify_ready S
    persist current (next_record current token PersistedLifecycleState.running)
    pure running

  unfoldable pub recover_freezing :
      ℕ → LifecycleRecord → FreezeTransitionStatus → Act S FreezeRecoveryOutcome
  unfolding persist next_record finish_running
  recover_freezing token current status =
      if status.frozen
      then (do
        persist current (next_record current token PersistedLifecycleState.frozen)
        pure frozen)
      else (do
        let thawing_ = next_record current token thawing
        persist current thawing_
        call_thaw S
        finish_running thawing_ token)

  unfoldable pub recover_thawing :
      ℕ → LifecycleRecord → FreezeTransitionStatus → Act S FreezeRecoveryOutcome
  unfolding finish_running
  recover_thawing token current status =
      if status.frozen
      then (do call_thaw S; finish_running current token)
      else finish_running current token

  -- `match current.state`
  unfoldable pub recover_state :
      PersistedLifecycleState
      → ℕ
      → LifecycleRecord
      → FreezeTransitionStatus
      → Act S FreezeRecoveryOutcome
  unfolding recover_freezing recover_thawing lift
  recover_state freezing token current status = recover_freezing token current status
  recover_state thawing token current status = recover_thawing token current status
  recover_state state token current status = lift (err (recovery_required state))

  -- From `freeze_status` on.
  unfoldable pub recover_observed :
      ℕ → LifecycleRecord → FreezeTransitionStatus → Act S FreezeRecoveryOutcome
  unfolding lift
  recover_observed token current status =
      if not status.populated
      then lift (err (effect unpopulated_target))
      else recover_state current.state token current status

  unfoldable pub recover_loaded :
      ControllerScope → ℕ → LifecyclePolicy → LifecycleRecord → Act S FreezeRecoveryOutcome
  unfolding lift
  recover_loaded scope token policy current = do
    lift (map_err (λ _. invalid_record) (validate current))
    lift (validate_recovery_authority scope token policy current)
    status ← call_freeze_status S
    recover_observed token current status

  unfoldable pub recover_freeze_transition :
      ControllerScope → ℕ → LifecyclePolicy → Act S FreezeRecoveryOutcome
  recover_freeze_transition scope token policy = do
    current ← call_load S scope.workload_id
    recover_loaded scope token policy current
