-- ===== src/Agent.antt =====
-- src/process_lifecycle_agent.rs: one reconciliation of a stable lifecycle state.
pub mod Admission
pub mod Protocol
pub mod Fence
pub mod Outcome
use ores_otel_sidecar_rs.Prelude.{
  ℕ, Bool, true, false, not, ◌||◌, Option, none, some, ltb, ◌==◌, ◌≟◌, if◌then◌else◌, Result, ok,
  err, map_err, reject_if, Text, text_eq, saturating_add,
}
use ores_otel_sidecar_rs.Lifecycle.{
  SuspendStrategy, LifecycleState, LifecyclePolicy, LifecycleEvent, quiesce_succeeded,
  LifecycleAction, no_action, begin_quiesce, cancel_quiesce, checkpoint_and_terminate, thaw,
  restore, has_demand, decide,
}
use ores_otel_sidecar_rs.Record.{
  PersistedLifecycleState, PersistedSuspendStrategy, LifecycleCheckpoint, LifecycleRecord, validate,
  validate_record_update,
}
use ores_otel_sidecar_rs.Services.{
  Services, Act, ReconcileError, invalid_record, stale_placement, stale_runtime, stale_fence,
  invalid_transition, recovery_required, ProductQuiesceOutcome, drained, demand_returned, pure,
  lift, ◌>>=◌, ◌>>◌, call_load, call_replace, call_observe, call_verify_ready, call_quiesce,
  call_cancel_quiesce, call_freeze, call_thaw, call_checkpoint, call_restore,
}

pub record ControllerScope : Type 0 where
  pub workload_id : Text
  pub node : Text
  pub placement_epoch : ℕ
  pub runtime_epoch : ℕ

pub data ReconcileOutcome : Type 0 where
  no_change suspended resumed demand_cancelled_suspend recovered_quiesce : ReconcileOutcome

unfoldable to_strategy : PersistedSuspendStrategy → SuspendStrategy
to_strategy PersistedSuspendStrategy.freeze = SuspendStrategy.freeze
to_strategy PersistedSuspendStrategy.hibernate = SuspendStrategy.hibernate

policy_state : PersistedLifecycleState → PersistedSuspendStrategy → LifecycleState
unfolding to_strategy
policy_state PersistedLifecycleState.running strategy = LifecycleState.running
policy_state PersistedLifecycleState.quiescing strategy =
    LifecycleState.quiescing (to_strategy strategy)
policy_state PersistedLifecycleState.freezing strategy = LifecycleState.freezing
policy_state PersistedLifecycleState.frozen strategy = LifecycleState.frozen
policy_state PersistedLifecycleState.checkpointing strategy = LifecycleState.checkpointing
policy_state PersistedLifecycleState.hibernated strategy = LifecycleState.hibernated
policy_state PersistedLifecycleState.thawing strategy =
    LifecycleState.resuming SuspendStrategy.freeze
policy_state PersistedLifecycleState.restoring strategy =
    LifecycleState.resuming SuspendStrategy.hibernate

unfoldable pub to_policy_state : LifecycleRecord → LifecycleState
unfolding policy_state
to_policy_state r = policy_state r.state r.strategy

unfoldable pub next_record :
    LifecycleRecord → ℕ → PersistedLifecycleState → Option LifecycleCheckpoint → LifecycleRecord
next_record current fencing_token state checkpoint = record current {
  fencing_token = fencing_token;
  revision = saturating_add current.revision 1;
  state = state;
  checkpoint = checkpoint;
}

abbrev pub same_strategy : SuspendStrategy → SuspendStrategy → Bool
same_strategy SuspendStrategy.freeze SuspendStrategy.freeze = true
same_strategy SuspendStrategy.hibernate SuspendStrategy.hibernate = true
same_strategy _ _ = false

unfoldable pub validate_strategy :
    LifecyclePolicy → LifecycleRecord → Result ReconcileError (Unit {0})
unfolding to_strategy
validate_strategy policy r =
    reject_if (not (same_strategy policy.strategy (to_strategy r.strategy))) invalid_record

unfoldable pub validate_authority :
    ControllerScope → ℕ → LifecycleRecord → Result ReconcileError (Unit {0})
validate_authority scope fencing_token r =
    if not (r.assigned_node ≟ scope.node) || not (r.placement_epoch == scope.placement_epoch)
    then err stale_placement
    else if not (r.runtime_epoch == scope.runtime_epoch)
    then err stale_runtime
    else if ltb fencing_token r.fencing_token
    then err stale_fence
    else ok tt

module _ (S : Services) where
  unfoldable pub persist : LifecycleRecord → LifecycleRecord → Act S (Unit {0})
  unfolding lift
  persist current next = do
    lift (map_err (λ _. invalid_record) (validate_record_update current next))
    call_replace S current next

  unfoldable pub recover_quiesce : ℕ → LifecycleRecord → Act S ReconcileOutcome
  unfolding persist next_record
  recover_quiesce token current = do
    call_cancel_quiesce S
    persist current (next_record current token PersistedLifecycleState.running none)
    pure recovered_quiesce

  unfoldable pub cancel_suspend_for_demand : ℕ → LifecycleRecord → Act S ReconcileOutcome
  unfolding persist next_record
  cancel_suspend_for_demand token quiescing = do
    call_cancel_quiesce S
    persist quiescing (next_record quiescing token PersistedLifecycleState.running none)
    pure demand_cancelled_suspend

  -- The arms of `match after_quiesce.action`.
  unfoldable commit_suspend : ℕ → LifecycleRecord → LifecycleAction → Act S ReconcileOutcome
  unfolding persist next_record lift
  commit_suspend token quiescing LifecycleAction.freeze = do
    let intent = next_record quiescing token PersistedLifecycleState.freezing none
    persist quiescing intent
    call_freeze S
    persist intent (next_record intent token PersistedLifecycleState.frozen none)
    pure suspended
  commit_suspend token quiescing checkpoint_and_terminate = do
    let intent = next_record quiescing token PersistedLifecycleState.checkpointing none
    persist quiescing intent
    checkpoint ← call_checkpoint S
    persist intent (next_record intent token PersistedLifecycleState.hibernated (some checkpoint))
    pure suspended
  commit_suspend token quiescing _ = lift (err invalid_transition)

  -- From `host.observe()` after a drained quiesce.
  unfoldable pub suspend_drained : ℕ → LifecyclePolicy → LifecycleRecord → Act S ReconcileOutcome
  unfolding cancel_suspend_for_demand commit_suspend lift has_demand decide
  suspend_drained token policy quiescing = do
    activity ← call_observe S
    if has_demand activity then cancel_suspend_for_demand token quiescing else do
      after_quiesce ← lift (
          map_err (λ _. invalid_transition)
            (decide (LifecycleState.quiescing policy.strategy) policy quiesce_succeeded))
      commit_suspend token quiescing after_quiesce.action

  unfoldable pub after_quiesce :
      ℕ → LifecyclePolicy → LifecycleRecord → ProductQuiesceOutcome → Act S ReconcileOutcome
  unfolding cancel_suspend_for_demand suspend_drained
  after_quiesce token policy quiescing demand_returned = cancel_suspend_for_demand token quiescing
  after_quiesce token policy quiescing drained = suspend_drained token policy quiescing

  unfoldable pub suspend_from_running :
      ℕ → LifecyclePolicy → LifecycleRecord → Act S ReconcileOutcome
  unfolding persist next_record after_quiesce
  suspend_from_running token policy current = do
    let quiescing = next_record current token PersistedLifecycleState.quiescing none
    persist current quiescing
    outcome ← call_quiesce S
    after_quiesce token policy quiescing outcome

  unfoldable pub resume_frozen : ℕ → LifecycleRecord → Act S ReconcileOutcome
  unfolding persist next_record
  resume_frozen token current = do
    let thawing = next_record current token PersistedLifecycleState.thawing none
    persist current thawing
    call_thaw S
    call_cancel_quiesce S
    call_verify_ready S
    persist thawing (next_record thawing token PersistedLifecycleState.running none)
    pure resumed

  unfoldable pub restore_from :
      ℕ → LifecycleRecord → Option LifecycleCheckpoint → Act S ReconcileOutcome
  unfolding persist next_record lift
  restore_from token current none = lift (err invalid_record)
  restore_from token current (some checkpoint) = do
    let restoring = next_record current token PersistedLifecycleState.restoring (some checkpoint)
    persist current restoring
    call_restore S checkpoint
    call_cancel_quiesce S
    call_verify_ready S
    persist restoring (next_record restoring token PersistedLifecycleState.running none)
    pure resumed

  unfoldable restore_hibernated : ℕ → LifecycleRecord → Act S ReconcileOutcome
  unfolding restore_from
  restore_hibernated token current = restore_from token current current.checkpoint

  -- The arms of `match decision.action`.
  unfoldable pub perform :
      LifecycleAction → ℕ → LifecyclePolicy → LifecycleRecord → Act S ReconcileOutcome
  unfolding suspend_from_running resume_frozen restore_hibernated lift
  perform no_action token policy current = pure no_change
  perform begin_quiesce token policy current = suspend_from_running token policy current
  perform thaw token policy current = resume_frozen token current
  perform restore token policy current = restore_hibernated token current
  perform cancel_quiesce token policy current = lift (err invalid_transition)
  perform LifecycleAction.freeze token policy current = lift (err invalid_transition)
  perform checkpoint_and_terminate token policy current = lift (err invalid_transition)

  unfoldable pub reconcile_stable : ℕ → LifecyclePolicy → LifecycleRecord → Act S ReconcileOutcome
  unfolding lift
  reconcile_stable token policy current = do
    activity ← call_observe S
    decision ← lift (
        map_err (λ _. invalid_transition)
          (decide (to_policy_state current) policy (LifecycleEvent.observe activity)))
    perform decision.action token policy current

  -- `match current.state`
  unfoldable pub reconcile_state :
      PersistedLifecycleState → ℕ → LifecyclePolicy → LifecycleRecord → Act S ReconcileOutcome
  unfolding recover_quiesce reconcile_stable lift
  reconcile_state PersistedLifecycleState.quiescing token policy current =
      recover_quiesce token current
  reconcile_state PersistedLifecycleState.running token policy current =
      reconcile_stable token policy current
  reconcile_state PersistedLifecycleState.frozen token policy current =
      reconcile_stable token policy current
  reconcile_state PersistedLifecycleState.hibernated token policy current =
      reconcile_stable token policy current
  reconcile_state state token policy current = lift (err (recovery_required state))

  -- From the loaded record on.
  unfoldable pub reconcile_loaded :
      ControllerScope → ℕ → LifecyclePolicy → LifecycleRecord → Act S ReconcileOutcome
  unfolding lift
  reconcile_loaded scope token policy current = do
    lift (map_err (λ _. invalid_record) (validate current))
    lift (validate_authority scope token current)
    lift (validate_strategy policy current)
    reconcile_state current.state token policy current

  unfoldable pub reconcile_once : ControllerScope → ℕ → LifecyclePolicy → Act S ReconcileOutcome
  reconcile_once scope token policy = do
    current ← call_load S scope.workload_id
    reconcile_loaded scope token policy current
