-- ===== src/Lifecycle.antt =====
pub mod Graph
pub mod Runs
-- src/process_lifecycle.rs: the pure lifecycle policy.
use ores_otel_sidecar_rs.Prelude.{
  ℕ, Bool, not, ◌&&◌, ◌||◌, ltb, leb, if◌then◌else◌, Result, ok, err,
}

pub data SuspendStrategy : Type 0 where
  freeze : SuspendStrategy
  hibernate : SuspendStrategy

pub data LifecycleState : Type 0 where
  running : LifecycleState
  quiescing : SuspendStrategy → LifecycleState
  freezing : LifecycleState
  frozen : LifecycleState
  checkpointing : LifecycleState
  hibernated : LifecycleState
  resuming : SuspendStrategy → LifecycleState

pub record ActivitySnapshot : Type 0 where
  pub queue_depth : ℕ
  pub in_flight : ℕ
  pub idle_for_ms : ℕ

unfoldable pub has_demand : ActivitySnapshot → Bool
has_demand a = ltb 0 a.queue_depth || ltb 0 a.in_flight

unfoldable is_idle_for : ActivitySnapshot → ℕ → Bool
unfolding has_demand
is_idle_for a minimum_idle_ms = not (has_demand a) && leb minimum_idle_ms a.idle_for_ms

pub record LifecyclePolicy : Type 0 where
  pub strategy : SuspendStrategy
  pub minimum_idle_ms : ℕ

-- `LifecyclePolicy::MINIMUM_IDLE_MS`
abbrev required_idle_ms : ℕ
required_idle_ms = 1000

pub data PolicyError : Type 0 where
  idle_grace_too_short : ℕ → ℕ → PolicyError

-- `LifecyclePolicy::new`
unfoldable new_policy : SuspendStrategy → ℕ → Result PolicyError LifecyclePolicy
new_policy strategy minimum_idle_ms =
    if ltb minimum_idle_ms required_idle_ms
    then err (idle_grace_too_short minimum_idle_ms required_idle_ms)
    else ok (record { strategy = strategy; minimum_idle_ms = minimum_idle_ms })

pub data LifecycleEvent : Type 0 where
  observe : ActivitySnapshot → LifecycleEvent
  quiesce_succeeded : LifecycleEvent
  freeze_succeeded : LifecycleEvent
  checkpoint_succeeded : LifecycleEvent
  resume_succeeded : LifecycleEvent

-- `no_action` is the source's `LifecycleAction::None`.
pub data LifecycleAction : Type 0 where
  no_action : LifecycleAction
  begin_quiesce : LifecycleAction
  cancel_quiesce : LifecycleAction
  freeze : LifecycleAction
  checkpoint_and_terminate : LifecycleAction
  thaw : LifecycleAction
  restore : LifecycleAction

pub record LifecycleDecision : Type 0 where
  pub next_state : LifecycleState
  pub action : LifecycleAction

pub record InvalidTransition : Type 0 where
  pub state : LifecycleState
  pub event : LifecycleEvent

abbrev Decided : Type 0
Decided = Result InvalidTransition LifecycleDecision

unfoldable stay : LifecycleState → LifecycleDecision
stay state = record { next_state = state; action = no_action }

unfoldable pub transition : LifecycleState → LifecycleAction → LifecycleDecision
transition next_state action = record { next_state = next_state; action = action }

unfoldable decide_running : LifecyclePolicy → LifecycleEvent → Decided
unfolding stay transition is_idle_for
decide_running policy (observe activity) =
    if is_idle_for activity policy.minimum_idle_ms
    then ok (transition (quiescing policy.strategy) begin_quiesce)
    else ok (stay running)
decide_running policy event = err (record { state = running; event = event })

-- The action after a drained quiesce, by strategy.
unfoldable suspend_with : SuspendStrategy → LifecycleDecision
unfolding transition
suspend_with SuspendStrategy.freeze = transition freezing LifecycleAction.freeze
suspend_with SuspendStrategy.hibernate = transition checkpointing checkpoint_and_terminate

unfoldable decide_quiescing : SuspendStrategy → LifecycleEvent → Decided
unfolding stay transition has_demand suspend_with
decide_quiescing strategy (observe activity) =
    if has_demand activity
    then ok (transition running cancel_quiesce)
    else ok (stay (quiescing strategy))
decide_quiescing strategy quiesce_succeeded = ok (suspend_with strategy)
decide_quiescing strategy event = err (record { state = quiescing strategy; event = event })

unfoldable decide_freezing : LifecycleEvent → Decided
unfolding stay
decide_freezing freeze_succeeded = ok (stay frozen)
decide_freezing event = err (record { state = freezing; event = event })

unfoldable decide_frozen : LifecycleEvent → Decided
unfolding stay transition has_demand
decide_frozen (observe activity) =
    if has_demand activity
    then ok (transition (resuming SuspendStrategy.freeze) thaw)
    else ok (stay frozen)
decide_frozen event = err (record { state = frozen; event = event })

unfoldable decide_checkpointing : LifecycleEvent → Decided
unfolding stay
decide_checkpointing checkpoint_succeeded = ok (stay hibernated)
decide_checkpointing event = err (record { state = checkpointing; event = event })

unfoldable decide_hibernated : LifecycleEvent → Decided
unfolding stay transition has_demand
decide_hibernated (observe activity) =
    if has_demand activity
    then ok (transition (resuming SuspendStrategy.hibernate) restore)
    else ok (stay hibernated)
decide_hibernated event = err (record { state = hibernated; event = event })

unfoldable decide_resuming : SuspendStrategy → LifecycleEvent → Decided
unfolding stay
decide_resuming strategy resume_succeeded = ok (stay running)
decide_resuming strategy event = err (record { state = resuming strategy; event = event })

unfoldable pub decide : LifecycleState → LifecyclePolicy → LifecycleEvent → Decided
unfolding decide_running decide_quiescing decide_freezing decide_frozen decide_checkpointing
    decide_hibernated decide_resuming
decide running policy event = decide_running policy event
decide (quiescing strategy) policy event = decide_quiescing strategy event
decide freezing policy event = decide_freezing event
decide frozen policy event = decide_frozen event
decide checkpointing policy event = decide_checkpointing event
decide hibernated policy event = decide_hibernated event
decide (resuming strategy) policy event = decide_resuming strategy event
