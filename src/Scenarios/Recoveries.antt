-- ===== src/Scenarios/Recoveries.antt =====
-- Recoveries of an interrupted freeze.
use ores_otel_sidecar_rs.Prelude.{◌≡◌, refl, true, false, ok, Text-discrete, bytes}
use ores_otel_sidecar_rs.Record.{
  PersistedLifecycleState, freezing, thawing, validate, validate_record_update,
}
use ores_otel_sidecar_rs.Agent.Fence.{Fenced}
use ores_otel_sidecar_rs.Recovery.{
  running, validate_recovery_authority, recover_state, recover_observed, recover_loaded,
  recover_freeze_transition,
}
use ores_otel_sidecar_rs.Recovery.Protocol.{Ordered, recover-Ordered}
use ores_otel_sidecar_rs.Recovery.Fence.{recover-Fenced}
use ores_otel_sidecar_rs.Scenarios.Samples.{idle, freeze_policy, in_state, scope, memory, start}

-- A freeze that never reached the kernel is undone.
recover_run :
    let (r, s) =
      recover_freeze_transition
        (memory idle false)
        scope
        10
        freeze_policy
        (start idle false (in_state freezing)) in
    (r ≡ ok running) × (s.world.state ≡ PersistedLifecycleState.running) × (s.world.revision ≡ 14)
unfolding recover_freeze_transition recover_loaded recover_observed recover_state validate
    validate_record_update validate_recovery_authority Text-discrete bytes
recover_run = (refl, refl, refl)

recover-Ordered_example :
    Ordered
      (recover_freeze_transition
        (memory idle false)
        scope
        10
        freeze_policy
        (start idle false (in_state freezing))).1.calls
recover-Ordered_example =
    recover-Ordered (memory idle false) scope 10 freeze_policy
      (start idle false (in_state freezing)) tt

recover-Fenced_example :
    Fenced scope 10
      (recover_freeze_transition
        (memory idle true)
        scope
        10
        freeze_policy
        (start idle true (in_state thawing))).1.calls
recover-Fenced_example =
    recover-Fenced (memory idle true) scope 10 freeze_policy (start idle true (in_state thawing)) tt
