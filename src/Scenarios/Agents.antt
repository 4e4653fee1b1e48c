-- ===== src/Scenarios/Agents.antt =====
-- Reconciliations against the sample services.
use ores_otel_sidecar_rs.Prelude.{
  ◌≡◌, refl, true, false, ok, arith, inr, ◌∷◌, [], Text-discrete, bytes,
}
use ores_otel_sidecar_rs.Record.{running, frozen, validate, validate_record_update}
use ores_otel_sidecar_rs.Lifecycle.{decide}
use ores_otel_sidecar_rs.Services.{loaded}
use ores_otel_sidecar_rs.Agent.{
  suspended, resumed, reconcile_once, reconcile_loaded, reconcile_state, reconcile_stable, perform,
  to_policy_state, validate_authority, validate_strategy,
}
use ores_otel_sidecar_rs.Agent.Protocol.{Ordered, reconcile_once-Ordered}
use ores_otel_sidecar_rs.Agent.Fence.{Fenced, reconcile_once-Fenced}
use ores_otel_sidecar_rs.Agent.Outcome.{
  EndedOk, Failed, reconcile_once-EndedOk, reconcile_once-Disowned,
}
use ores_otel_sidecar_rs.Scenarios.Samples.{
  idle, busy, freeze_policy, in_state, scope, memory, start,
}

-- An idle workload is frozen under the new fence, with three writes.
suspend_run :
    let (r, s) =
      reconcile_once
        (memory idle false)
        scope
        10
        freeze_policy
        (start idle false (in_state running)) in
    (r ≡ ok suspended)
    × (s.world.state ≡ frozen)
    × (s.world.fencing_token ≡ 10)
    × (s.world.revision ≡ 15)
unfolding reconcile_once reconcile_loaded reconcile_state reconcile_stable perform to_policy_state
    validate validate_record_update validate_authority validate_strategy decide Text-discrete bytes
suspend_run = (refl, refl, refl, refl)

resume_run :
    let (r, s) =
      reconcile_once
        (memory busy true)
        scope
        10
        freeze_policy
        (start busy true (in_state frozen)) in
    (r ≡ ok resumed) × (s.world.state ≡ running)
unfolding reconcile_once reconcile_loaded reconcile_state reconcile_stable perform to_policy_state
    validate validate_record_update validate_authority validate_strategy decide Text-discrete bytes
resume_run = (refl, refl)

reconcile_once-Ordered_example :
    Ordered
      (reconcile_once
        (memory idle false)
        scope
        10
        freeze_policy
        (start idle false (in_state running))).1.calls
reconcile_once-Ordered_example =
    reconcile_once-Ordered (memory idle false) scope 10 freeze_policy
      (start idle false (in_state running)) tt

reconcile_once-Fenced_example :
    Fenced scope 10
      (reconcile_once
        (memory busy true)
        scope
        10
        freeze_policy
        (start busy true (in_state frozen))).1.calls
reconcile_once-Fenced_example =
    reconcile_once-Fenced (memory busy true) scope 10 freeze_policy
      (start busy true (in_state frozen)) tt

reconcile_once-EndedOk_example :
    let (r, s) =
      reconcile_once
        (memory idle false)
        scope
        10
        freeze_policy
        (start idle false (in_state running)) in
    EndedOk freeze_policy r s.calls
reconcile_once-EndedOk_example =
    reconcile_once-EndedOk (memory idle false) scope 10 freeze_policy
      (start idle false (in_state running))

reconcile_once-Disowned_example :
    let (r, s) =
      reconcile_once
        (memory idle false)
        scope
        8
        freeze_policy
        (start idle false (in_state running)) in
    Failed r × (s.calls ≡ loaded scope.workload_id (ok (in_state running)) ∷ [])
reconcile_once-Disowned_example =
    reconcile_once-Disowned (memory idle false) scope 8 freeze_policy
      (start idle false (in_state running)) (in_state running) refl (inr (inr (inr (omega arith))))
