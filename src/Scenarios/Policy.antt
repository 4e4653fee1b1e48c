-- ===== src/Scenarios/Policy.antt =====
-- Decisions of the lifecycle policy.
use ores_otel_sidecar_rs.Prelude.{◌≡◌, refl, ok, ◌↔◌, [], ◌∷◌}
use ores_otel_sidecar_rs.Lifecycle.{
  SuspendStrategy, running, quiescing, freezing, observe, quiesce_succeeded, begin_quiesce,
  LifecycleAction, LifecycleDecision, decide,
}
use ores_otel_sidecar_rs.Lifecycle.Graph.{Edge, decide-iff-Edge}
use ores_otel_sidecar_rs.Lifecycle.Runs.{Run, here, next, Justified, Run-Justified}
use ores_otel_sidecar_rs.Scenarios.Samples.{idle, freeze_policy}

abbrev begun : LifecycleDecision
begun = record { next_state = quiescing SuspendStrategy.freeze; action = begin_quiesce }

abbrev committed : LifecycleDecision
committed = record { next_state = freezing; action = LifecycleAction.freeze }

decide-idle : decide running freeze_policy (observe idle) ≡ ok begun
unfolding decide
decide-idle = refl

decide_drained :
    decide (quiescing SuspendStrategy.freeze) freeze_policy quiesce_succeeded ≡ ok committed
unfolding decide
decide_drained = refl

decide-iff-Edge_example :
    (decide running freeze_policy (observe idle) ≡ ok begun)
    ↔ Edge freeze_policy running (observe idle) begin_quiesce (quiescing SuspendStrategy.freeze)
decide-iff-Edge_example = decide-iff-Edge running freeze_policy (observe idle) begun

suspended-Run : Run freeze_policy (quiesce_succeeded ∷ observe idle ∷ []) freezing
suspended-Run =
    next (next here (observe idle) begun decide-idle) quiesce_succeeded committed decide_drained

Run-Justified_example : Justified freeze_policy (quiesce_succeeded ∷ observe idle ∷ []) freezing
Run-Justified_example = Run-Justified suspended-Run
