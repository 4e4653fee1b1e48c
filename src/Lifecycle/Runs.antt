-- ===== src/Lifecycle/Runs.antt =====
-- Every sequence of events that `decide` of src/process_lifecycle.rs accepts from `Running`.
use ores_otel_sidecar_rs.Prelude.{◌≤◌, ◌≡◌, ◌⊎◌, arith, List, [], ◌∷◌, ok}
use ores_otel_sidecar_rs.Lifecycle.{
  SuspendStrategy, LifecycleState, running, quiescing, freezing, frozen, checkpointing, hibernated,
  resuming, LifecyclePolicy, LifecycleEvent, observe, LifecycleDecision, decide,
}
use ores_otel_sidecar_rs.Lifecycle.Graph.{IsIdle}

-- The events so far, the latest first, and the state that they lead to.
pub data Run (p : LifecyclePolicy) : List LifecycleEvent → LifecycleState → Type 0 where
  here : Run p [] running
  next :
      {es : List LifecycleEvent} {s : LifecycleState}
      → Run p es s
      → (e : LifecycleEvent) (d : LifecycleDecision) → decide s p e ≡ ok d
      → Run p (e ∷ es) d.next_state

-- Back to an observation that the workload had been idle for the policy's grace period, no
-- observation showed demand.
abbrev QuietSince : LifecyclePolicy → List LifecycleEvent → Type 0
QuietSince p [] = ⊥
QuietSince p (observe a ∷ es) = IsIdle a × ((p.minimum_idle_ms ≤ a.idle_for_ms) ⊎ QuietSince p es)
QuietSince p (e ∷ es) = QuietSince p es

-- What each state says of the events before it, and of the policy's strategy.
abbrev pub Justified : LifecyclePolicy → List LifecycleEvent → LifecycleState → Type 0
Justified p es running = Unit
Justified p es (quiescing t) = (t ≡ p.strategy) × QuietSince p es
Justified p es freezing = (SuspendStrategy.freeze ≡ p.strategy) × QuietSince p es
Justified p es frozen = (SuspendStrategy.freeze ≡ p.strategy) × QuietSince p es
Justified p es checkpointing = (SuspendStrategy.hibernate ≡ p.strategy) × QuietSince p es
Justified p es hibernated = (SuspendStrategy.hibernate ≡ p.strategy) × QuietSince p es
Justified p es (resuming t) = t ≡ p.strategy

decide-Justified :
    (p : LifecyclePolicy) (es : List LifecycleEvent) (s : LifecycleState) (e : LifecycleEvent)
    (d : LifecycleDecision)
    → decide s p e ≡ ok d
    → Justified p es s
    → Justified p (e ∷ es) d.next_state
unfolding decide
decide-Justified p es s e d h j = ground arith

-- Whatever events are accepted, a workload is suspended (from its quiesce to its being frozen or
-- hibernated) only by the policy's strategy, and only while no observation has shown demand since
-- one that showed it idle for at least the grace period; a resume undoes the policy's strategy.
pub Run-Justified :
    {p : LifecyclePolicy} {es : List LifecycleEvent} {s : LifecycleState}
    → Run p es s
    → Justified p es s
Run-Justified here = tt
Run-Justified {p} (next {es = es} {s = s} r e d h) = decide-Justified p es s e d h (Run-Justified r)
