-- ===== src/Agent/Protocol.antt =====
-- The order of the durable writes and the effects of `reconcile_once`, whatever the store, the
-- host, the product and the effects answer.
use ores_otel_sidecar_rs.Prelude.{
  ℕ, ◌<◌, ◌≡◌, refl, ◌⊎◌, Option, none, some, arith, List, [], ◌∷◌, ok,
}
use ores_otel_sidecar_rs.Lifecycle.{ActivitySnapshot, LifecyclePolicy, decide}
use ores_otel_sidecar_rs.Lifecycle.Graph.{IsIdle}
use ores_otel_sidecar_rs.Record.{
  PersistedLifecycleState, running, quiescing, freezing, frozen, checkpointing, hibernated, thawing,
  restoring, LifecycleCheckpoint, LifecycleRecord,
}
use ores_otel_sidecar_rs.Services.{
  Services, System, Call, replaced, observed, verified, quiesced, cancelled, froze, thawed,
  checkpointed, restored, drained,
}
use ores_otel_sidecar_rs.Agent.{
  ControllerScope, recover_quiesce, perform, reconcile_stable, perform, to_policy_state,
  reconcile_state, reconcile_once,
}
use ores_otel_sidecar_rs.Agent.Admission.{reconcile_once_keeps}

abbrev IsBusy : ActivitySnapshot → Type 0
IsBusy a = (0 < a.queue_depth) ⊎ (0 < a.in_flight)

-- The latest call was an observation of an idle, or of a busy, workload.
abbrev SawIdle : List Call → Type 0
SawIdle (observed (ok a) ∷ calls) = IsIdle a
SawIdle _ = ⊥

abbrev SawDemand : List Call → Type 0
SawDemand (observed (ok a) ∷ calls) = IsBusy a
SawDemand _ = ⊥

abbrev JustDrained : List Call → Type 0
JustDrained (quiesced (ok drained) ∷ calls) = Unit
JustDrained _ = ⊥

-- The product reported a drained quiesce, and then the host saw an idle workload.
abbrev DrainedIdle : List Call → Type 0
DrainedIdle (observed (ok a) ∷ quiesced (ok drained) ∷ calls) = IsIdle a
DrainedIdle _ = ⊥

abbrev Cancelled : List Call → Type 0
Cancelled (cancelled (ok _) ∷ calls) = Unit
Cancelled _ = ⊥

abbrev Froze : List Call → Type 0
Froze (froze (ok _) ∷ calls) = Unit
Froze _ = ⊥

abbrev Checkpointed : Option LifecycleCheckpoint → List Call → Type 0
Checkpointed o (checkpointed (ok c) ∷ calls) = o ≡ some c
Checkpointed o _ = ⊥

-- The effect was undone, the product was reopened, and the host verified it, in that order.
abbrev ThawedAndReady : List Call → Type 0
ThawedAndReady (verified (ok _) ∷ cancelled (ok _) ∷ thawed (ok _) ∷ calls) = Unit
ThawedAndReady _ = ⊥

abbrev RestoredAndReady : List Call → Type 0
RestoredAndReady (verified (ok _) ∷ cancelled (ok _) ∷ restored c (ok _) ∷ calls) = Unit
RestoredAndReady _ = ⊥

-- What the calls before a replacement must be, by the states that it replaces and publishes.
abbrev pub Earned :
    PersistedLifecycleState
    → PersistedLifecycleState
    → Option LifecycleCheckpoint
    → List Call
    → Type 0
Earned running quiescing o calls = SawIdle calls
Earned quiescing running o calls = Cancelled calls
Earned quiescing freezing o calls = DrainedIdle calls
Earned quiescing checkpointing o calls = DrainedIdle calls
Earned freezing frozen o calls = Froze calls
Earned checkpointing hibernated o calls = Checkpointed o calls
Earned frozen thawing o calls = SawDemand calls
Earned thawing running o calls = ThawedAndReady calls
Earned hibernated restoring o calls = SawDemand calls
Earned restoring running o calls = RestoredAndReady calls
Earned _ _ o calls = ⊥

-- The latest call was an accepted replacement that published the state and the checkpoint.
abbrev Intended : PersistedLifecycleState → Option LifecycleCheckpoint → List Call → Type 0
Intended st o (replaced e n (ok _) ∷ calls) = (n.state ≡ st) × (n.checkpoint ≡ o)
Intended st o _ = ⊥

-- Every replacement was earned, and every process effect directly follows its durable intent.
abbrev pub Ordered : List Call → Type 0
Ordered [] = Unit
Ordered (replaced e n r ∷ calls) = Earned e.state n.state n.checkpoint calls × Ordered calls
Ordered (froze r ∷ calls) = Intended freezing none calls × Ordered calls
Ordered (thawed r ∷ calls) = Intended thawing none calls × Ordered calls
Ordered (checkpointed r ∷ calls) = Intended checkpointing none calls × Ordered calls
Ordered (restored c r ∷ calls) = Intended restoring (some c) calls × Ordered calls
Ordered (call ∷ calls) = Ordered calls

reconcile_stable-Ordered :
    (S : Services) (token : ℕ) (policy : LifecyclePolicy) (c : LifecycleRecord) (s : System S)
    → Ordered s.calls
    → Ordered (reconcile_stable S token policy c s).1.calls
unfolding reconcile_stable perform to_policy_state decide
reconcile_stable-Ordered S token policy c s h = ground arith

recover_quiesce-Ordered :
    (S : Services) (token : ℕ) (c : LifecycleRecord) (s : System S)
    → c.state ≡ quiescing
    → Ordered s.calls
    → Ordered (recover_quiesce S token c s).1.calls
unfolding recover_quiesce
recover_quiesce-Ordered S token c s st h = ground arith

reconcile_state-Ordered :
    (S : Services) (st : PersistedLifecycleState) (token : ℕ) (policy : LifecyclePolicy)
    (c : LifecycleRecord) (s : System S)
    → c.state ≡ st
    → Ordered s.calls
    → Ordered (reconcile_state S st token policy c s).1.calls
unfolding reconcile_state
reconcile_state-Ordered S quiescing token policy c s e h = recover_quiesce-Ordered S token c s e h
reconcile_state-Ordered S running token policy c s e h =
    reconcile_stable-Ordered S token policy c s h
reconcile_state-Ordered S frozen token policy c s e h =
    reconcile_stable-Ordered S token policy c s h
reconcile_state-Ordered S hibernated token policy c s e h =
    reconcile_stable-Ordered S token policy c s h
reconcile_state-Ordered S _ token policy c s e h = h

-- Whatever the services answer, a reconciliation writes and acts in the protocol's order: every
-- replacement that it asks the store for is one of the ten transitions, made after the calls that
-- earn it, and every process effect directly follows the store's acceptance of its intent.
pub reconcile_once-Ordered :
    (S : Services) (scope : ControllerScope) (token : ℕ) (policy : LifecyclePolicy) (s : System S)
    → Ordered s.calls
    → Ordered (reconcile_once S scope token policy s).1.calls
reconcile_once-Ordered S scope token policy =
    reconcile_once_keeps S Ordered scope token policy (λ _ _ o. o)
      λ c s _ _ h. reconcile_state-Ordered S c.state token policy c s refl h
