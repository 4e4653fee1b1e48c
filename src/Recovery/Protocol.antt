-- ===== src/Recovery/Protocol.antt =====
-- The order of the durable writes and the effects of a freeze recovery, whatever the services
-- answer.
use ores_otel_sidecar_rs.Prelude.{ℕ, ◌≡◌, true, false, none, arith, List, [], ◌∷◌, ok}
use ores_otel_sidecar_rs.Lifecycle.{LifecyclePolicy}
use ores_otel_sidecar_rs.Record.{PersistedLifecycleState, freezing, frozen, thawing, running}
use ores_otel_sidecar_rs.Services.{
  Services, System, Call, replaced, verified, cancelled, froze, thawed, checkpointed, restored,
  quiesced, observed, status_read,
}
use ores_otel_sidecar_rs.Agent.{ControllerScope}
use ores_otel_sidecar_rs.Recovery.{
  recover_state, recover_observed, recover_loaded, recover_freeze_transition,
}

-- The kernel reported a populated cgroup, frozen or not.
abbrev SawFrozen : List Call → Type 0
SawFrozen (status_read (ok st) ∷ calls) = (st.populated ≡ true) × (st.frozen ≡ true)
SawFrozen _ = ⊥

abbrev SawThawed : List Call → Type 0
SawThawed (status_read (ok st) ∷ calls) = (st.populated ≡ true) × (st.frozen ≡ false)
SawThawed _ = ⊥

-- The last intent before the product was reopened: an explicit thaw that succeeded, or the
-- kernel's report that nothing is frozen.
abbrev Unfrozen : List Call → Type 0
Unfrozen (thawed (ok _) ∷ calls) = Unit
Unfrozen calls = SawThawed calls

abbrev Reopened : List Call → Type 0
Reopened (verified (ok _) ∷ cancelled (ok _) ∷ calls) = Unfrozen calls
Reopened _ = ⊥

abbrev pub Earned : PersistedLifecycleState → PersistedLifecycleState → List Call → Type 0
Earned freezing frozen calls = SawFrozen calls
Earned freezing thawing calls = SawThawed calls
Earned thawing running calls = Reopened calls
Earned _ _ calls = ⊥

-- A thaw is called for a kernel that reported a frozen cgroup, or right after the store accepted
-- its intent.
abbrev MayThaw : List Call → Type 0
MayThaw (replaced e n (ok _) ∷ calls) = n.state ≡ thawing
MayThaw calls = SawFrozen calls

abbrev pub Ordered : List Call → Type 0
Ordered [] = Unit
Ordered (replaced e n r ∷ calls) =
    Earned e.state n.state calls × (n.checkpoint ≡ none) × Ordered calls
Ordered (thawed r ∷ calls) = MayThaw calls × Ordered calls
Ordered (froze r ∷ calls) = ⊥
Ordered (checkpointed r ∷ calls) = ⊥
Ordered (restored c r ∷ calls) = ⊥
Ordered (quiesced r ∷ calls) = ⊥
Ordered (observed r ∷ calls) = ⊥
Ordered (call ∷ calls) = Ordered calls

-- Whatever the services answer, a recovery freezes, quiesces, checkpoints and restores nothing; it
-- publishes `Frozen` only for a `Freezing` record whose cgroup the kernel reports as populated and
-- frozen, and `Running` only for a `Thawing` one, after a thaw or a report that nothing is frozen,
-- and after the product was reopened and the host verified it, in that order.
pub recover-Ordered :
    (S : Services) (scope : ControllerScope) (token : ℕ) (policy : LifecyclePolicy) (s : System S)
    → Ordered s.calls
    → Ordered (recover_freeze_transition S scope token policy s).1.calls
unfolding recover_freeze_transition recover_loaded recover_observed recover_state
recover-Ordered S scope token policy s h = ground arith
