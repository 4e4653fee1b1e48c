-- ===== src/Lifecycle/Graph.antt =====
-- What `decide` of src/process_lifecycle.rs allows: its diagram, and every run over it.
use ores_otel_sidecar_rs.Prelude.{◌≤◌, ◌<◌, ◌≡◌, ◌↔◌, arith, ok}
use ores_otel_sidecar_rs.Lifecycle.{
  SuspendStrategy, LifecycleState, running, quiescing, freezing, frozen, checkpointing, hibernated,
  resuming, ActivitySnapshot, LifecyclePolicy, LifecycleEvent, observe, quiesce_succeeded,
  freeze_succeeded, checkpoint_succeeded, resume_succeeded, LifecycleAction, no_action,
  begin_quiesce, cancel_quiesce, checkpoint_and_terminate, thaw, restore, LifecycleDecision, decide,
}

-- Nothing is queued and nothing is in flight.
abbrev pub IsIdle : ActivitySnapshot → Type 0
IsIdle a = (a.queue_depth ≡ 0) × (a.in_flight ≡ 0)

-- The diagram of the policy: from a state, by an action, to a state.
pub data Edge (p : LifecyclePolicy)
    : LifecycleState → LifecycleEvent → LifecycleAction → LifecycleState → Type 0 where
  keep_running :
      (a : ActivitySnapshot)
      → (IsIdle a → a.idle_for_ms < p.minimum_idle_ms)
      → Edge p running (observe a) no_action running
  start :
      (a : ActivitySnapshot)
      → IsIdle a
      → p.minimum_idle_ms ≤ a.idle_for_ms
      → Edge p running (observe a) begin_quiesce (quiescing p.strategy)
  keep_quiescing :
      (s : SuspendStrategy) (a : ActivitySnapshot)
      → IsIdle a
      → Edge p (quiescing s) (observe a) no_action (quiescing s)
  cancel :
      (s : SuspendStrategy) (a : ActivitySnapshot)
      → ¬ IsIdle a
      → Edge p (quiescing s) (observe a) cancel_quiesce running
  start_freeze :
      Edge p (quiescing SuspendStrategy.freeze) quiesce_succeeded LifecycleAction.freeze freezing
  start_checkpoint :
      Edge p
        (quiescing SuspendStrategy.hibernate)
        quiesce_succeeded
        checkpoint_and_terminate
        checkpointing
  end_freeze : Edge p freezing freeze_succeeded no_action frozen
  end_checkpoint : Edge p checkpointing checkpoint_succeeded no_action hibernated
  keep_frozen : (a : ActivitySnapshot) → IsIdle a → Edge p frozen (observe a) no_action frozen
  start_thaw :
      (a : ActivitySnapshot)
      → ¬ IsIdle a
      → Edge p frozen (observe a) thaw (resuming SuspendStrategy.freeze)
  keep_hibernated :
      (a : ActivitySnapshot) → IsIdle a → Edge p hibernated (observe a) no_action hibernated
  start_restore :
      (a : ActivitySnapshot)
      → ¬ IsIdle a
      → Edge p hibernated (observe a) restore (resuming SuspendStrategy.hibernate)
  end_resume : (s : SuspendStrategy) → Edge p (resuming s) resume_succeeded no_action running

ruleset edges = (
  keep_running, start, keep_quiescing, cancel, start_freeze, start_checkpoint, end_freeze,
  end_checkpoint, keep_frozen, start_thaw, keep_hibernated, start_restore, end_resume,
)

-- Every decision is an edge of the diagram.
decide-Edge :
    (s : LifecycleState) (p : LifecyclePolicy) (e : LifecycleEvent) (d : LifecycleDecision)
    → decide s p e ≡ ok d
    → Edge p s e d.action d.next_state
unfolding decide
decide-Edge s p e d h = grind (arith, edges)

Edge-decide :
    (s : LifecycleState) (p : LifecyclePolicy) (e : LifecycleEvent) (d : LifecycleDecision)
    → Edge p s e d.action d.next_state
    → decide s p e ≡ ok d
unfolding decide
Edge-decide s p e d (keep_running a h) = ground (arith, h)
Edge-decide s p e d (start a i h) = ground arith
Edge-decide s p e d (keep_quiescing t a i) = ground arith
Edge-decide s p e d (cancel t a i) = ground arith
Edge-decide s p e d (keep_frozen a i) = ground arith
Edge-decide s p e d (start_thaw a i) = ground arith
Edge-decide s p e d (keep_hibernated a i) = ground arith
Edge-decide s p e d (start_restore a i) = ground arith
Edge-decide s p e d g = ground arith

-- The decisions of the policy are exactly the edges of the diagram: an event of another kind, or
-- an acknowledgement out of turn, is refused.
pub decide-iff-Edge :
    (s : LifecycleState) (p : LifecyclePolicy) (e : LifecycleEvent) (d : LifecycleDecision)
    → (decide s p e ≡ ok d) ↔ Edge p s e d.action d.next_state
decide-iff-Edge s p e d = (decide-Edge s p e d, Edge-decide s p e d)
