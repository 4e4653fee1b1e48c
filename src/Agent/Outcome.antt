-- ===== src/Agent/Outcome.antt =====
-- What `reconcile_once` reports, against the calls that it made.
use ores_otel_sidecar_rs.Prelude.{
  ℕ, ◌<◌, ◌≡◌, refl, ◌≢◌, ◌⊎◌, Option, none, arith, List, ◌∷◌, Result, ok, err, map_err, Text,
}
use ores_otel_sidecar_rs.Lifecycle.{
  SuspendStrategy, LifecyclePolicy, ActivitySnapshot, LifecycleEvent, LifecycleAction,
  InvalidTransition, no_action, begin_quiesce, thaw, restore, LifecycleDecision, decide,
}
use ores_otel_sidecar_rs.Record.{
  PersistedLifecycleState, running, quiescing, freezing, frozen, checkpointing, hibernated, thawing,
  restoring, LifecycleCheckpoint, LifecycleRecord,
}
use ores_otel_sidecar_rs.Services.{
  Services, System, Call, loaded, replaced, observed, ReconcileError, record_error, host,
  invalid_transition, continue, Act, ◌>>=◌, call_quiesce, ProductQuiesceOutcome, drained,
  demand_returned,
}
use ores_otel_sidecar_rs.Agent.{
  ControllerScope, next_record, persist, after_quiesce, ReconcileOutcome, no_change, suspended,
  resumed, demand_cancelled_suspend, recovered_quiesce, validate_authority, recover_quiesce,
  cancel_suspend_for_demand, suspend_drained, suspend_from_running, resume_frozen, restore_from,
  perform, to_policy_state, reconcile_stable, reconcile_state, reconcile_loaded, reconcile_once,
}

abbrev suspended_state : SuspendStrategy → PersistedLifecycleState
suspended_state SuspendStrategy.freeze = frozen
suspended_state SuspendStrategy.hibernate = hibernated

-- What the latest call must be for an outcome: the store's acceptance of the durable state that
-- the outcome names, or, for no change, an observation with no later call.
abbrev Ended : LifecyclePolicy → ReconcileOutcome → List Call → Type 0
Ended p no_change (observed (ok a) ∷ loaded w (ok c) ∷ calls) = Unit
Ended p suspended (replaced e n (ok _) ∷ calls) = n.state ≡ suspended_state p.strategy
Ended p resumed (replaced e n (ok _) ∷ calls) =
    ((e.state ≡ thawing) ⊎ (e.state ≡ restoring)) × (n.state ≡ running)
Ended p demand_cancelled_suspend (replaced e n (ok _) ∷ calls) =
    (e.state ≡ quiescing) × (n.state ≡ running)
Ended p recovered_quiesce (replaced e n (ok _) ∷ calls) =
    (e.state ≡ quiescing) × (n.state ≡ running)
Ended p _ _ = ⊥

abbrev pub EndedOk : LifecyclePolicy → Result ReconcileError ReconcileOutcome → List Call → Type 0
EndedOk p (ok o) calls = Ended p o calls
EndedOk p (err e) calls = Unit

module _ (S : Services) (token : ℕ) (p : LifecyclePolicy) where
  abbrev Ends : Result ReconcileError ReconcileOutcome × System S → Type 0
  Ends (r, s) = EndedOk p r s.calls

  cancel_suspend-EndedOk :
      (q : LifecycleRecord) (s : System S)
      → q.state ≡ quiescing
      → Ends (cancel_suspend_for_demand S token q s)
  unfolding cancel_suspend_for_demand
  cancel_suspend-EndedOk q s e = ground arith

  suspend_drained-EndedOk :
      (q : LifecycleRecord) (s : System S)
      → q.state ≡ quiescing
      → Ends (suspend_drained S token p q s)
  unfolding suspend_drained
  suspend_drained-EndedOk q s e = ground arith

  after_quiesce-EndedOk :
      (q : LifecycleRecord) (o : ProductQuiesceOutcome) (s : System S)
      → q.state ≡ quiescing
      → Ends (after_quiesce S token p q o s)
  unfolding after_quiesce
  after_quiesce-EndedOk q demand_returned s e = cancel_suspend-EndedOk q s e
  after_quiesce-EndedOk q drained s e = suspend_drained-EndedOk q s e

  -- A failed first step ends the whole, and an error claims nothing.
  continue-EndedOk :
      {A : Type 0}
      → (r : Result ReconcileError A) (f : A → Act S ReconcileOutcome) (s : System S)
      → ((a : A) → Ends (f a s))
      → Ends (continue r f s)
  continue-EndedOk (ok a) f s h = h a
  continue-EndedOk (err e) f s h = tt

  then-EndedOk :
      {A : Type 0}
      → (m : Act S A) (f : A → Act S ReconcileOutcome) (s : System S)
      → ((a : A) (t : System S) → Ends (f a t))
      → Ends ((m >>= f) s)
  then-EndedOk m f s h = let (r, t) = m s in continue-EndedOk r f t (λ a. h a t)

  suspend_from_running-EndedOk :
      (c : LifecycleRecord) (s : System S) → Ends (suspend_from_running S token p c s)
  unfolding suspend_from_running next_record
  suspend_from_running-EndedOk c s =
      let q = next_record c token quiescing none in
      then-EndedOk (persist S c q) _ s λ _ t.
        then-EndedOk (call_quiesce S) (after_quiesce S token p q) t
          λ o u. after_quiesce-EndedOk q o u refl

  resume_frozen-EndedOk : (c : LifecycleRecord) (s : System S) → Ends (resume_frozen S token c s)
  unfolding resume_frozen
  resume_frozen-EndedOk c s = ground arith

  restore_from-EndedOk :
      (c : LifecycleRecord) (o : Option LifecycleCheckpoint) (s : System S)
      → Ends (restore_from S token c o s)
  unfolding restore_from
  restore_from-EndedOk c o s = ground arith

  recover_quiesce-EndedOk :
      (c : LifecycleRecord) (s : System S)
      → c.state ≡ quiescing
      → Ends (recover_quiesce S token c s)
  unfolding recover_quiesce
  recover_quiesce-EndedOk c s e = ground arith

  perform-EndedOk :
      (a : LifecycleAction) (c : LifecycleRecord) (s : System S)
      → Ended p no_change s.calls
      → Ends (perform S a token p c s)
  unfolding perform
  perform-EndedOk no_action c s h = h
  perform-EndedOk begin_quiesce c s h = suspend_from_running-EndedOk c s
  perform-EndedOk thaw c s h = resume_frozen-EndedOk c s
  perform-EndedOk restore c s h = restore_from-EndedOk c c.checkpoint s
  perform-EndedOk _ c s h = tt

  decided-EndedOk :
      (c : LifecycleRecord) (r : Result InvalidTransition LifecycleDecision) (s : System S)
      → Ended p no_change s.calls
      → Ends (continue (map_err (λ _. invalid_transition) r) (λ d. perform S d.action token p c) s)
  decided-EndedOk c (ok d) s h = perform-EndedOk d.action c s h
  decided-EndedOk c (err e) s h = tt

  reconcile_stable-EndedOk :
      (c : LifecycleRecord) (s : System S)
      → ((a : ActivitySnapshot) → Ended p no_change (observed (ok a) ∷ s.calls))
      → Ends (reconcile_stable S token p c s)
  unfolding reconcile_stable
  reconcile_stable-EndedOk c s h = let (r, w) = S.observe s.world in seen r w
    where
      seen :
          (r : Result Text ActivitySnapshot) (w : S.World)
          → Ends (
              continue
                (map_err host r)
                (λ a t.
                  continue
                    (map_err
                      (λ _. invalid_transition)
                      (decide (to_policy_state c) p (LifecycleEvent.observe a)))
                    (λ d. perform S d.action token p c)
                    t)
                (record { world = w; calls = observed r ∷ s.calls }))
      seen (ok a) w =
          let t : System S = record { world = w; calls = observed (ok a) ∷ s.calls } in
          decided-EndedOk c (decide (to_policy_state c) p (LifecycleEvent.observe a)) t (h a)
      seen (err e) w = tt

  reconcile_state-EndedOk :
      (st : PersistedLifecycleState) (c : LifecycleRecord) (s : System S)
      → c.state ≡ st
      → ((a : ActivitySnapshot) → Ended p no_change (observed (ok a) ∷ s.calls))
      → Ends (reconcile_state S st token p c s)
  unfolding reconcile_state
  reconcile_state-EndedOk quiescing c s e h = recover_quiesce-EndedOk c s e
  reconcile_state-EndedOk running c s e h = reconcile_stable-EndedOk c s h
  reconcile_state-EndedOk frozen c s e h = reconcile_stable-EndedOk c s h
  reconcile_state-EndedOk hibernated c s e h = reconcile_stable-EndedOk c s h
  reconcile_state-EndedOk _ c s e h = tt

  reconcile_loaded-EndedOk :
      (scope : ControllerScope) (c : LifecycleRecord) (s : System S)
      → ((a : ActivitySnapshot) → Ended p no_change (observed (ok a) ∷ s.calls))
      → Ends (reconcile_loaded S scope token p c s)
  unfolding reconcile_loaded
  reconcile_loaded-EndedOk scope c s h = ground (arith, reconcile_state-EndedOk c.state c s refl h)

-- Whatever the services answer, an `Ok` outcome is true of the calls: `NoChange` follows the
-- observation with no later call, and every other outcome is returned right after the store
-- accepted the durable state that it names, for `Suspended` the state of the policy's strategy.
pub reconcile_once-EndedOk :
    (S : Services) (scope : ControllerScope) (token : ℕ) (policy : LifecyclePolicy) (s : System S)
    → let (r, t) = reconcile_once S scope token policy s in EndedOk policy r t.calls
unfolding reconcile_once
reconcile_once-EndedOk S scope token policy s =
    let (r, w) = S.load scope.workload_id s.world in go r w
  where
    go :
        (r : Result Text LifecycleRecord) (w : S.World)
        → Ends S token policy (
            continue
              (map_err record_error r)
              (reconcile_loaded S scope token policy)
              (record { world = w; calls = loaded scope.workload_id r ∷ s.calls }))
    go (ok c) w = reconcile_loaded-EndedOk S token policy scope c _ (λ a. tt)
    go (err e) w = tt

-- The record belongs to another node, placement or runtime, or to a newer fence.
abbrev Disowned : ControllerScope → ℕ → LifecycleRecord → Type 0
Disowned scope token c =
    (c.assigned_node ≢ scope.node)
    ⊎ (c.placement_epoch ≢ scope.placement_epoch)
    ⊎ (c.runtime_epoch ≢ scope.runtime_epoch)
    ⊎ (token < c.fencing_token)

abbrev pub Failed : Result ReconcileError ReconcileOutcome → Type 0
Failed (ok o) = ⊥
Failed (err e) = Unit

-- A controller that does not own the loaded record fails, and has called nothing but the load.
pub reconcile_once-Disowned :
    (S : Services) (scope : ControllerScope) (token : ℕ) (policy : LifecyclePolicy) (s : System S)
    (c : LifecycleRecord)
    → (S.load scope.workload_id s.world).0 ≡ ok c
    → Disowned scope token c
    → let (r, t) = reconcile_once S scope token policy s in
      Failed r × (t.calls ≡ loaded scope.workload_id (ok c) ∷ s.calls)
unfolding reconcile_once reconcile_loaded validate_authority
reconcile_once-Disowned S scope token policy s c e d = ground arith

abbrev InTransition : PersistedLifecycleState → Type 0
InTransition st = (st ≡ freezing) ⊎ (st ≡ checkpointing) ⊎ (st ≡ thawing) ⊎ (st ≡ restoring)

-- A record with a process effect in flight is never acted on: the reconciliation fails, and has
-- called nothing but the load.
reconcile_once-InTransition :
    (S : Services) (scope : ControllerScope) (token : ℕ) (policy : LifecyclePolicy) (s : System S)
    (c : LifecycleRecord)
    → (S.load scope.workload_id s.world).0 ≡ ok c
    → InTransition c.state
    → let (r, t) = reconcile_once S scope token policy s in
      Failed r × (t.calls ≡ loaded scope.workload_id (ok c) ∷ s.calls)
unfolding reconcile_once reconcile_loaded reconcile_state
reconcile_once-InTransition S scope token policy s c e d = ground arith
