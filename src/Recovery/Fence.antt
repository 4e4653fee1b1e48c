-- ===== src/Recovery/Fence.antt =====
-- The records that a freeze recovery writes, whatever the services answer.
use ores_otel_sidecar_rs.Prelude.{ℕ, arith, List, ◌∷◌, Result, ok, err, map_err, Text}
use ores_otel_sidecar_rs.Lifecycle.{LifecyclePolicy}
use ores_otel_sidecar_rs.Record.{PersistedLifecycleState, freezing, thawing, LifecycleRecord}
use ores_otel_sidecar_rs.Services.{
  Services, System, Call, loaded, status_read, FreezeTransitionStatus, record_error, effect,
  continue,
}
use ores_otel_sidecar_rs.Agent.{ControllerScope}
use ores_otel_sidecar_rs.Agent.Fence.{Fenced, Held}
use ores_otel_sidecar_rs.Recovery.{
  validate_recovery_authority, recover_freezing, recover_thawing, recover_state, recover_observed,
  recover_loaded, recover_freeze_transition,
}

module _ (S : Services) (scope : ControllerScope) (token : ℕ) (c : LifecycleRecord) where
  recover_freezing-Fenced :
      (st : FreezeTransitionStatus) (s : System S)
      → Held S scope c s
      → Fenced scope token s.calls
      → Fenced scope token (recover_freezing S token c st s).1.calls
  unfolding recover_freezing
  recover_freezing-Fenced st s held h = ground arith

  recover_thawing-Fenced :
      (st : FreezeTransitionStatus) (s : System S)
      → Held S scope c s
      → Fenced scope token s.calls
      → Fenced scope token (recover_thawing S token c st s).1.calls
  unfolding recover_thawing
  recover_thawing-Fenced st s held h = ground arith

  recover_state-Fenced :
      (state : PersistedLifecycleState) (st : FreezeTransitionStatus) (s : System S)
      → Held S scope c s
      → Fenced scope token s.calls
      → Fenced scope token (recover_state S state token c st s).1.calls
  unfolding recover_state
  recover_state-Fenced freezing st s held h = recover_freezing-Fenced st s held h
  recover_state-Fenced thawing st s held h = recover_thawing-Fenced st s held h
  recover_state-Fenced _ st s held h = h

  recover_observed-Fenced :
      (st : FreezeTransitionStatus) (s : System S)
      → Held S scope c s
      → Fenced scope token s.calls
      → Fenced scope token (recover_observed S token c st s).1.calls
  unfolding recover_observed
  recover_observed-Fenced st s held h = ground (arith, recover_state-Fenced c.state st s held h)

  recover_status-Fenced :
      (r : Result Text FreezeTransitionStatus) (s : System S)
      → Held S scope c s
      → Fenced scope token s.calls
      → Fenced scope token (continue (map_err effect r) (recover_observed S token c) s).1.calls
  recover_status-Fenced (ok st) s held h = recover_observed-Fenced st s held h
  recover_status-Fenced (err e) s held h = h

  recover_loaded-Fenced :
      (policy : LifecyclePolicy) (w : S.World) (calls : List Call)
      → let t : System S = record { world = w; calls = loaded scope.workload_id (ok c) ∷ calls } in
        Fenced scope token calls
        → Fenced scope token (recover_loaded S scope token policy c t).1.calls
  unfolding recover_loaded validate_recovery_authority
  recover_loaded-Fenced policy w calls h =
      let r = S.freeze_status w in
      let t : System S = record {
        world = r.1;
        calls = status_read r.0 ∷ loaded scope.workload_id (ok c) ∷ calls;
      } in
      ground (arith, λ (k : Held S scope c t). recover_status-Fenced r.0 t k h)

-- Whatever the services answer, each replacement that a recovery asks for replaces the record that
-- the store last returned or accepted, passes the replacement test, carries the caller's fence, and
-- stays on the controller's node, placement and runtime.
pub recover-Fenced :
    (S : Services) (scope : ControllerScope) (token : ℕ) (policy : LifecyclePolicy) (s : System S)
    → Fenced scope token s.calls
    → Fenced scope token (recover_freeze_transition S scope token policy s).1.calls
unfolding recover_freeze_transition
recover-Fenced S scope token policy s h = let (r, w) = S.load scope.workload_id s.world in go r w
  where
    go :
        (r : Result Text LifecycleRecord) (w : S.World)
        → Fenced scope token
            (continue
              (map_err record_error r)
              (recover_loaded S scope token policy)
              (record { world = w; calls = loaded scope.workload_id r ∷ s.calls })).1.calls
    go (ok c) w = recover_loaded-Fenced S scope token c policy w s.calls h
    go (err e) w = h
