-- ===== src/Agent/Fence.antt =====
-- The records that `reconcile_once` writes, whatever the services answer.
use ores_otel_sidecar_rs.Prelude.{ℕ, ◌≡◌, Option, none, some, arith, List, [], ◌∷◌, ok, err}
use ores_otel_sidecar_rs.Lifecycle.{LifecyclePolicy, decide}
use ores_otel_sidecar_rs.Record.{
  PersistedLifecycleState, running, quiescing, frozen, hibernated, LifecycleRecord,
  validate_record_update,
}
use ores_otel_sidecar_rs.Services.{Services, System, Call, loaded, replaced}
use ores_otel_sidecar_rs.Agent.{
  ControllerScope, validate_authority, recover_quiesce, reconcile_stable, perform, to_policy_state,
  reconcile_state, reconcile_once,
}
use ores_otel_sidecar_rs.Agent.Admission.{Admitted, AfterLoad, reconcile_once_keeps}

-- The record that the store last returned or accepted; `none` after a refused replacement.
abbrev current_record : List Call → Option LifecycleRecord
current_record [] = none
current_record (loaded w (ok c) ∷ calls) = some c
current_record (loaded w (err e) ∷ calls) = none
current_record (replaced e n (ok _) ∷ calls) = some n
current_record (replaced e n (err _) ∷ calls) = none
current_record (call ∷ calls) = current_record calls

-- A replacement of the current record by a valid successor, under the fence and in the scope.
pub record IsFencedWrite (scope : ControllerScope) (token : ℕ) (calls : List Call)
    (e n : LifecycleRecord) : Type 0 where
  pub current : current_record calls ≡ some e
  pub update : validate_record_update e n ≡ ok tt
  pub fence : n.fencing_token ≡ token
  pub node : n.assigned_node ≡ scope.node
  pub placement : n.placement_epoch ≡ scope.placement_epoch
  pub runtime : n.runtime_epoch ≡ scope.runtime_epoch

abbrev pub Fenced : ControllerScope → ℕ → List Call → Type 0
Fenced scope token [] = Unit
Fenced scope token (replaced e n r ∷ calls) =
    IsFencedWrite scope token calls e n × Fenced scope token calls
Fenced scope token (call ∷ calls) = Fenced scope token calls

-- The record is of the scope, and the latest that the store knows.
pub record Held (S : Services) (scope : ControllerScope) (c : LifecycleRecord) (s : System S)
    : Type 0 where
  pub current : current_record s.calls ≡ some c
  pub node : c.assigned_node ≡ scope.node
  pub placement : c.placement_epoch ≡ scope.placement_epoch
  pub runtime : c.runtime_epoch ≡ scope.runtime_epoch

module _ (S : Services) (scope : ControllerScope) (token : ℕ) (policy : LifecyclePolicy)
    (c : LifecycleRecord) (s : System S) where
  reconcile_stable-Fenced :
      Held S scope c s
      → Fenced scope token s.calls
      → Fenced scope token (reconcile_stable S token policy c s).1.calls
  unfolding reconcile_stable perform to_policy_state decide
  reconcile_stable-Fenced held h = ground arith

  recover_quiesce-Fenced :
      Held S scope c s
      → Fenced scope token s.calls
      → Fenced scope token (recover_quiesce S token c s).1.calls
  unfolding recover_quiesce
  recover_quiesce-Fenced held h = ground arith

  reconcile_state-Fenced :
      (st : PersistedLifecycleState)
      → Held S scope c s
      → Fenced scope token s.calls
      → Fenced scope token (reconcile_state S st token policy c s).1.calls
  unfolding reconcile_state
  reconcile_state-Fenced quiescing held h = recover_quiesce-Fenced held h
  reconcile_state-Fenced running held h = reconcile_stable-Fenced held h
  reconcile_state-Fenced frozen held h = reconcile_stable-Fenced held h
  reconcile_state-Fenced hibernated held h = reconcile_stable-Fenced held h
  reconcile_state-Fenced _ held h = h

  Admitted-Held : Admitted scope token policy c → AfterLoad S scope c s → Held S scope c s
  unfolding validate_authority
  Admitted-Held a (calls, e) = ground arith

-- Whatever the services answer, each replacement that a reconciliation asks for replaces the
-- record that the store last returned or accepted, passes the replacement test, carries the
-- caller's fence, and stays on the controller's node, placement and runtime.
pub reconcile_once-Fenced :
    (S : Services) (scope : ControllerScope) (token : ℕ) (policy : LifecyclePolicy) (s : System S)
    → Fenced scope token s.calls
    → Fenced scope token (reconcile_once S scope token policy s).1.calls
reconcile_once-Fenced S scope token policy =
    reconcile_once_keeps S (Fenced scope token) scope token policy (λ _ _ h. h)
      λ c s a loaded_ h.
        reconcile_state-Fenced S scope token policy c s c.state
          (Admitted-Held S scope token policy c s a loaded_) h
