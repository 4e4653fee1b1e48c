-- ===== src/Agent/Admission.antt =====
-- The checks that `reconcile_once` makes before it acts on a record, as a rule for its invariants.
use ores_otel_sidecar_rs.Prelude.{ℕ, ◌≡◌, refl, List, ◌∷◌, Result, ok, err, map_err, Text, arith}
use ores_otel_sidecar_rs.Lifecycle.{LifecyclePolicy}
use ores_otel_sidecar_rs.Record.{LifecycleRecord, validate}
use ores_otel_sidecar_rs.Services.{Services, System, Call, loaded, record_error, continue}
use ores_otel_sidecar_rs.Agent.{
  ControllerScope, validate_authority, validate_strategy, reconcile_state, reconcile_loaded,
  reconcile_once,
}

-- The record is valid, of the controller's scope and fence, and of the policy's strategy.
pub record Admitted (scope : ControllerScope) (token : ℕ) (policy : LifecyclePolicy)
    (c : LifecycleRecord) : Type 0 where
  pub valid : validate c ≡ ok tt
  pub authority : validate_authority scope token c ≡ ok tt
  pub strategy : validate_strategy policy c ≡ ok tt

-- The state after the record `c` was loaded.
abbrev pub AfterLoad : (S : Services) → ControllerScope → LifecycleRecord → System S → Type 0
AfterLoad S scope c s = (calls : List Call) × (s.calls ≡ loaded scope.workload_id (ok c) ∷ calls)

module _ (S : Services) (P : List Call → Type 0) (scope : ControllerScope) (token : ℕ)
    (policy : LifecyclePolicy) where
  reconcile_loaded_keeps :
      (c : LifecycleRecord) (s : System S)
      → (Admitted scope token policy c → P (reconcile_state S c.state token policy c s).1.calls)
      → P s.calls
      → P (reconcile_loaded S scope token policy c s).1.calls
  unfolding reconcile_loaded
  reconcile_loaded_keeps c s state h =
      ground (arith, λ (a : Admitted scope token policy c). state a)

  -- What the load keeps, and what reconciling an admitted record keeps, the whole keeps.
  pub reconcile_once_keeps :
      ((calls : List Call) (r : Result Text LifecycleRecord)
        → P calls
        → P (loaded scope.workload_id r ∷ calls))
      → ((c : LifecycleRecord) (s : System S)
          → Admitted scope token policy c
          → AfterLoad S scope c s
          → P s.calls
          → P (reconcile_state S c.state token policy c s).1.calls)
      → (s : System S) → P s.calls
      → P (reconcile_once S scope token policy s).1.calls
  unfolding reconcile_once
  reconcile_once_keeps load state s h =
      let (r, w) = S.load scope.workload_id s.world in go r w (load s.calls r h)
    where
      go :
          (r : Result Text LifecycleRecord) (w : S.World)
          → P (loaded scope.workload_id r ∷ s.calls)
          → P
              (continue
                (map_err record_error r)
                (reconcile_loaded S scope token policy)
                (record { world = w; calls = loaded scope.workload_id r ∷ s.calls })).1.calls
      go (ok c) w k =
          let t : System S = record {
            world = w;
            calls = loaded scope.workload_id (ok c) ∷ s.calls;
          } in
          reconcile_loaded_keeps c t (λ a. state c t a (s.calls, refl) k) k
      go (err e) w k = k
