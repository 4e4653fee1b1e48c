-- ===== src/HostControl/Workload.antt =====
-- src/adapters/process_lifecycle_host_control.rs: the host's authority over one workload, whose
-- identity is pinned. Each call of the authority answers with a new world.
use ores_otel_sidecar_rs.Prelude.{
  ℕ, Bool, ◌&&◌, List, [], ◌∷◌, ◌==◌, ◌≟◌, if◌then◌else◌, Result, ok, err, map_err, Text, text_eq,
}
use ores_otel_sidecar_rs.Lifecycle.{ActivitySnapshot}
use ores_otel_sidecar_rs.Paths.{path_eq}
use ores_otel_sidecar_rs.RuntimeError.{
  LifecycleRuntimeError, invalid_host_control_request, host_identity_mismatch, message,
}
use ores_otel_sidecar_rs.HostControl.{TrustedWorkloadSnapshot, TrustedHostSnapshot}

-- `TrustedHostAuthority`
pub record TrustedHostAuthority : Type 1 where
  pub World : Type 0
  pub snapshot : World → Result LifecycleRuntimeError TrustedHostSnapshot × World
  pub admit_after_wake :
      TrustedWorkloadSnapshot → ℕ → World → Result LifecycleRuntimeError (Unit {0}) × World

unfoldable pub named : Text → List TrustedWorkloadSnapshot → List TrustedWorkloadSnapshot
named id [] = []
named id (w ∷ ws) = let rest = named id ws in if w.workload_id ≟ id then w ∷ rest else rest

unfoldable pub same_authority_identity : TrustedWorkloadSnapshot → TrustedWorkloadSnapshot → Bool
unfolding path_eq
same_authority_identity expected observed =
    observed.workload_id ≟ expected.workload_id
    && observed.assigned_node ≟ expected.assigned_node
    && observed.runtime_epoch == expected.runtime_epoch
    && observed.placement_epoch == expected.placement_epoch
    && observed.pid == expected.pid
    && observed.process_start_ticks == expected.process_start_ticks
    && path_eq observed.managed_cgroup expected.managed_cgroup
    && observed.isolation_policy_digest ≟ expected.isolation_policy_digest

abbrev pub only :
    TrustedWorkloadSnapshot
    → List TrustedWorkloadSnapshot
    → Result LifecycleRuntimeError TrustedWorkloadSnapshot
only expected (observed ∷ []) =
    if same_authority_identity expected observed then ok observed else err host_identity_mismatch
only expected _ = err host_identity_mismatch

unfoldable pub select_exact_workload :
    TrustedHostSnapshot
    → TrustedWorkloadSnapshot
    → Result LifecycleRuntimeError TrustedWorkloadSnapshot
unfolding named same_authority_identity
select_exact_workload snapshot expected =
    only expected (named expected.workload_id snapshot.workloads)

-- `TrustedHostWorkloadControl`, but for its authority.
pub record TrustedHostWorkloadControl : Type 0 where
  pub expected : TrustedWorkloadSnapshot
  pub fencing_token : ℕ

module _ (A : TrustedHostAuthority) where
  abbrev Asked : Type 0 → Type 0
  Asked B = A.World → Result LifecycleRuntimeError B × A.World

  abbrev pub selected :
      TrustedWorkloadSnapshot
      → Result LifecycleRuntimeError TrustedHostSnapshot × A.World
      → Result LifecycleRuntimeError TrustedWorkloadSnapshot × A.World
  selected expected (ok snapshot, w) = (select_exact_workload snapshot expected, w)
  selected expected (err e, w) = (err e, w)

  unfoldable pub refresh_identity : TrustedWorkloadSnapshot → Asked TrustedWorkloadSnapshot
  unfolding select_exact_workload
  refresh_identity expected w = selected expected (A.snapshot w)

  abbrev pub forget :
      {B : Type 0} → Result LifecycleRuntimeError B → Result LifecycleRuntimeError (Unit {0})
  forget (ok b) = ok tt
  forget (err e) = err e

  unfoldable pub revalidate_identity : TrustedWorkloadSnapshot → Asked (Unit {0})
  unfolding refresh_identity
  revalidate_identity expected w = let (r, w') = refresh_identity expected w in (forget r, w')

  abbrev controlled :
      TrustedHostWorkloadControl
      → Result LifecycleRuntimeError (Unit {0}) × A.World
      → Result LifecycleRuntimeError TrustedHostWorkloadControl × A.World
  controlled control (ok _, w) = (ok control, w)
  controlled control (err e, w) = (err e, w)

  unfoldable with_authority : TrustedWorkloadSnapshot → ℕ → Asked TrustedHostWorkloadControl
  unfolding revalidate_identity
  with_authority expected fencing_token w =
      if fencing_token == 0
      then (err invalid_host_control_request, w)
      else controlled (record { expected = expected; fencing_token = fencing_token })
          (revalidate_identity expected w)

  abbrev activity : TrustedWorkloadSnapshot → ActivitySnapshot
  activity w = record {
    queue_depth = w.queue_depth;
    in_flight = w.in_flight;
    idle_for_ms = w.idle_for_ms;
  }

  abbrev observed :
      Result LifecycleRuntimeError TrustedWorkloadSnapshot → Result Text ActivitySnapshot
  observed (ok w) = ok (activity w)
  observed (err e) = err (message e)

  unfoldable pub observe :
      TrustedHostWorkloadControl → A.World → Result Text ActivitySnapshot × A.World
  unfolding refresh_identity
  observe control w = let (r, w') = refresh_identity control.expected w in (observed r, w')

  abbrev pub admitted :
      TrustedHostWorkloadControl
      → Result LifecycleRuntimeError (Unit {0}) × A.World
      → Result LifecycleRuntimeError (Unit {0}) × A.World
  admitted control (ok _, w) = revalidate_identity control.expected w
  admitted control (err e, w) = (err e, w)

  abbrev pub refreshed :
      TrustedHostWorkloadControl
      → Result LifecycleRuntimeError TrustedWorkloadSnapshot × A.World
      → Result LifecycleRuntimeError (Unit {0}) × A.World
  refreshed control (ok workload, w) =
      admitted control (A.admit_after_wake workload control.fencing_token w)
  refreshed control (err e, w) = (err e, w)

  unfoldable pub verify_ready :
      TrustedHostWorkloadControl → A.World → Result Text (Unit {0}) × A.World
  unfolding refresh_identity revalidate_identity
  verify_ready control w =
      let (r, w') = refreshed control (refresh_identity control.expected w) in
      (map_err message r, w')
