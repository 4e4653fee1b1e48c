-- ===== src/HostControl/Pinned.antt =====
-- When src/adapters/process_lifecycle_host_control.rs lets traffic back to a workload.
use ores_otel_sidecar_rs.Prelude.{
  ◌≡◌, refl, arith, true, List, [], ◌∷◌, Result, ok, err, map_err, Text,
}
use ores_otel_sidecar_rs.Paths.{path_eq}
use ores_otel_sidecar_rs.RuntimeError.{LifecycleRuntimeError, message}
use ores_otel_sidecar_rs.HostControl.{TrustedWorkloadSnapshot, TrustedHostSnapshot}
use ores_otel_sidecar_rs.HostControl.Workload.{
  TrustedHostAuthority, TrustedHostWorkloadControl, named, same_authority_identity, only,
  select_exact_workload, selected, forget, refreshed, admitted, refresh_identity,
  revalidate_identity, verify_ready,
}

-- One incarnation of a workload: only its demand and whether it is routable may differ.
pub record SameIncarnation (expected observed : TrustedWorkloadSnapshot) : Type 0 where
  pub id : observed.workload_id ≡ expected.workload_id
  pub node : observed.assigned_node ≡ expected.assigned_node
  pub runtime : observed.runtime_epoch ≡ expected.runtime_epoch
  pub placement : observed.placement_epoch ≡ expected.placement_epoch
  pub process : observed.pid ≡ expected.pid
  pub started : observed.process_start_ticks ≡ expected.process_start_ticks
  pub cgroup : path_eq observed.managed_cgroup expected.managed_cgroup ≡ true
  pub policy : observed.isolation_policy_digest ≡ expected.isolation_policy_digest

same_authority_identity-SameIncarnation :
    (expected observed : TrustedWorkloadSnapshot)
    → same_authority_identity expected observed ≡ true
    → SameIncarnation expected observed
unfolding same_authority_identity
same_authority_identity-SameIncarnation expected observed h = ground arith

only_one :
    (expected w : TrustedWorkloadSnapshot) (ws : List TrustedWorkloadSnapshot)
    → only expected ws ≡ ok w
    → (ws ≡ w ∷ []) × SameIncarnation expected w
only_one expected w [] h = cc
only_one expected w (x ∷ []) h = ground (arith, same_authority_identity-SameIncarnation expected w)
only_one expected w (x ∷ y ∷ ws) h = cc

module _ (A : TrustedHostAuthority) where
  -- The authority answers with a snapshot in which one workload has the name, and it is the
  -- incarnation that was pinned.
  pub record Confirms (expected : TrustedWorkloadSnapshot) (w : A.World)
      (workload : TrustedWorkloadSnapshot) (w' : A.World) : Type 0 where
    pub snapshot : TrustedHostSnapshot
    pub answered : A.snapshot w ≡ (ok snapshot, w')
    pub unique : named expected.workload_id snapshot.workloads ≡ workload ∷ []
    pub same : SameIncarnation expected workload

  selected_from :
      (expected workload : TrustedWorkloadSnapshot) (w' : A.World)
      (r : Result LifecycleRuntimeError TrustedHostSnapshot × A.World)
      → selected A expected r ≡ (ok workload, w')
      → (snapshot : TrustedHostSnapshot) × (r ≡ (ok snapshot, w'))
        × (select_exact_workload snapshot expected ≡ ok workload)
  selected_from expected workload w' (ok snapshot, w) h = (snapshot, cc, cc)
  selected_from expected workload w' (err e, w) h = cc

  refresh_identity-Confirms :
      (expected workload : TrustedWorkloadSnapshot) (w w' : A.World)
      → refresh_identity A expected w ≡ (ok workload, w')
      → Confirms expected w workload w'
  unfolding refresh_identity select_exact_workload
  refresh_identity-Confirms expected workload w w' h =
      let (snapshot, answered, found) = selected_from expected workload w' (A.snapshot w) h in
      let (unique, same) =
        only_one expected workload (named expected.workload_id snapshot.workloads) found in
      record { snapshot = snapshot; answered = answered; unique = unique; same = same }

  refreshed_from :
      (control : TrustedHostWorkloadControl) (final : A.World)
      (r : Result LifecycleRuntimeError TrustedWorkloadSnapshot × A.World)
      → refreshed A control r ≡ (ok tt, final)
      → (workload : TrustedWorkloadSnapshot) × (w1 : A.World) × (r ≡ (ok workload, w1))
        × (admitted A control (A.admit_after_wake workload control.fencing_token w1)
            ≡ (ok tt, final))
  refreshed_from control final (ok workload, w1) h = (workload, w1, refl, h)
  refreshed_from control final (err e, w1) h = cc

  admitted_from :
      (control : TrustedHostWorkloadControl) (final : A.World)
      (r : Result LifecycleRuntimeError (Unit {0}) × A.World)
      → admitted A control r ≡ (ok tt, final)
      → (w2 : A.World) × (r ≡ (ok tt, w2))
        × (revalidate_identity A control.expected w2 ≡ (ok tt, final))
  admitted_from control final (ok tt, w2) h = (w2, refl, h)
  admitted_from control final (err e, w2) h = cc

  forgotten :
      (final : A.World) (r : Result LifecycleRuntimeError TrustedWorkloadSnapshot × A.World)
      → ◌≡◌ {A = Result LifecycleRuntimeError (Unit {0}) × A.World}
          (forget A r.0, r.1)
          (ok tt, final)
      → (workload : TrustedWorkloadSnapshot) × (r ≡ (ok workload, final))
  forgotten final (ok workload, w) h = (workload, cc)
  forgotten final (err e, w) h = cc

  revalidate_identity-Confirms :
      (expected : TrustedWorkloadSnapshot) (w final : A.World)
      → revalidate_identity A expected w ≡ (ok tt, final)
      → (second : TrustedWorkloadSnapshot) × Confirms expected w second final
  unfolding revalidate_identity
  revalidate_identity-Confirms expected w final h =
      let (second, again) = forgotten final (refresh_identity A expected w) h in
      (second, refresh_identity-Confirms expected second w final again)

  unmapped :
      (final : A.World) (r : Result LifecycleRuntimeError (Unit {0}) × A.World)
      → ◌≡◌ {A = Result Text (Unit {0}) × A.World} (map_err message r.0, r.1) (ok tt, final)
      → r ≡ (ok tt, final)
  unmapped final (ok tt, w) h = cc
  unmapped final (err e, w) h = cc

  -- The calls of a success: a snapshot, the admission of the workload found in it under the fence,
  -- and a second snapshot.
  pub record Readies (control : TrustedHostWorkloadControl) (w final : A.World) : Type 0 where
    pub first : TrustedWorkloadSnapshot
    pub second : TrustedWorkloadSnapshot
    pub w1 : A.World
    pub w2 : A.World
    pub before : Confirms control.expected w first w1
    pub admission : A.admit_after_wake first control.fencing_token w1 ≡ (ok tt, w2)
    pub after : Confirms control.expected w2 second final

  -- The host readies a workload only if it confirms the pinned incarnation, then admits exactly the
  -- workload that it confirmed, under the fencing token, and then confirms the incarnation again.
  pub verify_ready-Readies :
      (control : TrustedHostWorkloadControl) (w final : A.World)
      → verify_ready A control w ≡ (ok tt, final)
      → Readies control w final
  unfolding verify_ready
  verify_ready-Readies control w final h =
      let refresh = refresh_identity A control.expected w in
      let (first, w1, found, more) =
        refreshed_from control final refresh (unmapped final (refreshed A control refresh) h) in
      let (w2, admission, rest) =
        admitted_from control final (A.admit_after_wake first control.fencing_token w1) more in
      let (second, after) = revalidate_identity-Confirms control.expected w2 final rest in
      record {
        first = first;
        second = second;
        w1 = w1;
        w2 = w2;
        before = refresh_identity-Confirms control.expected first w w1 found;
        admission = admission;
        after = after;
      }
