-- ===== src/Identity/Guarded.antt =====
-- How the effects of src/adapters/process_lifecycle_attested_freeze.rs end.
use ores_otel_sidecar_rs.Prelude.{◌≡◌, Bool, ◌<◌, ◌+◌, ok, err, Text}
use ores_otel_sidecar_rs.Paths.{join}
use ores_otel_sidecar_rs.Cgroup
use ores_otel_sidecar_rs.Cgroup.{unfinished, panicked, returned, Done, cgroup_freeze_file}
use ores_otel_sidecar_rs.Cgroup.Wait.{Clock, IsConfirmed}
use ores_otel_sidecar_rs.Identity
use ores_otel_sidecar_rs.Identity.{ProcHost}
use ores_otel_sidecar_rs.Identity.Evidence.{IsAttested}
use ores_otel_sidecar_rs.Identity.Attested.{cgroup_host, AttestedFreezeOnlyCgroupEffects}

module _ (H : ProcHost) (C : Clock (cgroup_host H)) (s : AttestedFreezeOnlyCgroupEffects) where
  -- The identity was attested, then the kernel took the request and reported the state that was
  -- asked for, and then the identity was attested again.
  pub record IsGuarded (expected : Bool) (flag : Text) (w after : H.World) : Type 0 where
    pub w1 : H.World
    pub w2 : H.World
    pub before : IsAttested H s.attestor s.expected w w1
    pub accepted : (H.write (join s.expected.managed_cgroup cgroup_freeze_file) flag w1).0 ≡ ok tt
    pub confirmed : IsConfirmed (cgroup_host H) C s.expected.managed_cgroup expected w2
    pub again : IsAttested H s.attestor s.expected w2 after

  -- The identity was attested, and after the request the timeout led past the latest instant.
  pub record IsPastLatest (flag : Text) (w : H.World) : Type 0 where
    pub w1 : H.World
    pub before : IsAttested H s.attestor s.expected w w1
    pub past :
        let asked = (H.write (join s.expected.managed_cgroup cgroup_freeze_file) flag w1).1 in
        H.latest < C.clock asked + s.effect_timeout

  -- How an effect that was started in a world ends.
  abbrev pub Guards : Bool → Text → H.World → Done (cgroup_host H) → Type 0
  Guards expected flag w (unfinished, after) = ⊥
  Guards expected flag w (panicked, after) = IsPastLatest flag w
  Guards expected flag w (returned (err x), after) = Unit
  Guards expected flag w (returned (ok _), after) = IsGuarded expected flag w after
