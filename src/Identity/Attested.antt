-- ===== src/Identity/Attested.antt =====
-- src/adapters/process_lifecycle_attested_freeze.rs: a freeze and a thaw between two attestations of
-- the process that they act on.
use ores_otel_sidecar_rs.Prelude.{ℕ, ◌++◌, Result, ok, err, Text, codes}
use ores_otel_sidecar_rs.Paths.{join}
use ores_otel_sidecar_rs.Record.{LifecycleCheckpoint}
use ores_otel_sidecar_rs.Services.{FreezeTransitionStatus}
use ores_otel_sidecar_rs.Cgroup
use ores_otel_sidecar_rs.Cgroup.{
  Host, unfinished, panicked, returned, FreezeOnlyCgroupEffects, Done,
}
use ores_otel_sidecar_rs.Identity.Parse.{identity_error}
use ores_otel_sidecar_rs.Identity.{
  ProcHost, LinuxProcessIdentityAttestor, ExpectedLinuxProcessIdentity, Checked,
}
use ores_otel_sidecar_rs.Identity

abbrev identity_prefix : Text
identity_prefix = codes "lifecycle process identity attestation failed"

-- The control group is written and read through the same files and clock.
abbrev pub cgroup_host : ProcHost → Host
cgroup_host H = record {
  World = H.World;
  FilePath = Text;
  join = join;
  write = H.write;
  read_to_string = H.read_to_string;
  now = H.now;
  latest = H.latest;
  sleep = H.sleep;
}

pub record AttestedFreezeOnlyCgroupEffects : Type 0 where
  pub expected : ExpectedLinuxProcessIdentity
  pub attestor : LinuxProcessIdentityAttestor
  pub effect_timeout : ℕ
  pub poll_interval : ℕ

module _ (H : ProcHost) where
  -- The controller is made from the expected identity.
  abbrev pub effects_of : AttestedFreezeOnlyCgroupEffects → FreezeOnlyCgroupEffects (cgroup_host H)
  effects_of s = record {
    cgroup_dir = s.expected.managed_cgroup;
    effect_timeout = s.effect_timeout;
    poll_interval = s.poll_interval;
  }

  abbrev pub attested : {A : Type 0} → Checked A → Result Text (Unit {0})
  attested (ok identity) = ok tt
  attested (err e) = err (identity_prefix ++ codes ": " ++ identity_error e)

  unfoldable pub attest_effect :
      AttestedFreezeOnlyCgroupEffects → H.World → Result Text (Unit {0}) × H.World
  unfolding identity_error
  attest_effect s w = let (r, w') = Identity.attest H s.attestor s.expected w in (attested r, w')

  abbrev pub with_fuel : Result Text (Unit {0}) × H.World → Done (cgroup_host H)
  with_fuel (r, w) = (returned r, w)

  abbrev pub after_effect :
      AttestedFreezeOnlyCgroupEffects → Done (cgroup_host H) → Done (cgroup_host H)
  after_effect s (unfinished, w) = (unfinished, w)
  after_effect s (panicked, w) = (panicked, w)
  after_effect s (returned (err e), w) = (returned (err e), w)
  after_effect s (returned (ok _), w) = with_fuel (attest_effect s w)

  abbrev pub after_attest :
      AttestedFreezeOnlyCgroupEffects
      → (FreezeOnlyCgroupEffects (cgroup_host H) → H.World → Done (cgroup_host H))
      → Result Text (Unit {0}) × H.World
      → Done (cgroup_host H)
  after_attest s effect (err e, w) = (returned (err e), w)
  after_attest s effect (ok _, w) = after_effect s (effect (effects_of s) w)

  unfoldable pub guarded_effect :
      AttestedFreezeOnlyCgroupEffects
      → (FreezeOnlyCgroupEffects (cgroup_host H) → H.World → Done (cgroup_host H))
      → H.World
      → Done (cgroup_host H)
  unfolding attest_effect
  guarded_effect s effect w = after_attest s effect (attest_effect s w)

  unfoldable pub attested_freeze : AttestedFreezeOnlyCgroupEffects → H.World → Done (cgroup_host H)
  unfolding guarded_effect
  attested_freeze s w = guarded_effect s (Cgroup.freeze (cgroup_host H)) w

  unfoldable pub attested_thaw : AttestedFreezeOnlyCgroupEffects → H.World → Done (cgroup_host H)
  unfolding guarded_effect
  attested_thaw s w = guarded_effect s (Cgroup.thaw (cgroup_host H)) w

  abbrev confirmed :
      AttestedFreezeOnlyCgroupEffects
      → FreezeTransitionStatus
      → Result Text (Unit {0}) × H.World
      → Result Text FreezeTransitionStatus × H.World
  confirmed s status (ok _, w) = (ok status, w)
  confirmed s status (err e, w) = (err e, w)

  abbrev after_status :
      AttestedFreezeOnlyCgroupEffects
      → Result Text FreezeTransitionStatus × H.World
      → Result Text FreezeTransitionStatus × H.World
  after_status s (ok status, w) = confirmed s status (attest_effect s w)
  after_status s (err e, w) = (err e, w)

  abbrev before_status :
      AttestedFreezeOnlyCgroupEffects
      → Result Text (Unit {0}) × H.World
      → Result Text FreezeTransitionStatus × H.World
  before_status s (ok _, w) = after_status s (Cgroup.freeze_status (cgroup_host H) (effects_of s) w)
  before_status s (err e, w) = (err e, w)

  unfoldable attested_freeze_status :
      AttestedFreezeOnlyCgroupEffects → H.World → Result Text FreezeTransitionStatus × H.World
  unfolding attest_effect
  attested_freeze_status s w = before_status s (attest_effect s w)

unfoldable attested_checkpoint_and_terminate : Result Text LifecycleCheckpoint
attested_checkpoint_and_terminate = Cgroup.checkpoint_and_terminate

unfoldable attested_restore : LifecycleCheckpoint → Result Text (Unit {0})
attested_restore checkpoint = Cgroup.restore checkpoint
