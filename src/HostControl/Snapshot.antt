-- ===== src/HostControl/Snapshot.antt =====
-- The snapshots that src/process_lifecycle_runtime/host_control.rs accepts.
use ores_otel_sidecar_rs.Prelude.{
  ◌≤◌, ◌<◌, ◌≡◌, ◌≢◌, refl, arith, true, false, List, [], ◌∷◌, map, Eq, All, ok, Text, length,
}
use ores_otel_sidecar_rs.HostControl.{identity_eq}
use ores_otel_sidecar_rs.Prelude.{text_eq}
use ores_otel_sidecar_rs.Paths.{texts_eq}
use ores_otel_sidecar_rs.Record.{valid_identity_segment}
use ores_otel_sidecar_rs.Paths.{is_absolute, components, path_eq, path_starts_with}
use ores_otel_sidecar_rs.Config.Parse.{has_traversal}
use ores_otel_sidecar_rs.ProductControl.{i64_max}
use ores_otel_sidecar_rs.Control.{Socket}
use ores_otel_sidecar_rs.HostControl.{
  Codec, TrustedWorkloadSnapshot, TrustedHostSnapshot, TrustedHostControlClient, Identity, member,
  set_len, validate_workload, validate_workloads, validate_snapshot, validate_identity,
  validate_managed_cgroup, workload_ids, process_identities, managed_cgroups, snapshot,
  max_workloads,
}

-- No value is there twice.
unfoldable pub Distinct : {A : Type 0} → List A → Type 0
Distinct [] = Unit
Distinct (a ∷ xs) = All (λ b. a ≢ b) xs × Distinct xs

module _ {A : Type 0} ⦃e : Eq A⦄ where
  set_len-length : (xs : List A) → set_len xs ≤ length xs
  unfolding set_len
  set_len-length [] = ground arith
  set_len-length (a ∷ xs) = ground (arith, set_len-length xs)

  not_member : (a : A) (xs : List A) → member a xs ≡ false → All (λ b. a ≢ b) xs
  unfolding member
  not_member a [] h = tt
  not_member a (b ∷ xs) h = ground (arith, not_member a xs)

  set_len-Distinct : (xs : List A) → set_len xs ≡ length xs → Distinct xs
  unfolding set_len Distinct
  set_len-Distinct [] h = tt
  set_len-Distinct (a ∷ xs) h =
      ground (arith, set_len-length xs, set_len-Distinct xs, not_member a xs)

-- A control group strictly inside the root.
pub record IsManaged (root path : Text) : Type 0 where
  pub absolute : is_absolute path ≡ true
  pub strict : path_eq path root ≡ false
  pub inside : path_starts_with path root ≡ true
  pub direct : has_traversal path ≡ false

pub record IsTrusted (client : TrustedHostControlClient) (w : TrustedWorkloadSnapshot)
    : Type 0 where
  pub named : valid_identity_segment w.workload_id ≡ true
  pub node : w.assigned_node ≡ client.expected_node
  pub epochs : (0 < w.runtime_epoch) × (0 < w.placement_epoch)
  pub process : (0 < w.pid) × (0 < w.process_start_ticks)
  pub demand : (w.queue_depth ≤ i64_max) × (w.in_flight ≤ i64_max) × (w.idle_for_ms ≤ i64_max)
  pub managed : IsManaged client.cgroup_root w.managed_cgroup

validate_managed_cgroup-IsManaged :
    (path root : Text) → validate_managed_cgroup path root ≡ ok tt → IsManaged root path
unfolding validate_managed_cgroup
validate_managed_cgroup-IsManaged path root h = ground arith

validate_workload-IsTrusted :
    (client : TrustedHostControlClient) (w : TrustedWorkloadSnapshot)
    → validate_workload w client.cgroup_root client.expected_node ≡ ok tt
    → IsTrusted client w
unfolding validate_workload validate_identity
validate_workload-IsTrusted client w h =
    ground (arith, validate_managed_cgroup-IsManaged w.managed_cgroup client.cgroup_root)

validate_workloads-All :
    (client : TrustedHostControlClient) (ws : List TrustedWorkloadSnapshot)
    → validate_workloads ws client.cgroup_root client.expected_node ≡ ok tt
    → All (IsTrusted client) ws
unfolding validate_workloads
validate_workloads-All client [] h = tt
validate_workloads-All client (w ∷ ws) h =
    ground (arith, validate_workload-IsTrusted client w, validate_workloads-All client ws)

pub record IsTrustedHost (client : TrustedHostControlClient) (snap : TrustedHostSnapshot)
    : Type 0 where
  pub version : snap.version ≡ 2
  pub few : length snap.workloads ≤ max_workloads
  pub trusted : All (IsTrusted client) snap.workloads
  pub ids : Distinct (workload_ids snap.workloads)
  pub processes : Distinct (process_identities snap.workloads)
  pub cgroups : Distinct (managed_cgroups snap.workloads)

length-map : {A B : Type 0} (f : A → B) (xs : List A) → length (map f xs) ≡ length xs
length-map f [] = refl
length-map f (x ∷ xs) = omega (arith, length-map f xs)

validate_snapshot-IsTrustedHost :
    (client : TrustedHostControlClient) (snap : TrustedHostSnapshot)
    → validate_snapshot snap client.cgroup_root client.expected_node ≡ ok tt
    → IsTrustedHost client snap
unfolding validate_snapshot
validate_snapshot-IsTrustedHost client snap h =
    let ws = snap.workloads in
    ground (
      arith,
      validate_workloads-All client ws,
      length-map (λ w. w.workload_id) ws,
      length-map {B = Identity} (λ w. (w.pid, w.process_start_ticks)) ws,
      length-map (λ w. components w.managed_cgroup) ws,
      set_len-Distinct (workload_ids ws),
      set_len-Distinct (process_identities ws),
      set_len-Distinct (managed_cgroups ws),
    )

-- A snapshot that the client returns has the protocol's version and at most 1024 workloads. Each is
-- on the client's node, has a valid name, nonzero epochs and process identity, bounded counters
-- and a control group strictly inside the root; no two share a name, a process or a control group.
pub snapshot-IsTrustedHost :
    (C : Codec) (client : TrustedHostControlClient) (s : Socket) (snap : TrustedHostSnapshot)
    → snapshot C client s ≡ ok snap
    → IsTrustedHost client snap
unfolding snapshot
snapshot-IsTrustedHost C client s snap h =
    ground (arith, validate_snapshot-IsTrustedHost client snap)
