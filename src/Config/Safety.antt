-- ===== src/Config/Safety.antt =====
-- The configurations that `from_values` of src/process_lifecycle_runtime/config.rs accepts.
use ores_otel_sidecar_rs.Prelude.{
  ℕ, ◌≤◌, ◌≡◌, ◌≢◌, true, false, none, some, Option, ok, err, refl, ◌>>=◌, arith, bind_ok, Text,
  codes,
}
use ores_otel_sidecar_rs.Record.Segment.{IsSegment, valid_identity_segment_iff}
use ores_otel_sidecar_rs.Maps.{Map}
use ores_otel_sidecar_rs.Paths.{is_absolute, path_eq, path_starts_with, texts_eq}
use ores_otel_sidecar_rs.Config.Parse.{
  Parsed, v1, v2, LifecycleProduct, required_socket, required_host_control_socket, required_value,
  parse_reconcile_seconds, parse_authority_path, parse_cgroup_root, validate_absolute_no_traversal,
  validate_identity_segment, has_traversal, cgroup_mount, parse_product_socket,
  parse_host_control_socket,
}
use ores_otel_sidecar_rs.Config.{
  LifecycleAgentConfig, CommonConfig, common_config, from_v1, V1Paths, v1_paths, v1_switches,
  from_v2, from_values, parse_v2_deployment_identity, parse_v2_lease_authority, is_freeze_thaw,
  LeaseAuthority, effects_mode_from_bool,
}

-- A directory that the agent may own.
pub record IsAuthority (path : Text) : Type 0 where
  pub absolute : is_absolute path ≡ true
  pub direct : has_traversal path ≡ false
  pub below_root : path_eq path (codes "/") ≡ false
  pub below_var : path_eq path (codes "/var") ≡ false
  pub below_lib : path_eq path (codes "/var/lib") ≡ false

pub record IsCgroup (path : Text) : Type 0 where
  pub absolute : is_absolute path ≡ true
  pub direct : has_traversal path ≡ false
  pub strict : path_eq path cgroup_mount ≡ false
  pub inside : path_starts_with path cgroup_mount ≡ true

required-IsAuthority :
    (values : Map) (key path : Text)
    → (required_value values key >>= parse_authority_path) ≡ ok path
    → IsAuthority path
unfolding parse_authority_path validate_absolute_no_traversal
required-IsAuthority values key path h = ground arith

required-IsCgroup :
    (values : Map) (key path : Text)
    → (required_value values key >>= parse_cgroup_root) ≡ ok path
    → IsCgroup path
unfolding parse_cgroup_root validate_absolute_no_traversal
required-IsCgroup values key path h = ground arith

required_seconds :
    (values : Map) (key : Text) (n : ℕ)
    → (required_value values key >>= parse_reconcile_seconds) ≡ ok n
    → (1 ≤ n) × (n ≤ 3600)
unfolding parse_reconcile_seconds
required_seconds values key n h = ground arith

required_product_socket :
    (values : Map) (key socket : Text) (p : LifecycleProduct)
    → (required_value values key >>= parse_product_socket p) ≡ ok socket
    → socket ≡ required_socket p
unfolding parse_product_socket
required_product_socket values key socket p h = ground arith

required_host_socket :
    (values : Map) (key socket : Text) (p : LifecycleProduct)
    → (required_value values key >>= parse_host_control_socket p) ≡ ok socket
    → socket ≡ required_host_control_socket p
unfolding parse_host_control_socket
required_host_socket values key socket p h = ground arith

validate_identity_segment-IsSegment : (s : Text) → validate_identity_segment s ≡ ok tt → IsSegment s
unfolding validate_identity_segment
validate_identity_segment-IsSegment s h = (valid_identity_segment_iff s).0 (ground arith)

record IsCommon (c : CommonConfig) : Type 0 where
  cluster : IsSegment c.cluster
  node : IsSegment c.node
  state_root : IsAuthority c.state_root
  cgroup_root : IsCgroup c.cgroup_root
  seconds : (1 ≤ c.reconcile_seconds) × (c.reconcile_seconds ≤ 3600)

common_config-IsCommon :
    (values : Map) (c : CommonConfig) → common_config values ≡ ok c → IsCommon c
unfolding common_config
common_config-IsCommon values c h = ground (
  arith,
  validate_identity_segment-IsSegment c.cluster,
  validate_identity_segment-IsSegment c.node,
  required-IsAuthority values (codes "ORES_PROCESS_LIFECYCLE_STATE_ROOT") c.state_root,
  required-IsCgroup values (codes "ORES_PROCESS_LIFECYCLE_CGROUP_ROOT") c.cgroup_root,
  required_seconds values (codes "ORES_PROCESS_LIFECYCLE_RECONCILE_SECONDS") c.reconcile_seconds,
)

-- A name that is given and is a segment.
abbrev pub IsNamed : Option Text → Type 0
IsNamed none = ⊥
IsNamed (some name) = IsSegment name

parse_v2_deployment_identity_valid :
    (values : Map) (environment region : Text)
    → parse_v2_deployment_identity values ≡ ok (environment, region)
    → (IsSegment environment) × (IsSegment region)
unfolding parse_v2_deployment_identity
parse_v2_deployment_identity_valid values environment region h = ground (
  arith,
  validate_identity_segment-IsSegment environment,
  validate_identity_segment-IsSegment region,
)

abbrev HasAuthority : LeaseAuthority → Type 0
HasAuthority l = is_freeze_thaw l.effects ≡ true → (l.endpoint ≢ none) × (l.credential ≢ none)

parse_v2_lease_authority-HasAuthority :
    (values : Map) (l : LeaseAuthority) → parse_v2_lease_authority values ≡ ok l → HasAuthority l
unfolding parse_v2_lease_authority
parse_v2_lease_authority-HasAuthority values l h = ground arith

-- What the agent may rely on.
pub record IsSafe (c : LifecycleAgentConfig) : Type 0 where
  pub cluster : IsSegment c.cluster
  pub node : IsSegment c.node
  pub state_root : IsAuthority c.state_root
  pub cgroup_root : IsCgroup c.cgroup_root
  pub seconds : (1 ≤ c.reconcile_seconds) × (c.reconcile_seconds ≤ 3600)
  pub product_socket : c.product_socket ≡ required_socket c.product
  pub host_socket : c.host_control_socket ≡ required_host_control_socket c.product
  pub consistent : c.effects_enabled ≡ is_freeze_thaw c.effects
  pub checkpoints : c.config_version ≡ v1 → IsAuthority c.checkpoint_root
  pub apart : c.config_version ≡ v1 → path_eq c.state_root c.checkpoint_root ≡ false
  pub environment : c.config_version ≡ v2 → IsNamed c.environment
  pub region : c.config_version ≡ v2 → IsNamed c.region
  pub disabled : c.config_version ≡ v2 → c.hibernate_enabled ≡ false
  pub authority :
      c.config_version ≡ v2
      → c.effects_enabled ≡ true
      → (c.lease_endpoint ≢ none) × (c.credential_name ≢ none)

abbrev common_of : LifecycleAgentConfig → CommonConfig
common_of c = record {
  product = c.product;
  cluster = c.cluster;
  node = c.node;
  state_root = c.state_root;
  cgroup_root = c.cgroup_root;
  reconcile_seconds = c.reconcile_seconds;
}

abbrev lease_of : LifecycleAgentConfig → LeaseAuthority
lease_of c = record {
  provider = c.lease_provider;
  effects = c.effects;
  endpoint = c.lease_endpoint;
  credential = c.credential_name;
}

record IsPaths (c : CommonConfig) (p : V1Paths) : Type 0 where
  checkpoint : IsAuthority p.checkpoint_root
  product : p.product_socket ≡ required_socket c.product
  host : p.host_control_socket ≡ required_host_control_socket c.product
  apart : path_eq c.state_root p.checkpoint_root ≡ false

v1_paths-IsPaths :
    (values : Map) (c : CommonConfig) (p : V1Paths) → v1_paths values c ≡ ok p → IsPaths c p
unfolding v1_paths
v1_paths-IsPaths values c p h = ground (
  arith,
  required-IsAuthority values (codes "ORES_PROCESS_LIFECYCLE_CHECKPOINT_ROOT") p.checkpoint_root,
  required_product_socket values (codes "ORES_PROCESS_LIFECYCLE_PRODUCT_SOCKET") p.product_socket
      c.product,
  required_host_socket values (codes "ORES_PROCESS_LIFECYCLE_HOST_CONTROL_SOCKET")
      p.host_control_socket c.product,
)

v1_switches-IsSafe :
    (values : Map) (common : CommonConfig) (paths : V1Paths) (c : LifecycleAgentConfig)
    → IsCommon common
    → IsPaths common paths
    → v1_switches values common paths ≡ ok c
    → IsSafe c
unfolding v1_switches effects_mode_from_bool
v1_switches-IsSafe values common paths c good apart h = ground arith

from_v1-IsSafe : (values : Map) (c : LifecycleAgentConfig) → from_v1 values ≡ ok c → IsSafe c
unfolding from_v1
from_v1-IsSafe values c h =
    let (common, common_eq, more) =
      bind_ok {f = λ common. v1_paths values common >>= v1_switches values common} h in
    let (paths, paths_eq, rest) = bind_ok {f = v1_switches values common} more in
    v1_switches-IsSafe values common paths c (common_config-IsCommon values common common_eq)
      (v1_paths-IsPaths values common paths paths_eq) rest

from_v2-IsNamed :
    (values : Map) (c : LifecycleAgentConfig)
    → from_v2 values ≡ ok c
    → IsNamed c.environment × IsNamed c.region
unfolding from_v2
from_v2-IsNamed values c h = go (parse_v2_deployment_identity values) refl
  where
    go :
        (r : Parsed (Text × Text))
        → parse_v2_deployment_identity values ≡ r
        → IsNamed c.environment × IsNamed c.region
    go (err e) is = ground (arith, is)
    go (ok (environment, region)) is =
        let (e, r) = parse_v2_deployment_identity_valid values environment region is in
        let given : c.environment ≡ some environment = ground (arith, is) in
        let placed : c.region ≡ some region = ground (arith, is) in (rw given e, rw placed r)

from_v2-IsSafe : (values : Map) (c : LifecycleAgentConfig) → from_v2 values ≡ ok c → IsSafe c
unfolding from_v2
from_v2-IsSafe values c h = ground (
  arith,
  common_config-IsCommon values (common_of c),
  parse_v2_lease_authority-HasAuthority values (lease_of c),
  from_v2-IsNamed values c,
)

-- A configuration that is accepted names a cluster and a node that are valid segments, and in
-- version 2 an environment and a region that are, a state directory that is absolute, has
-- no `..` and is none of `/`, `/var` and `/var/lib`, a control group strictly inside the mount,
-- 1 to 3600 seconds, and the sockets of its product. In version 1 the checkpoint directory is one
-- that the agent may own, and not the state directory; in version 2 hibernation is disabled, and
-- effects are enabled only with a lease endpoint and a credential.
pub from_values-IsSafe :
    (values : Map) (c : LifecycleAgentConfig) → from_values values ≡ ok c → IsSafe c
unfolding from_values
from_values-IsSafe values c h = ground (arith, from_v1-IsSafe values c, from_v2-IsSafe values c)
