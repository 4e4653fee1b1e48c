-- ===== src/Config.antt =====
-- src/process_lifecycle_runtime/config.rs: the configuration of the lifecycle agent, from its
-- values. `preflight_host` reads the host and is not modelled.
pub mod Parse
pub mod Safety
use ores_otel_sidecar_rs.Prelude.{
  ℕ, Bool, true, false, not, ◌&&◌, ◌||◌, Option, none, some, ltb, leb, ◌≟◌, if◌then◌else◌, Result,
  ok, err, ◌>>=◌, ◌>>◌, reject_if, Text, text_eq, codes,
}
use ores_otel_sidecar_rs.Maps.{Map}
use ores_otel_sidecar_rs.Paths.{path_eq, join}
use ores_otel_sidecar_rs.RuntimeError.{
  invalid_arguments, invalid_path, unsupported_lease_backend, missing_lease_authority,
}
use ores_otel_sidecar_rs.Config.Parse.{
  LifecycleConfigVersion, v1, v2, LifecycleEffectsMode, observe, freeze_thaw,
  LifecycleLeaseProvider, cloudflare_durable_object, LifecycleProduct, required_socket,
  required_host_control_socket, lifecycle_lease_key_prefix, Parsed, required_value, optional_value,
  parse_some, parse_bool, optional_bool, reject_nonempty_legacy_value, parse_config_version,
  parse_product, parse_lease_provider, parse_effects_mode, validate_identity_segment,
  validate_credential_name, validate_lease_endpoint, parse_authority_path, parse_cgroup_root,
  parse_product_socket, parse_host_control_socket, validate_socket_trust_split,
  parse_reconcile_seconds,
}

pub record LifecycleAgentConfig : Type 0 where
  pub config_version : LifecycleConfigVersion
  pub product : LifecycleProduct
  pub cluster : Text
  pub environment : Option Text
  pub region : Option Text
  pub node : Text
  pub state_root : Text
  pub checkpoint_root : Text
  pub cgroup_root : Text
  pub product_socket : Text
  pub host_control_socket : Text
  pub reconcile_seconds : ℕ
  pub lease_provider : LifecycleLeaseProvider
  pub lease_endpoint : Option Text
  pub credential_name : Option Text
  pub effects : LifecycleEffectsMode
  pub hibernate_enabled : Bool
  pub effects_enabled : Bool

pub record CommonConfig : Type 0 where
  pub product : LifecycleProduct
  pub cluster : Text
  pub node : Text
  pub state_root : Text
  pub cgroup_root : Text
  pub reconcile_seconds : ℕ

-- `CommonConfig::from_values`
unfoldable pub common_config : Map → Parsed CommonConfig
common_config values = do
  product ← required_value values (codes "ORES_PROCESS_LIFECYCLE_PRODUCT") >>= parse_product
  cluster ← required_value values (codes "ORES_PROCESS_LIFECYCLE_CLUSTER")
  node ← required_value values (codes "ORES_PROCESS_LIFECYCLE_NODE")
  validate_identity_segment cluster
  validate_identity_segment node
  state_root ←
      required_value values (codes "ORES_PROCESS_LIFECYCLE_STATE_ROOT") >>= parse_authority_path
  cgroup_root ←
      required_value values (codes "ORES_PROCESS_LIFECYCLE_CGROUP_ROOT") >>= parse_cgroup_root
  reconcile_seconds ←
      required_value values (codes "ORES_PROCESS_LIFECYCLE_RECONCILE_SECONDS")
      >>= parse_reconcile_seconds
  ok (record {
    product = product;
    cluster = cluster;
    node = node;
    state_root = state_root;
    cgroup_root = cgroup_root;
    reconcile_seconds = reconcile_seconds;
  })

unfoldable pub effects_mode_from_bool : Bool → LifecycleEffectsMode
effects_mode_from_bool enabled = if enabled then freeze_thaw else observe

abbrev pub is_freeze_thaw : LifecycleEffectsMode → Bool
is_freeze_thaw observe = false
is_freeze_thaw freeze_thaw = true

pub record V1Paths : Type 0 where
  pub checkpoint_root : Text
  pub product_socket : Text
  pub host_control_socket : Text

-- The paths that `from_v1` reads after the common values.
unfoldable pub v1_paths : Map → CommonConfig → Parsed V1Paths
unfolding path_eq
v1_paths values common = do
  checkpoint_root ←
      required_value values (codes "ORES_PROCESS_LIFECYCLE_CHECKPOINT_ROOT")
      >>= parse_authority_path
  product_socket ←
      required_value values (codes "ORES_PROCESS_LIFECYCLE_PRODUCT_SOCKET")
      >>= parse_product_socket common.product
  host_control_socket ←
      required_value values (codes "ORES_PROCESS_LIFECYCLE_HOST_CONTROL_SOCKET")
      >>= parse_host_control_socket common.product
  validate_socket_trust_split product_socket host_control_socket
  reject_if (path_eq common.state_root checkpoint_root) invalid_path
  ok (record {
    checkpoint_root = checkpoint_root;
    product_socket = product_socket;
    host_control_socket = host_control_socket;
  })

-- The rest of `from_v1`.
unfoldable pub v1_switches : Map → CommonConfig → V1Paths → Parsed LifecycleAgentConfig
unfolding effects_mode_from_bool
v1_switches values common paths = do
  backend ← required_value values (codes "ORES_PROCESS_LIFECYCLE_LEASE_BACKEND")
  reject_if (not (backend ≟ codes "cloudflare-do")) unsupported_lease_backend
  hibernate_enabled ←
      required_value values (codes "ORES_PROCESS_LIFECYCLE_HIBERNATE_ENABLED") >>= parse_bool
  effects_enabled ←
      required_value values (codes "ORES_PROCESS_LIFECYCLE_EFFECTS_ENABLED") >>= parse_bool
  ok (record {
    config_version = v1;
    product = common.product;
    cluster = common.cluster;
    environment = none;
    region = none;
    node = common.node;
    state_root = common.state_root;
    checkpoint_root = paths.checkpoint_root;
    cgroup_root = common.cgroup_root;
    product_socket = paths.product_socket;
    host_control_socket = paths.host_control_socket;
    reconcile_seconds = common.reconcile_seconds;
    lease_provider = cloudflare_durable_object;
    lease_endpoint = none;
    credential_name = none;
    effects = effects_mode_from_bool effects_enabled;
    hibernate_enabled = hibernate_enabled;
    effects_enabled = effects_enabled;
  })

unfoldable pub from_v1 : Map → Parsed LifecycleAgentConfig
from_v1 values = do
  common ← common_config values
  paths ← v1_paths values common
  v1_switches values common paths

unfoldable pub parse_v2_deployment_identity : Map → Parsed (Text × Text)
parse_v2_deployment_identity values = do
  environment ← required_value values (codes "ORES_PROCESS_LIFECYCLE_ENVIRONMENT")
  region ← required_value values (codes "ORES_PROCESS_LIFECYCLE_REGION")
  validate_identity_segment environment
  validate_identity_segment region
  ok (environment, region)

abbrev absent : Option Text → Bool
absent none = true
absent (some value) = false

pub record LeaseAuthority : Type 0 where
  pub provider : LifecycleLeaseProvider
  pub effects : LifecycleEffectsMode
  pub endpoint : Option Text
  pub credential : Option Text

unfoldable pub parse_v2_lease_authority : Map → Parsed LeaseAuthority
unfolding optional_value
parse_v2_lease_authority values = do
  provider ←
      required_value values (codes "ORES_PROCESS_LIFECYCLE_LEASE_PROVIDER") >>= parse_lease_provider
  effects ← required_value values (codes "ORES_PROCESS_LIFECYCLE_EFFECTS") >>= parse_effects_mode
  endpoint ←
      parse_some validate_lease_endpoint
        (optional_value values (codes "ORES_PROCESS_LIFECYCLE_LEASE_ENDPOINT"))
  credential ←
      parse_some validate_credential_name
        (optional_value values (codes "ORES_PROCESS_LIFECYCLE_CREDENTIAL_NAME"))
  reject_if (is_freeze_thaw effects && (absent endpoint || absent credential))
      missing_lease_authority
  ok (record {
    provider = provider;
    effects = effects;
    endpoint = endpoint;
    credential = credential;
  })

abbrev or_false : Option Bool → Bool
or_false none = false
or_false (some b) = b

-- The second switch is read only if the first is off.
unfoldable pub reject_v2_legacy_mutation_switches : Map → Parsed (Unit {0})
unfolding optional_bool
reject_v2_legacy_mutation_switches values = do
  hibernate ← optional_bool values (codes "ORES_PROCESS_LIFECYCLE_HIBERNATE_ENABLED")
  reject_if (or_false hibernate) invalid_arguments
  effects ← optional_bool values (codes "ORES_PROCESS_LIFECYCLE_EFFECTS_ENABLED")
  reject_if (or_false effects) invalid_arguments
  ok tt

unfoldable pub from_v2 : Map → Parsed LifecycleAgentConfig
unfolding required_socket required_host_control_socket join
from_v2 values = do
  common ← common_config values
  identity ← parse_v2_deployment_identity values
  reject_nonempty_legacy_value values (codes "ORES_PROCESS_LIFECYCLE_PRODUCT_SOCKET")
  reject_nonempty_legacy_value values (codes "ORES_PROCESS_LIFECYCLE_HOST_CONTROL_SOCKET")
  reject_v2_legacy_mutation_switches values
  lease ← parse_v2_lease_authority values
  let product_socket = required_socket common.product
  let host_control_socket = required_host_control_socket common.product
  validate_socket_trust_split product_socket host_control_socket
  ok (record {
    config_version = v2;
    product = common.product;
    cluster = common.cluster;
    environment = some identity.0;
    region = some identity.1;
    node = common.node;
    state_root = common.state_root;
    checkpoint_root = join common.state_root (codes "checkpoints-disabled");
    cgroup_root = common.cgroup_root;
    product_socket = product_socket;
    host_control_socket = host_control_socket;
    reconcile_seconds = common.reconcile_seconds;
    lease_provider = lease.provider;
    lease_endpoint = lease.endpoint;
    credential_name = lease.credential;
    effects = lease.effects;
    hibernate_enabled = false;
    effects_enabled = is_freeze_thaw lease.effects;
  })

abbrev or_default : Option Text → Text
or_default none = codes "v1"
or_default (some version) = version

abbrev from_version : Map → LifecycleConfigVersion → Parsed LifecycleAgentConfig
from_version values v1 = from_v1 values
from_version values v2 = from_v2 values

unfoldable pub from_values : Map → Parsed LifecycleAgentConfig
unfolding optional_value
from_values values =
    parse_config_version
      (or_default (optional_value values (codes "ORES_PROCESS_LIFECYCLE_CONFIG_VERSION")))
    >>= from_version values

unfoldable lease_key_prefix : LifecycleAgentConfig → Text
unfolding lifecycle_lease_key_prefix
lease_key_prefix config = lifecycle_lease_key_prefix config.product
