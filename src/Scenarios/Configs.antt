-- ===== src/Scenarios/Configs.antt =====
-- A configuration of version 2.
use ores_otel_sidecar_rs.Prelude.{
  ◌≡◌, refl, ok, err, true, false, some, [], ◌∷◌, Text-discrete, bytes, codes,
}
use ores_otel_sidecar_rs.Strings.{parse_unsigned}
use ores_otel_sidecar_rs.Maps.{Map}
use ores_otel_sidecar_rs.Paths.{Texts-discrete}
use ores_otel_sidecar_rs.RuntimeError.{missing_lease_authority}
use ores_otel_sidecar_rs.Config.Parse.{
  v2, freeze_thaw, scintilla_run, cloudflare_durable_object, required_value,
  parse_reconcile_seconds, parse_authority_path, parse_cgroup_root, parse_config_version,
  parse_product, parse_lease_provider, parse_effects_mode, validate_identity_segment,
  validate_credential_name, validate_lease_endpoint, validate_socket_trust_split,
  reject_nonempty_legacy_value,
}
use ores_otel_sidecar_rs.Config.{
  LifecycleAgentConfig, from_values, from_v2, common_config, parse_v2_deployment_identity,
  parse_v2_lease_authority, reject_v2_legacy_mutation_switches,
}
use ores_otel_sidecar_rs.Config.Safety.{IsSafe, from_values-IsSafe}

abbrev bare_values : Map
bare_values =
    (codes "ORES_PROCESS_LIFECYCLE_CONFIG_VERSION", codes "v2")
    ∷ (codes "ORES_PROCESS_LIFECYCLE_PRODUCT", codes " scintilla-run ")
    ∷ (codes "ORES_PROCESS_LIFECYCLE_CLUSTER", codes "c1")
    ∷ (codes "ORES_PROCESS_LIFECYCLE_NODE", codes "node-a")
    ∷ (codes "ORES_PROCESS_LIFECYCLE_STATE_ROOT", codes "/var/lib/ores")
    ∷ (codes "ORES_PROCESS_LIFECYCLE_CGROUP_ROOT", codes "/sys/fs/cgroup/w.slice")
    ∷ (codes "ORES_PROCESS_LIFECYCLE_RECONCILE_SECONDS", codes "30")
    ∷ (codes "ORES_PROCESS_LIFECYCLE_ENVIRONMENT", codes "prod")
    ∷ (codes "ORES_PROCESS_LIFECYCLE_REGION", codes "eu")
    ∷ (codes "ORES_PROCESS_LIFECYCLE_LEASE_PROVIDER", codes "cloudflare-do")
    ∷ (codes "ORES_PROCESS_LIFECYCLE_EFFECTS", codes "freeze_thaw")
    ∷ []

abbrev sample_values : Map
sample_values =
    (codes "ORES_PROCESS_LIFECYCLE_LEASE_ENDPOINT", codes "https://lease.example/")
    ∷ (codes "ORES_PROCESS_LIFECYCLE_CREDENTIAL_NAME", codes "lease-token")
    ∷ bare_values

abbrev sample_config : LifecycleAgentConfig
sample_config = record {
  config_version = v2;
  product = scintilla_run;
  cluster = codes "c1";
  environment = some (codes "prod");
  region = some (codes "eu");
  node = codes "node-a";
  state_root = codes "/var/lib/ores";
  checkpoint_root = codes "/var/lib/ores/checkpoints-disabled";
  cgroup_root = codes "/sys/fs/cgroup/w.slice";
  product_socket = codes "/run/scintilla-lifecycle/product/control.sock";
  host_control_socket = codes "/run/scintilla-lifecycle/host/control.sock";
  reconcile_seconds = 30;
  lease_provider = cloudflare_durable_object;
  lease_endpoint = some (codes "https://lease.example");
  credential_name = some (codes "lease-token");
  effects = freeze_thaw;
  hibernate_enabled = false;
  effects_enabled = true;
}

config_run : from_values sample_values ≡ ok sample_config
unfolding from_values from_v2 common_config parse_v2_deployment_identity parse_v2_lease_authority
    reject_v2_legacy_mutation_switches required_value parse_reconcile_seconds parse_authority_path
    parse_cgroup_root parse_config_version parse_product parse_lease_provider parse_effects_mode
    validate_identity_segment validate_credential_name validate_lease_endpoint
    validate_socket_trust_split reject_nonempty_legacy_value Text-discrete Texts-discrete bytes
    parse_unsigned
config_run = refl

unleased_run : from_values bare_values ≡ err missing_lease_authority
unfolding from_values from_v2 common_config parse_v2_deployment_identity parse_v2_lease_authority
    reject_v2_legacy_mutation_switches required_value parse_reconcile_seconds parse_authority_path
    parse_cgroup_root parse_config_version parse_product parse_lease_provider parse_effects_mode
    validate_identity_segment reject_nonempty_legacy_value Text-discrete Texts-discrete bytes
    parse_unsigned
unleased_run = refl

from_values-IsSafe_example : IsSafe sample_config
from_values-IsSafe_example = from_values-IsSafe sample_values sample_config config_run
