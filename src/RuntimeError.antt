-- ===== src/RuntimeError.antt =====
-- The errors of src/process_lifecycle_runtime.rs.
use ores_otel_sidecar_rs.Prelude.{Text, codes}

pub data LifecycleRuntimeError : Type 0 where
  invalid_cli_configuration invalid_arguments invalid_product invalid_identity invalid_path
        invalid_product_socket invalid_host_control_socket invalid_reconcile_seconds invalid_boolean
        invalid_config_version unsupported_lease_backend unsupported_lease_provider
        invalid_lease_endpoint invalid_credential_name invalid_effects_mode missing_lease_authority
        unsupported_host missing_cgroup_v2 missing_host_directory symlink_host_directory
        product_control_unavailable control_response_too_large invalid_control_response
        invalid_control_request product_drain_timeout product_demand_returned product_lifecycle_busy
        host_control_unavailable host_control_response_too_large invalid_host_control_response
        invalid_host_control_request host_identity_mismatch host_demand_changed
        mutation_runtime_not_enabled :
      LifecycleRuntimeError

unfoldable pub message : LifecycleRuntimeError → Text
message invalid_cli_configuration = codes "lifecycle CLI contract is invalid"
message invalid_arguments = codes "lifecycle CLI arguments are invalid"
message invalid_product = codes "unsupported lifecycle product adapter"
message invalid_identity = codes "invalid lifecycle deployment identity"
message invalid_path = codes "invalid lifecycle authority path"
message invalid_product_socket = codes "product socket does not match the product contract"
message invalid_host_control_socket =
    codes "host-control socket does not match the product contract"
message invalid_reconcile_seconds = codes "invalid lifecycle reconciliation cadence"
message invalid_boolean = codes "invalid lifecycle boolean value"
message invalid_config_version = codes "unsupported lifecycle configuration contract version"
message unsupported_lease_backend = codes "unsupported v1 lifecycle lease backend"
message unsupported_lease_provider = codes "unsupported lifecycle lease provider"
message invalid_lease_endpoint = codes "invalid lifecycle lease authority endpoint"
message invalid_credential_name = codes "invalid lifecycle systemd credential name"
message invalid_effects_mode = codes "unsupported lifecycle effects mode"
message missing_lease_authority =
    codes "active lifecycle effects require a lease endpoint and credential name"
message unsupported_host = codes "process lifecycle agent requires Linux"
message missing_cgroup_v2 = codes "cgroup v2 is unavailable"
message missing_host_directory = codes "required lifecycle host directory is missing"
message symlink_host_directory = codes "lifecycle host directory must not be a symlink"
message product_control_unavailable = codes "product lifecycle control is unavailable"
message control_response_too_large = codes "product lifecycle response exceeded its bound"
message invalid_control_response = codes "product lifecycle response is invalid"
message invalid_control_request = codes "product lifecycle request is invalid"
message product_drain_timeout = codes "product runtime drain timed out"
message product_demand_returned = codes "product runtime observed returned demand"
message product_lifecycle_busy = codes "product lifecycle control is busy"
message host_control_unavailable = codes "trusted host lifecycle control is unavailable"
message host_control_response_too_large = codes "trusted host lifecycle response exceeded its bound"
message invalid_host_control_response = codes "trusted host lifecycle response is invalid"
message invalid_host_control_request = codes "trusted host lifecycle request is invalid"
message host_identity_mismatch = codes "trusted host lifecycle identity is stale or mismatched"
message host_demand_changed = codes "trusted host lifecycle demand changed during transition"
message mutation_runtime_not_enabled =
    codes
      "lifecycle effects require durable store, lease transport, attestation, and recovery wiring"
