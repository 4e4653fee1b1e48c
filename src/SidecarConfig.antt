-- ===== src/SidecarConfig.antt =====
-- src/config.rs: the configuration of the sidecar, with the hooks of src/hooks.rs.
pub mod Loaded
use ores_otel_sidecar_rs.Prelude.{
  Bool, true, false, Option, none, some, if◌then◌else◌, Result, ok, err, ◌>>=◌, Text, List, [], ℕ,
}
use ores_otel_sidecar_rs.Bind.{Resolver, SocketAddr, parse_bind, allow_non_loopback_from_env}
use ores_otel_sidecar_rs.Values
use ores_otel_sidecar_rs.Values.{RuntimeValues}
use ores_otel_sidecar_rs.Updates
use ores_otel_sidecar_rs.Updates.{RuntimeUpdateController, for_target}
use ores_otel_sidecar_rs.FileConfig.{
  RuntimeUpdatePolicy, OresSidecarFile, ResolvedSidecarFile, is_enabled, resolve, load,
  load_optional, ReadError, Outcome,
}

pub record SidecarIdentity : Type 0 where
  pub service : Text
  pub default_bind : Text

-- The hooks of `SidecarOverrides` that a configuration asks.
pub record SidecarOverrides : Type 0 where
  pub bind_raw : Text → Text
  pub allow_non_loopback : Bool → Bool

abbrev pub default_overrides : SidecarOverrides
default_overrides = record { bind_raw = λ raw. raw; allow_non_loopback = λ from_env. from_env }

-- The closures that a product may give.
pub record SidecarHooks : Type 0 where
  pub bind_hook : Option (Text → Text)
  pub allow_hook : Option (Bool → Bool)

abbrev apply_hook : {A : Type 0} → Option (A → A) → A → A
apply_hook none a = a
apply_hook (some f) a = f a

unfoldable hooked : SidecarHooks → SidecarOverrides
hooked hooks = record {
  bind_raw = apply_hook hooks.bind_hook;
  allow_non_loopback = apply_hook hooks.allow_hook;
}

-- The values are behind the handle that the controller holds too: they are its own.
pub record SidecarConfig : Type 0 where
  pub identity : SidecarIdentity
  pub listen : SocketAddr
  pub overrides : SidecarOverrides
  pub runtime_controller : RuntimeUpdateController
  pub runtime_updates : Option RuntimeUpdatePolicy

-- `RuntimeValues::default()`
abbrev default_values : RuntimeValues
default_values = record { mutable = []; baseline = []; overrides = []; poisoned = false }

unfoldable pub runtime_values : SidecarConfig → RuntimeValues
runtime_values config = config.runtime_controller.values

unfoldable from_bind_with :
    Resolver → SidecarIdentity → Text → Bool → SidecarOverrides → Outcome SidecarConfig
unfolding parse_bind Updates.new
from_bind_with R identity raw allow_non_loopback overrides =
    parse_bind R raw allow_non_loopback >>= λ listen. ok (record {
      identity = identity;
      listen = listen;
      overrides = overrides;
      runtime_controller = Updates.new default_values;
      runtime_updates = none;
    })

abbrev or_bind : Text → Option Text → Text
or_bind default_bind none = default_bind
or_bind default_bind (some raw) = raw

-- The values of the two environment variables, where they are set.
unfoldable try_from_env_with :
    Resolver
    → SidecarIdentity
    → Option Text
    → Option Text
    → SidecarOverrides
    → Outcome SidecarConfig
unfolding from_bind_with allow_non_loopback_from_env
try_from_env_with R identity bind_env allow_env overrides =
    from_bind_with R identity (overrides.bind_raw (or_bind identity.default_bind bind_env))
      (overrides.allow_non_loopback (allow_non_loopback_from_env allow_env)) overrides

unfoldable pub controller_of : RuntimeValues → RuntimeUpdatePolicy → Outcome RuntimeUpdateController
unfolding is_enabled for_target Updates.new
controller_of values policy =
    if is_enabled policy
    then for_target values policy.namespace policy.cache
    else ok (Updates.new values)

abbrev pub configured : SidecarConfig → ResolvedSidecarFile → Outcome SidecarConfig
configured config resolved =
    controller_of resolved.runtime_values resolved.definition.runtime_updates >>= λ controller.
    ok (record config {
      runtime_controller = controller;
      runtime_updates = some resolved.definition.runtime_updates;
    })

unfoldable pub with_loaded_sidecar_file : SidecarConfig → OresSidecarFile → Outcome SidecarConfig
unfolding resolve controller_of
with_loaded_sidecar_file config file = resolve file config.identity.service >>= configured config

module _ (from_toml : Text → Option OresSidecarFile) where
  unfoldable with_sidecar_file : SidecarConfig → Result ReadError (List ℕ) → Outcome SidecarConfig
  unfolding load with_loaded_sidecar_file
  with_sidecar_file config read = load from_toml read >>= with_loaded_sidecar_file config

  abbrev with_found : SidecarConfig → Option OresSidecarFile → Outcome SidecarConfig
  with_found config none = ok config
  with_found config (some file) = with_loaded_sidecar_file config file

  unfoldable with_optional_sidecar_file :
      SidecarConfig → Result ReadError (List ℕ) → Outcome SidecarConfig
  unfolding load_optional with_loaded_sidecar_file
  with_optional_sidecar_file config read = load_optional from_toml read >>= with_found config
