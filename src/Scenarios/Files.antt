-- ===== src/Scenarios/Files.antt =====
-- A sidecar file with one sidecar, loaded into a configuration that listens on 127.0.0.1:9090, and
-- a batch for it.
use ores_otel_sidecar_rs.Prelude.{
  ◌≡◌, ◌↔◌, refl, false, none, some, [], ◌∷◌, ok, codes, Text-discrete, bytes,
}
use ores_otel_sidecar_rs.Bind.{SocketAddr, v4, Resolver, parse_bind}
use ores_otel_sidecar_rs.Bind.Guard.{IsGuarded, parse_bind_iff}
use ores_otel_sidecar_rs.Values.{get, apply_patch}
use ores_otel_sidecar_rs.Maps.{lookup, contains, contains_key, collect_keys, collect}
use ores_otel_sidecar_rs.Batch.{upsert, validate_batch_shape, admit}
use ores_otel_sidecar_rs.Updates.{apply_batch, apply_admission, apply_values}
use ores_otel_sidecar_rs.Updates.Runs.{Delivery, batch, deliver_all}
use ores_otel_sidecar_rs.FileConfig.{
  SidecarDefinition, OresSidecarFile, ores_redis_lru_cache, receive_only, config_protocol,
  validate_file,
}
use ores_otel_sidecar_rs.SidecarConfig.{SidecarConfig, default_overrides, with_loaded_sidecar_file}
use ores_otel_sidecar_rs.SidecarConfig.Loaded.{
  Loads, with_loaded_sidecar_file-Loads, IsAllowed, loaded_get-IsAllowed,
}

abbrev loopback_9090 : SocketAddr
loopback_9090 = record { ip = v4 2130706433; port = 9090 }

abbrev sample_resolver : Resolver
sample_resolver = record { parse = λ text. some loopback_9090; to_socket_addrs = λ text. none }

parse_bind_iff_example :
    (parse_bind sample_resolver (codes " 127.0.0.1:9090") false ≡ ok loopback_9090)
    ↔ IsGuarded sample_resolver (codes " 127.0.0.1:9090") false loopback_9090
parse_bind_iff_example =
    parse_bind_iff sample_resolver (codes " 127.0.0.1:9090") false loopback_9090

abbrev sample_definition : SidecarDefinition
sample_definition = record {
  id = codes "svc";
  directory = none;
  startup_config = none;
  runtime_updates = record {
    provider = ores_redis_lru_cache;
    update_mode = receive_only;
    poll_seconds = 60;
    namespace = codes "n";
    cache = codes "c";
  };
  runtime_mutable = codes "LOG" ∷ [];
  values = record { key = codes "LOG"; value = codes "info" } ∷ [];
}

abbrev sample_file : OresSidecarFile
sample_file = record { schema = config_protocol; sidecars = sample_definition ∷ [] }

abbrev sample_config : SidecarConfig
sample_config = record {
  identity = record { service = codes "svc"; default_bind = codes "127.0.0.1:9090" };
  listen = loopback_9090;
  overrides = default_overrides;
  runtime_controller = record {
    values = record { mutable = []; baseline = []; overrides = []; poisoned = false };
    target = none;
    state = record { revision = 0; stale = false; backend_keys = [] };
    poisoned = false;
  };
  runtime_updates = none;
}

abbrev loaded_config : SidecarConfig
loaded_config = record sample_config {
  runtime_controller = record {
    values = record {
      mutable = codes "LOG" ∷ [];
      baseline = (codes "LOG", codes "info") ∷ [];
      overrides = [];
      poisoned = false;
    };
    target = some (record { namespace = codes "n"; cache = codes "c" });
    state = record { revision = 0; stale = false; backend_keys = [] };
    poisoned = false;
  };
  runtime_updates = some sample_definition.runtime_updates;
}

sample_file_valid : validate_file sample_file ≡ ok tt
unfolding validate_file Text-discrete bytes contains collect_keys contains_key
sample_file_valid = refl

sample_loaded : with_loaded_sidecar_file sample_config sample_file ≡ ok loaded_config
unfolding with_loaded_sidecar_file Text-discrete bytes contains collect_keys contains_key collect
sample_loaded = refl

abbrev debug_batch : Delivery
debug_batch =
    batch
      (record {
        namespace = codes "n";
        cache = codes "c";
        revision = 1;
        operation = upsert;
        entries = (codes "LOG", codes "debug") ∷ [];
        keys = [];
      })
      (tt, tt)

sample_read :
    get (deliver_all (debug_batch ∷ []) loaded_config.runtime_controller).values (codes "LOG")
    ≡ ok (some (codes "debug"))
unfolding get apply_batch Text-discrete validate_batch_shape apply_admission admit apply_values
    apply_patch contains bytes lookup collect
sample_read = refl

with_loaded_sidecar_file-Loads_example :
    Loads sample_config sample_file (with_loaded_sidecar_file sample_config sample_file)
with_loaded_sidecar_file-Loads_example =
    with_loaded_sidecar_file-Loads sample_config sample_file sample_file_valid

loaded_get-IsAllowed_example : IsAllowed sample_config sample_file (codes "LOG") (codes "debug")
loaded_get-IsAllowed_example =
    loaded_get-IsAllowed sample_config loaded_config sample_file (debug_batch ∷ []) (codes "LOG")
      (codes "debug") sample_file_valid sample_loaded sample_read
