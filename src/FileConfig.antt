-- ===== src/FileConfig.antt =====
-- src/file_config.rs: the sidecar file. The TOML parser is a parameter.
pub mod Checked
use ores_otel_sidecar_rs.Prelude.{
  ℕ, Bool, true, false, not, ◌&&◌, ◌||◌, Option, none, some, List, [], ◌∷◌, ltb, leb, ◌==◌, ◌≟◌,
  if◌then◌else◌, Result, ok, err, ◌>>=◌, ◌>>◌, reject_if, Text, text_eq, codes, bytes, byte_len,
  length, map, all, is_empty, is_ascii_alphanumeric,
}
use ores_otel_sidecar_rs.Strings.Decode.{from_utf8}
use ores_otel_sidecar_rs.SidecarError.{SidecarError, invalid_config, missing_sidecar, io}
use ores_otel_sidecar_rs.Maps.{KeySet, contains, collect_keys}
use ores_otel_sidecar_rs.Values
use ores_otel_sidecar_rs.Values.{RuntimeValues}
use ores_otel_sidecar_rs.Batch.{valid_keyspace_segment}

abbrev pub config_protocol : Text
config_protocol = codes "ores.sidecar/config/v1"

abbrev default_startup_config : Text
default_startup_config = codes ".cli-flags.toml"

abbrev max_config_file_bytes : ℕ
max_config_file_bytes = 262144

abbrev max_sidecars : ℕ
max_sidecars = 64

abbrev pub max_reconcile_seconds : ℕ
max_reconcile_seconds = 180

pub data RuntimeUpdateProvider : Type 0 where
  no_provider ores_redis_lru_cache : RuntimeUpdateProvider

pub data RuntimeUpdateMode : Type 0 where
  no_updates receive_only : RuntimeUpdateMode

pub record RuntimeUpdatePolicy : Type 0 where
  pub provider : RuntimeUpdateProvider
  pub update_mode : RuntimeUpdateMode
  pub poll_seconds : ℕ
  pub namespace : Text
  pub cache : Text

pub record RuntimeValueDefinition : Type 0 where
  pub key : Text
  pub value : Text

pub record SidecarDefinition : Type 0 where
  pub id : Text
  pub directory : Option Text
  pub startup_config : Option Text
  pub runtime_updates : RuntimeUpdatePolicy
  pub runtime_mutable : List Text
  pub values : List RuntimeValueDefinition

pub record OresSidecarFile : Type 0 where
  pub schema : Text
  pub sidecars : List SidecarDefinition

pub record ResolvedSidecarFile : Type 0 where
  pub definition : SidecarDefinition
  pub runtime_values : RuntimeValues

abbrev pub Outcome : Type 0 → Type 0
Outcome = Result SidecarError

unfoldable accepts_keyspace : RuntimeUpdatePolicy → Text → Text → Bool
accepts_keyspace policy namespace cache = policy.namespace ≟ namespace && policy.cache ≟ cache

abbrev both_enabled : RuntimeUpdateProvider → RuntimeUpdateMode → Bool
both_enabled ores_redis_lru_cache receive_only = true
both_enabled ores_redis_lru_cache no_updates = false
both_enabled no_provider receive_only = false
both_enabled no_provider no_updates = false

abbrev both_disabled : RuntimeUpdateProvider → RuntimeUpdateMode → Bool
both_disabled no_provider no_updates = true
both_disabled no_provider receive_only = false
both_disabled ores_redis_lru_cache receive_only = false
both_disabled ores_redis_lru_cache no_updates = false

unfoldable pub is_enabled : RuntimeUpdatePolicy → Bool
is_enabled policy = both_enabled policy.provider policy.update_mode

abbrev or_default : Option Text → Text
or_default none = default_startup_config
or_default (some name) = name

unfoldable startup_config_of : SidecarDefinition → Text
startup_config_of sidecar = or_default sidecar.startup_config

unfoldable is_identity_byte : ℕ → Bool
unfolding is_ascii_alphanumeric
is_identity_byte b = is_ascii_alphanumeric b || b == b'-' || b == b'_' || b == b'.'

unfoldable pub validate_identity : Text → Outcome (Unit {0})
unfolding is_identity_byte
validate_identity id =
    reject_if (not (not (is_empty id) && leb (byte_len id) 128 && all is_identity_byte (bytes id)))
      (invalid_config (codes "sidecar identity has an invalid shape"))

unfoldable pub validate_runtime_policy : RuntimeUpdatePolicy → Outcome (Unit {0})
unfolding valid_keyspace_segment
validate_runtime_policy policy = do
  reject_if
      (not (leb 60 policy.poll_seconds && leb policy.poll_seconds max_reconcile_seconds)
        || not (valid_keyspace_segment policy.namespace)
        || not (valid_keyspace_segment policy.cache))
      (invalid_config (codes "runtime update policy is outside Redis-LRU-compatible bounds"))
  reject_if
      (not (
        both_disabled policy.provider policy.update_mode
        || both_enabled policy.provider policy.update_mode))
      (invalid_config (codes "runtime update provider and mode are incompatible"))

abbrev is_some_empty : Option Text → Bool
is_some_empty none = false
is_some_empty (some t) = is_empty t

unfoldable pub values_of : SidecarDefinition → Outcome RuntimeValues
unfolding Values.new
values_of sidecar =
    Values.new sidecar.runtime_mutable (map (λ entry. (entry.key, entry.value)) sidecar.values)

unfoldable pub validate_sidecar_shape : SidecarDefinition → Outcome (Unit {0})
unfolding validate_runtime_policy values_of
validate_sidecar_shape sidecar = do
  reject_if (is_some_empty sidecar.directory || is_some_empty sidecar.startup_config)
      (invalid_config (codes "sidecar path fields cannot be empty"))
  validate_runtime_policy sidecar.runtime_updates
  _ ← values_of sidecar
  ok tt

-- The fold of `validate`, with the identities seen so far.
unfoldable pub validate_sidecars : KeySet → List SidecarDefinition → Outcome (Unit {0})
unfolding validate_identity validate_sidecar_shape
validate_sidecars ids [] = ok tt
validate_sidecars ids (sidecar ∷ rest) =
    let more = validate_sidecars (collect_keys ids (sidecar.id ∷ [])) rest in
    do
      validate_identity sidecar.id
      reject_if (contains ids sidecar.id)
          (invalid_config (codes "sidecar identities must be unique"))
      validate_sidecar_shape sidecar
      more

unfoldable pub validate_file : OresSidecarFile → Outcome (Unit {0})
unfolding validate_sidecars
validate_file file = do
  reject_if (not (file.schema ≟ config_protocol))
      (invalid_config (codes "unsupported sidecar config schema"))
  reject_if (is_empty file.sidecars || ltb max_sidecars (length file.sidecars))
      (invalid_config (codes "sidecar list must be non-empty and bounded"))
  validate_sidecars [] file.sidecars

unfoldable pub find_sidecar : Text → List SidecarDefinition → Option SidecarDefinition
find_sidecar service [] = none
find_sidecar service (sidecar ∷ rest) =
    let later = find_sidecar service rest in if sidecar.id ≟ service then some sidecar else later

abbrev pub resolved : Text → Option SidecarDefinition → Outcome ResolvedSidecarFile
resolved service none = err (missing_sidecar service)
resolved service (some definition) = values_of definition >>= λ runtime_values.
    ok (record { definition = definition; runtime_values = runtime_values })

unfoldable pub resolve : OresSidecarFile → Text → Outcome ResolvedSidecarFile
unfolding find_sidecar values_of
resolve file service = resolved service (find_sidecar service file.sidecars)

-- `fs::read`
pub data ReadError : Type 0 where
  not_found other_error : ReadError

abbrev size_limit : Text
size_limit = codes "sidecar config exceeds the size limit"

module _ (from_toml : Text → Option OresSidecarFile) where
  abbrev toml_or : Option OresSidecarFile → Outcome OresSidecarFile
  toml_or none = err (invalid_config (codes "sidecar config is not valid TOML"))
  toml_or (some file) = ok file

  unfoldable pub parse : Text → Outcome OresSidecarFile
  unfolding validate_file
  parse input = do
    reject_if (ltb max_config_file_bytes (byte_len input)) (invalid_config size_limit)
    parsed ← toml_or (from_toml input)
    validate_file parsed
    ok parsed

  abbrev text_or : Option Text → Outcome Text
  text_or none = err (invalid_config (codes "sidecar config must be UTF-8"))
  text_or (some text) = ok text

  -- From the bytes on, in `load` and `load_optional`.
  unfoldable parse_bytes : List ℕ → Outcome OresSidecarFile
  unfolding parse from_utf8
  parse_bytes bs = do
    reject_if (ltb max_config_file_bytes (length bs)) (invalid_config size_limit)
    input ← text_or (from_utf8 bs)
    parse input

  unfoldable pub load : Result ReadError (List ℕ) → Outcome OresSidecarFile
  unfolding parse_bytes
  load (ok bs) = parse_bytes bs
  load (err e) = err io

  unfoldable pub load_optional : Result ReadError (List ℕ) → Outcome (Option OresSidecarFile)
  unfolding parse_bytes
  load_optional (ok bs) = parse_bytes bs >>= λ file. ok (some file)
  load_optional (err not_found) = ok none
  load_optional (err other_error) = err io
