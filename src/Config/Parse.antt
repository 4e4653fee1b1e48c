-- ===== src/Config/Parse.antt =====
-- The parsers of src/process_lifecycle_runtime/config.rs.
use ores_otel_sidecar_rs.Prelude.{
  ℕ, Bool, true, false, not, ◌&&◌, ◌||◌, Option, none, some, leb, ◌==◌, ◌≟◌, if◌then◌else◌, List,
  Result, ok, err, ◌>>=◌, ◌>>◌, reject_if, Text, text_eq, codes, is_empty, byte_len, bytes, all,
  any, strip_prefix, is_ascii_alphanumeric,
}
use ores_otel_sidecar_rs.Strings.{
  trim, trim_end, contains_char, starts_with, is_ascii_whitespace, parse_u64,
}
use ores_otel_sidecar_rs.Record.{valid_identity_segment}
use ores_otel_sidecar_rs.Maps.{Map, lookup}
use ores_otel_sidecar_rs.Paths.{
  is_absolute, components, path_eq, path_starts_with, parent_of, is_prefix, cur_dir, parent_dir,
  texts_eq,
}
use ores_otel_sidecar_rs.RuntimeError.{
  LifecycleRuntimeError, invalid_arguments, invalid_product, invalid_identity, invalid_path,
  invalid_product_socket, invalid_host_control_socket, invalid_reconcile_seconds, invalid_boolean,
  invalid_config_version, unsupported_lease_provider, invalid_lease_endpoint,
  invalid_credential_name, invalid_effects_mode,
}

pub data LifecycleConfigVersion : Type 0 where
  v1 v2 : LifecycleConfigVersion

pub data LifecycleEffectsMode : Type 0 where
  observe freeze_thaw : LifecycleEffectsMode

pub data LifecycleLeaseProvider : Type 0 where
  cloudflare_durable_object : LifecycleLeaseProvider

pub data LifecycleProduct : Type 0 where
  beam_scale scintilla_run : LifecycleProduct

unfoldable pub as_str : LifecycleProduct → Text
as_str beam_scale = codes "beamscale"
as_str scintilla_run = codes "scintilla-run"

unfoldable pub required_socket : LifecycleProduct → Text
required_socket beam_scale = codes "/run/beamscale-lifecycle/product/control.sock"
required_socket scintilla_run = codes "/run/scintilla-lifecycle/product/control.sock"

unfoldable pub required_host_control_socket : LifecycleProduct → Text
required_host_control_socket beam_scale = codes "/run/beamscale-lifecycle/host/control.sock"
required_host_control_socket scintilla_run = codes "/run/scintilla-lifecycle/host/control.sock"

unfoldable pub lifecycle_lease_key_prefix : LifecycleProduct → Text
lifecycle_lease_key_prefix beam_scale = codes "beamscale/runtime-lifecycle"
lifecycle_lease_key_prefix scintilla_run = codes "scintilla-run/runtime-lifecycle"

abbrev pub Parsed : Type 0 → Type 0
Parsed = Result LifecycleRuntimeError

abbrev min_reconcile_seconds : ℕ
min_reconcile_seconds = 1

abbrev pub max_reconcile_seconds : ℕ
max_reconcile_seconds = 3600

abbrev nonempty : Text → Option Text
nonempty s = if is_empty s then none else some s

abbrev present : Option Text → Option Text
present none = none
present (some candidate) = nonempty (trim candidate)

unfoldable pub optional_value : Map → Text → Option Text
unfolding lookup trim
optional_value values key = present (lookup key values)

abbrev ok_or : {A : Type 0} → Option A → LifecycleRuntimeError → Parsed A
ok_or none e = err e
ok_or (some a) e = ok a

unfoldable pub required_value : Map → Text → Parsed Text
unfolding optional_value
required_value values key = ok_or (optional_value values key) invalid_arguments

-- `map` with a parser and `transpose`
abbrev pub parse_some : {A : Type 0} → (Text → Parsed A) → Option Text → Parsed (Option A)
parse_some parse none = ok none
parse_some parse (some value) = parse value >>= λ a. ok (some a)

unfoldable pub parse_bool : Text → Parsed Bool
parse_bool value =
    if value ≟ codes "true"
    then ok true
    else if value ≟ codes "false"
    then ok false
    else err invalid_boolean

unfoldable pub optional_bool : Map → Text → Parsed (Option Bool)
unfolding optional_value parse_bool
optional_bool values key = parse_some parse_bool (optional_value values key)

abbrev refuse_some : Option Text → Parsed (Unit {0})
refuse_some none = ok tt
refuse_some (some value) = err invalid_arguments

unfoldable pub reject_nonempty_legacy_value : Map → Text → Parsed (Unit {0})
unfolding optional_value
reject_nonempty_legacy_value values key = refuse_some (optional_value values key)

unfoldable pub parse_config_version : Text → Parsed LifecycleConfigVersion
parse_config_version value =
    if value ≟ codes "v1"
    then ok v1
    else if value ≟ codes "v2"
    then ok v2
    else err invalid_config_version

unfoldable pub parse_product : Text → Parsed LifecycleProduct
parse_product value =
    if value ≟ codes "beamscale"
    then ok beam_scale
    else if value ≟ codes "scintilla-run"
    then ok scintilla_run
    else err invalid_product

unfoldable pub parse_lease_provider : Text → Parsed LifecycleLeaseProvider
parse_lease_provider value =
    if value ≟ codes "cloudflare-do"
    then ok cloudflare_durable_object
    else err unsupported_lease_provider

unfoldable pub parse_effects_mode : Text → Parsed LifecycleEffectsMode
parse_effects_mode value =
    if value ≟ codes "observe"
    then ok observe
    else if value ≟ codes "freeze_thaw"
    then ok freeze_thaw
    else err invalid_effects_mode

-- The test is that of a record's segments: the bound is 96 bytes in both.
unfoldable pub validate_identity_segment : Text → Parsed (Unit {0})
unfolding valid_identity_segment
validate_identity_segment value = reject_if (not (valid_identity_segment value)) invalid_identity

unfoldable pub is_credential_byte : ℕ → Bool
unfolding is_ascii_alphanumeric
is_credential_byte b = is_ascii_alphanumeric b || b == b'-' || b == b'_' || b == b'.'

unfoldable pub validate_credential_name : Text → Parsed Text
unfolding is_credential_byte
validate_credential_name value =
    if not (leb (byte_len value) 128 && all is_credential_byte (bytes value))
      || value ≟ codes "."
      || value ≟ codes ".."
    then err invalid_credential_name
    else ok value

unfoldable endpoint_valid : Text → Text → Bool
unfolding starts_with contains_char is_ascii_whitespace
endpoint_valid value remainder =
    not (is_empty remainder)
    && not (starts_with (codes "/") remainder)
    && not (any is_ascii_whitespace (bytes value))
    && not (contains_char b'@' remainder)
    && not (contains_char b'?' remainder)
    && not (contains_char b'#' remainder)

abbrev is_slash : ℕ → Bool
is_slash c = c == b'/'

unfoldable pub validate_lease_endpoint : Text → Parsed Text
unfolding strip_prefix endpoint_valid trim_end
validate_lease_endpoint value =
    ok_or (strip_prefix (codes "https://") value) invalid_lease_endpoint >>= λ remainder.
    if not (endpoint_valid value remainder)
    then err invalid_lease_endpoint
    else ok (trim_end is_slash value)

unfoldable pub has_traversal : Text → Bool
unfolding components
has_traversal path = any (λ c. c ≟ parent_dir || c ≟ cur_dir) (components path)

unfoldable pub validate_absolute_no_traversal : Text → Parsed (Unit {0})
unfolding is_absolute has_traversal
validate_absolute_no_traversal path = do
  reject_if (not (is_absolute path)) invalid_path
  reject_if (has_traversal path) invalid_path
  ok tt

unfoldable pub parse_authority_path : Text → Parsed Text
unfolding validate_absolute_no_traversal path_eq
parse_authority_path path = do
  validate_absolute_no_traversal path
  reject_if
      (path_eq path (codes "/") || path_eq path (codes "/var") || path_eq path (codes "/var/lib"))
      invalid_path
  ok path

abbrev pub cgroup_mount : Text
cgroup_mount = codes "/sys/fs/cgroup"

unfoldable pub parse_cgroup_root : Text → Parsed Text
unfolding validate_absolute_no_traversal path_eq path_starts_with
parse_cgroup_root path = do
  validate_absolute_no_traversal path
  reject_if (path_eq path cgroup_mount || not (path_starts_with path cgroup_mount)) invalid_path
  ok path

unfoldable pub parse_product_socket : LifecycleProduct → Text → Parsed Text
unfolding required_socket validate_absolute_no_traversal
parse_product_socket product value = do
  reject_if (not (value ≟ required_socket product)) invalid_product_socket
  validate_absolute_no_traversal value
  ok value

unfoldable pub parse_host_control_socket : LifecycleProduct → Text → Parsed Text
unfolding required_host_control_socket validate_absolute_no_traversal
parse_host_control_socket product value = do
  reject_if (not (value ≟ required_host_control_socket product)) invalid_host_control_socket
  validate_absolute_no_traversal value
  ok value

unfoldable parents_split : List Text → List Text → Bool
unfolding is_prefix
parents_split product_parent host_parent = not (
    product_parent ≟ host_parent
    || is_prefix host_parent product_parent
    || is_prefix product_parent host_parent)

unfoldable pub validate_socket_trust_split : Text → Text → Parsed (Unit {0})
unfolding path_eq parent_of components parents_split
validate_socket_trust_split product_socket host_control_socket = do
  reject_if (path_eq product_socket host_control_socket) invalid_path
  product_parent ← ok_or (parent_of (components product_socket)) invalid_path
  host_parent ← ok_or (parent_of (components host_control_socket)) invalid_path
  reject_if (not (parents_split product_parent host_parent)) invalid_path
  ok tt

-- `parse::<u64>` and the range of the seconds.
unfoldable pub parse_reconcile_seconds : Text → Parsed ℕ
parse_reconcile_seconds value = ok_or (parse_u64 value) invalid_reconcile_seconds >>= λ seconds.
    if leb min_reconcile_seconds seconds && leb seconds max_reconcile_seconds
    then ok seconds
    else err invalid_reconcile_seconds
