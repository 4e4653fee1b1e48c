-- ===== src/HostControl.antt =====
-- src/process_lifecycle_runtime/host_control.rs: the client of the trusted host's socket. `serde`
-- is a parameter, as the text of an admission and the snapshot that a text holds.
pub mod Snapshot
pub mod Workload
pub mod Pinned
use ores_otel_sidecar_rs.Prelude.{
  ℕ, suc, Bool, true, false, not, ◌&&◌, ◌||◌, Option, none, some, List, [], ◌∷◌, ◌++◌, ltb, ◌==◌,
  ◌≟◌, if◌then◌else◌, Eq, ℕ_discrete, Text-discrete, Result, ok, err, ◌>>=◌, ◌>>◌, reject_if,
  map_err, map, Text, text_eq, codes, bytes, is_empty, length, drop, all,
}
use ores_otel_sidecar_rs.Strings.{starts_with}
use ores_otel_sidecar_rs.Record.{valid_identity_segment, is_digest_byte}
use ores_otel_sidecar_rs.Paths.{is_absolute, components, path_eq, path_starts_with, texts_eq}
use ores_otel_sidecar_rs.Config.Parse.{has_traversal}
use ores_otel_sidecar_rs.ProductControl.{i64_max}
use ores_otel_sidecar_rs.RuntimeError.{
  LifecycleRuntimeError, host_control_unavailable, host_control_response_too_large,
  invalid_host_control_response, invalid_host_control_request, host_identity_mismatch,
  host_demand_changed,
}
use ores_otel_sidecar_rs.Control.{Socket, Terms, Answer, exchange, ends_in_newline}

abbrev host_protocol_version : ℕ
host_protocol_version = 2

abbrev max_host_response_bytes : ℕ
max_host_response_bytes = 262144

abbrev max_host_request_bytes : ℕ
max_host_request_bytes = 16384

abbrev pub max_workloads : ℕ
max_workloads = 1024

abbrev policy_digest_bytes : ℕ
policy_digest_bytes = 71

pub record TrustedWorkloadSnapshot : Type 0 where
  pub workload_id : Text
  pub assigned_node : Text
  pub runtime_epoch : ℕ
  pub placement_epoch : ℕ
  pub pid : ℕ
  pub process_start_ticks : ℕ
  pub managed_cgroup : Text
  pub isolation_policy_digest : Text
  pub queue_depth : ℕ
  pub in_flight : ℕ
  pub idle_for_ms : ℕ
  pub routable : Bool

pub record TrustedHostSnapshot : Type 0 where
  pub version : ℕ
  pub workloads : List TrustedWorkloadSnapshot

pub record TrustedHostAdmission : Type 0 where
  pub workload_id : Text
  pub assigned_node : Text
  pub runtime_epoch : ℕ
  pub placement_epoch : ℕ
  pub pid : ℕ
  pub process_start_ticks : ℕ
  pub managed_cgroup : Text
  pub isolation_policy_digest : Text
  pub fencing_token : ℕ

pub record Codec : Type 0 where
  pub from_str : Text → Option TrustedHostSnapshot
  pub to_string : TrustedHostAdmission → Option Text

-- The fields of `TrustedHostControlClient` but for the socket's path.
pub record TrustedHostControlClient : Type 0 where
  pub cgroup_root : Text
  pub expected_node : Text

abbrev pub Identity : Type 0
Identity = ℕ × ℕ

unfoldable pub Identity-discrete : Discrete Identity
unfolding ℕ_discrete
Identity-discrete = hlevel ℕ_discrete

instance abbrev pub identity_eq : Eq Identity
identity_eq = record { dec = Identity-discrete }

module _ {A : Type 0} ⦃e : Eq A⦄ where
  unfoldable pub member : A → List A → Bool
  member a [] = false
  member a (b ∷ bs) = a ≟ b || member a bs

  -- `len()` of the `BTreeSet` of the values
  unfoldable pub set_len : List A → ℕ
  unfolding member
  set_len [] = 0
  set_len (a ∷ others) = let rest = set_len others in if member a others then rest else suc rest

-- The bound of 96 bytes and the characters are those of a record's segments.
unfoldable pub validate_identity : Text → Answer (Unit {0})
unfolding valid_identity_segment
validate_identity value =
    reject_if (not (valid_identity_segment value)) invalid_host_control_response

unfoldable pub validate_policy_digest : Text → Answer (Unit {0})
unfolding starts_with is_digest_byte
validate_policy_digest value = do
  reject_if
      (not (length (bytes value) == policy_digest_bytes)
        || not (starts_with (codes "sha256:") value))
      invalid_host_control_response
  let digest = drop 7 (bytes value)
  reject_if (not (length digest == 64) || not (all is_digest_byte digest))
      invalid_host_control_response
  ok tt

unfoldable pub validate_managed_cgroup : Text → Text → Answer (Unit {0})
unfolding is_absolute path_eq path_starts_with has_traversal
validate_managed_cgroup path cgroup_root = do
  reject_if
      (not (is_absolute path)
        || path_eq path cgroup_root
        || not (path_starts_with path cgroup_root))
      invalid_host_control_response
  reject_if (has_traversal path) invalid_host_control_response
  ok tt

unfoldable pub validate_workload : TrustedWorkloadSnapshot → Text → Text → Answer (Unit {0})
validate_workload w cgroup_root expected_node = do
  validate_identity w.workload_id
  validate_identity w.assigned_node
  reject_if (not (w.assigned_node ≟ expected_node)) host_identity_mismatch
  reject_if
      (w.runtime_epoch == 0 || w.placement_epoch == 0 || w.pid == 0 || w.process_start_ticks == 0)
      invalid_host_control_response
  reject_if (ltb i64_max w.queue_depth || ltb i64_max w.in_flight || ltb i64_max w.idle_for_ms)
      invalid_host_control_response
  validate_policy_digest w.isolation_policy_digest
  validate_managed_cgroup w.managed_cgroup cgroup_root
  ok tt

unfoldable pub validate_workloads : List TrustedWorkloadSnapshot → Text → Text → Answer (Unit {0})
validate_workloads [] cgroup_root expected_node = ok tt
validate_workloads (w ∷ ws) cgroup_root expected_node =
    validate_workload w cgroup_root expected_node >> validate_workloads ws cgroup_root expected_node

abbrev pub workload_ids : List TrustedWorkloadSnapshot → List Text
workload_ids = map (λ w. w.workload_id)

abbrev pub process_identities : List TrustedWorkloadSnapshot → List Identity
process_identities = map (λ w. (w.pid, w.process_start_ticks))

-- A set of paths holds them by their components.
abbrev pub managed_cgroups : List TrustedWorkloadSnapshot → List (List Text)
managed_cgroups = map (λ w. components w.managed_cgroup)

unfoldable pub validate_snapshot : TrustedHostSnapshot → Text → Text → Answer (Unit {0})
unfolding components set_len
validate_snapshot snapshot cgroup_root expected_node = do
  let workloads = snapshot.workloads
  reject_if
      (not (snapshot.version == host_protocol_version) || ltb max_workloads (length workloads))
      invalid_host_control_response
  validate_workloads workloads cgroup_root expected_node
  reject_if
      (not (set_len (workload_ids workloads) == length workloads)
        || not (set_len (process_identities workloads) == length workloads)
        || not (set_len (managed_cgroups workloads) == length workloads))
      invalid_host_control_response
  ok tt

abbrev pub terms : Terms
terms = record {
  unavailable = host_control_unavailable;
  too_large = host_control_response_too_large;
  invalid_response = invalid_host_control_response;
  maximum = max_host_response_bytes;
}

unfoldable pub request : Socket → List ℕ → Answer Text
unfolding ends_in_newline exchange
request s bytes = do
  reject_if
      (is_empty bytes || ltb max_host_request_bytes (length bytes) || not (ends_in_newline bytes))
      invalid_host_control_request
  exchange terms s bytes

abbrev pub parsed_or : {A : Type 0} → Option A → LifecycleRuntimeError → Answer A
parsed_or none e = err e
parsed_or (some a) e = ok a

unfoldable admit_answer : Text → Answer (Unit {0})
admit_answer response =
    if response ≟ codes "ok routable"
    then ok tt
    else if response ≟ codes "error stale_identity"
    then err host_identity_mismatch
    else if response ≟ codes "error demand_changed"
    then err host_demand_changed
    else err invalid_host_control_response

unfoldable admission_of : TrustedWorkloadSnapshot → ℕ → TrustedHostAdmission
admission_of w fencing_token = record {
  workload_id = w.workload_id;
  assigned_node = w.assigned_node;
  runtime_epoch = w.runtime_epoch;
  placement_epoch = w.placement_epoch;
  pid = w.pid;
  process_start_ticks = w.process_start_ticks;
  managed_cgroup = w.managed_cgroup;
  isolation_policy_digest = w.isolation_policy_digest;
  fencing_token = fencing_token;
}

module _ (C : Codec) where
  unfoldable pub snapshot : TrustedHostControlClient → Socket → Answer TrustedHostSnapshot
  unfolding request validate_snapshot
  snapshot client s = do
    response ← request s (bytes (codes "v2 snapshot\n"))
    snapshot ← parsed_or (C.from_str response) invalid_host_control_response
    validate_snapshot snapshot client.cgroup_root client.expected_node
    ok snapshot

  unfoldable pub admit_after_wake :
      TrustedHostControlClient → Socket → TrustedWorkloadSnapshot → ℕ → Answer (Unit {0})
  unfolding request admit_answer admission_of
  admit_after_wake client s w fencing_token = do
    validate_workload w client.cgroup_root client.expected_node
    reject_if (fencing_token == 0) invalid_host_control_request
    payload ← parsed_or (C.to_string (admission_of w fencing_token)) invalid_host_control_request
    let line = bytes (codes "v2 admit " ++ payload ++ codes "\n")
    reject_if (ltb max_host_request_bytes (length line)) invalid_host_control_request
    response ← request s line
    admit_answer response
