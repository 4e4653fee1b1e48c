-- ===== src/Identity/Parse.antt =====
-- The errors and the parsers of src/adapters/process_lifecycle_identity.rs.
use ores_otel_sidecar_rs.Prelude.{
  ℕ, zero, suc, ◌+◌, Bool, false, not, ◌||◌, Option, none, some, List, [], ◌∷◌, leb, ◌==◌,
  if◌then◌else◌, take, drop, position, Result, ok, err, ◌>>=◌, ◌>>◌, reject_if, Text, codes,
  is_empty, strip_prefix,
}
use ores_otel_sidecar_rs.Strings.{trim, lines, split_whitespace, parse_u32, parse_u64}
use ores_otel_sidecar_rs.Paths.{is_absolute}
use ores_otel_sidecar_rs.Config.Parse.{has_traversal}

pub data LinuxProcessIdentityError : Type 0 where
  invalid_expected_identity process_unavailable invalid_process_directory invalid_proc_stat
        process_start_mismatch invalid_proc_cgroup process_cgroup_mismatch
        managed_cgroup_unavailable invalid_managed_cgroup_directory invalid_cgroup_procs
        process_not_in_managed_cgroup identity_changed_during_attestation :
      LinuxProcessIdentityError

-- `Display`
unfoldable pub identity_error : LinuxProcessIdentityError → Text
identity_error invalid_expected_identity = codes "invalid expected Linux process lifecycle identity"
identity_error process_unavailable = codes "expected Linux process identity is unavailable"
identity_error invalid_process_directory = codes "expected Linux process directory is invalid"
identity_error invalid_proc_stat = codes "Linux process stat identity is invalid"
identity_error process_start_mismatch = codes "Linux process start identity does not match"
identity_error invalid_proc_cgroup = codes "Linux process cgroup identity is invalid"
identity_error process_cgroup_mismatch = codes "Linux process cgroup identity does not match"
identity_error managed_cgroup_unavailable = codes "managed lifecycle cgroup is unavailable"
identity_error invalid_managed_cgroup_directory =
    codes "managed lifecycle cgroup directory is invalid"
identity_error invalid_cgroup_procs = codes "managed lifecycle cgroup.procs is invalid"
identity_error process_not_in_managed_cgroup =
    codes "expected process is not in the managed lifecycle cgroup"
identity_error identity_changed_during_attestation =
    codes "Linux process identity changed during lifecycle attestation"

abbrev Parsed : Type 0 → Type 0
Parsed = Result LinuxProcessIdentityError

abbrev some_or : {A : Type 0} → LinuxProcessIdentityError → Option A → Parsed A
some_or e none = err e
some_or e (some a) = ok a

abbrev later : Option ℕ → Bool → Option ℕ
later none here = if here then some 0 else none
later (some n) here = some (suc n)

-- `rfind` of a character
unfoldable last_position : (ℕ → Bool) → Text → Option ℕ
last_position p [] = none
last_position p (c ∷ s) = later (last_position p s) (p c)

abbrev nth : ℕ → List Text → Option Text
nth n [] = none
nth zero (x ∷ xs) = some x
nth (suc n) (x ∷ xs) = nth n xs

abbrev proc_stat_starttime_index_after_comm : ℕ
proc_stat_starttime_index_after_comm = 19

unfoldable pub parse_proc_stat_start_ticks : Text → ℕ → Parsed ℕ
unfolding last_position trim split_whitespace
parse_proc_stat_start_ticks input expected_pid = do
  first ← some_or invalid_proc_stat (position (λ c. c == b'(') input)
  last ← some_or invalid_proc_stat (last_position (λ c. c == b')') input)
  reject_if (leb last first) invalid_proc_stat
  pid ← some_or invalid_proc_stat (parse_u32 (trim (take first input)))
  reject_if (not (pid == expected_pid)) invalid_proc_stat
  word ←
      some_or invalid_proc_stat
        (nth proc_stat_starttime_index_after_comm (split_whitespace (drop (last + 1) input)))
  start_ticks ← some_or invalid_proc_stat (parse_u64 word)
  reject_if (start_ticks == 0) invalid_proc_stat
  ok start_ticks

abbrev keep : Option Text → List Text → List Text
keep none values = values
keep (some value) values = value ∷ values

-- The values of the lines of the version 2 hierarchy.
unfoldable v2_values : List Text → List Text
unfolding strip_prefix
v2_values [] = []
v2_values (line ∷ rest) = keep (strip_prefix (codes "0::") line) (v2_values rest)

abbrev only_value : List Text → Parsed Text
only_value (value ∷ []) = if is_empty value then err invalid_proc_cgroup else ok value
only_value _ = err invalid_proc_cgroup

unfoldable pub parse_proc_cgroup_v2_path : Text → Parsed Text
unfolding v2_values lines is_absolute has_traversal
parse_proc_cgroup_v2_path input = do
  path ← only_value (v2_values (lines input))
  reject_if (not (is_absolute path) || has_traversal path) invalid_proc_cgroup
  ok path

-- The `try_fold` of `require_cgroup_membership`.
unfoldable contains_pid_from : Bool → ℕ → List Text → Parsed Bool
contains_pid_from found expected_pid [] = ok found
contains_pid_from found expected_pid (line ∷ rest) =
    let skipped = contains_pid_from found expected_pid rest in
    let parsed = some_or invalid_cgroup_procs (parse_u32 line) >>= λ pid.
    contains_pid_from (found || pid == expected_pid) expected_pid rest in
    if is_empty line then skipped else parsed

unfoldable pub contains_pid : ℕ → List Text → Parsed Bool
unfolding contains_pid_from
contains_pid expected_pid input = contains_pid_from false expected_pid input
