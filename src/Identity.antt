-- ===== src/Identity.antt =====
-- src/adapters/process_lifecycle_identity.rs: the attestation of a process and its control group,
-- from what the kernel's files say.
pub mod Parse
pub mod Attested
pub mod Evidence
pub mod Guarded
use ores_otel_sidecar_rs.Prelude.{
  ℕ, ◌+◌, Bool, true, false, not, ◌&&◌, ◌||◌, Option, none, some, List, [], ◌∷◌, ◌==◌, ◌≟◌,
  if◌then◌else◌, length, drop, Result, ok, err, reject_if, map_err, Text, codes, text_eq,
}
use ores_otel_sidecar_rs.Strings.{lines}
use ores_otel_sidecar_rs.Strings.Decode.{decimal}
use ores_otel_sidecar_rs.Paths.{
  is_absolute, components, path_eq, path_starts_with, join, root_dir, texts_eq,
}
use ores_otel_sidecar_rs.Config.Parse.{has_traversal}
use ores_otel_sidecar_rs.Identity.Parse.{
  LinuxProcessIdentityError, invalid_expected_identity, process_unavailable,
  invalid_process_directory, process_start_mismatch, process_cgroup_mismatch,
  managed_cgroup_unavailable, invalid_managed_cgroup_directory, process_not_in_managed_cgroup,
  identity_changed_during_attestation, parse_proc_stat_start_ticks, parse_proc_cgroup_v2_path,
  contains_pid,
}

pub data FileKind : Type 0 where
  directory symlink other : FileKind

-- The files and the clock, which answer each call with a new world.
pub record ProcHost : Type 1 where
  pub World : Type 0
  pub symlink_metadata : Text → World → Result Text FileKind × World
  pub read_to_string : Text → World → Result Text Text × World
  pub write : Text → Text → World → Result Text (Unit {0}) × World
  pub now : World → ℕ × World
  pub latest : ℕ
  pub sleep : ℕ → World → World

pub record ExpectedLinuxProcessIdentity : Type 0 where
  pub pid : ℕ
  pub process_start_ticks : ℕ
  pub managed_cgroup : Text

pub record LinuxProcessIdentityAttestor : Type 0 where
  pub proc_root : Text
  pub cgroup_mount : Text

abbrev pub Checked : Type 0 → Type 0
Checked = Result LinuxProcessIdentityError

unfoldable validate_absolute_root : Text → Checked (Unit {0})
unfolding is_absolute has_traversal
validate_absolute_root path =
    reject_if (not (is_absolute path) || has_traversal path) invalid_expected_identity

unfoldable pub validate_managed_cgroup_path : Text → Text → Checked (Unit {0})
unfolding is_absolute path_eq path_starts_with has_traversal
validate_managed_cgroup_path path cgroup_mount =
    reject_if
      (not (is_absolute path)
        || path_eq path cgroup_mount
        || not (path_starts_with path cgroup_mount)
        || has_traversal path)
      invalid_expected_identity

unfoldable pub require_start_ticks : ℕ → ℕ → Checked (Unit {0})
require_start_ticks expected observed =
    reject_if (not (expected == observed)) process_start_mismatch

-- Paths are compared by their components.
unfoldable pub require_cgroup : List Text → List Text → Checked (Unit {0})
require_cgroup expected observed = reject_if (not (expected ≟ observed)) process_cgroup_mismatch

-- The last test of `attest`.
unfoldable pub checked_again : ℕ → Text → ℕ → Text → Checked (Unit {0})
unfolding path_eq
checked_again first_start first_cgroup second_start second_cgroup =
    reject_if (not (first_start == second_start) || not (path_eq first_cgroup second_cgroup))
      identity_changed_during_attestation

-- The components of the path.
unfoldable pub expected_proc_cgroup_path : LinuxProcessIdentityAttestor → Text → Checked (List Text)
unfolding components path_starts_with
expected_proc_cgroup_path a managed_cgroup =
    if path_starts_with managed_cgroup a.cgroup_mount
    then ok (root_dir ∷ drop (length (components a.cgroup_mount)) (components managed_cgroup))
    else err invalid_expected_identity

module _ (H : ProcHost) where
  abbrev pub Attest : Type 0 → Type 0
  Attest A = H.World → Checked A × H.World

  module _ {A B : Type 0} where
    abbrev pub continue : Checked A → (A → Attest B) → Attest B
    continue (ok a) f w = f a w
    continue (err e) f w = (err e, w)

    infixl 5 ◌>>=◌ ◌>>◌
    abbrev pub ◌>>=◌ : Attest A → (A → Attest B) → Attest B
    ◌>>=◌ m f w = let (r, w') = m w in continue r f w'

    abbrev pub ◌>>◌ : Attest A → Attest B → Attest B
    m >> k = m >>= λ _. k

  -- `?` on a result that no file gave
  abbrev check : {A : Type 0} → Checked A → Attest A
  check r w = (r, w)

  abbrev read_or : LinuxProcessIdentityError → Text → Attest Text
  read_or e path w = let (r, w') = H.read_to_string path w in (map_err (λ _. e) r, w')

  abbrev kind_or : LinuxProcessIdentityError → Text → Attest FileKind
  kind_or e path w = let (r, w') = H.symlink_metadata path w in (map_err (λ _. e) r, w')

  abbrev real_directory : LinuxProcessIdentityError → FileKind → Checked (Unit {0})
  real_directory e directory = ok tt
  real_directory e symlink = err e
  real_directory e other = err e

  abbrev process_path : LinuxProcessIdentityAttestor → ℕ → Text
  process_path a pid = join a.proc_root (decimal pid)

  module _ (a : LinuxProcessIdentityAttestor) where
    unfoldable pub validate_expected : ExpectedLinuxProcessIdentity → Attest (Unit {0})
    unfolding validate_absolute_root validate_managed_cgroup_path
    validate_expected e = do
      check (reject_if (e.pid == 0 || e.process_start_ticks == 0) invalid_expected_identity)
      check (validate_absolute_root a.proc_root)
      check (validate_absolute_root a.cgroup_mount)
      check (validate_managed_cgroup_path e.managed_cgroup a.cgroup_mount)

    unfoldable pub validate_process_directory : ℕ → Attest (Unit {0})
    unfolding join decimal
    validate_process_directory pid = do
      kind ← kind_or process_unavailable (process_path a pid)
      check (real_directory invalid_process_directory kind)

    unfoldable pub validate_managed_cgroup_directory : Text → Attest (Unit {0})
    validate_managed_cgroup_directory path = do
      kind ← kind_or managed_cgroup_unavailable path
      check (real_directory invalid_managed_cgroup_directory kind)

    unfoldable pub read_process_start_ticks : ℕ → Attest ℕ
    unfolding join decimal parse_proc_stat_start_ticks
    read_process_start_ticks pid = do
      input ← read_or process_unavailable (join (process_path a pid) (codes "stat"))
      check (parse_proc_stat_start_ticks input pid)

    unfoldable pub read_process_cgroup : ℕ → Attest Text
    unfolding join decimal parse_proc_cgroup_v2_path
    read_process_cgroup pid = do
      input ← read_or process_unavailable (join (process_path a pid) (codes "cgroup"))
      check (parse_proc_cgroup_v2_path input)

    unfoldable pub require_cgroup_membership : Text → ℕ → Attest (Unit {0})
    unfolding join lines contains_pid
    require_cgroup_membership managed_cgroup expected_pid = do
      input ← read_or managed_cgroup_unavailable (join managed_cgroup (codes "cgroup.procs"))
      found ← check (contains_pid expected_pid (lines input))
      check (reject_if (not found) process_not_in_managed_cgroup)

    -- From the second observation on, in `attest`.
    unfoldable pub attest_second :
        ExpectedLinuxProcessIdentity → List Text → ℕ → Text → Attest ExpectedLinuxProcessIdentity
    attest_second e expected_cgroup first_start first_cgroup = do
      second_start ← read_process_start_ticks e.pid
      second_cgroup ← read_process_cgroup e.pid
      check (require_start_ticks e.process_start_ticks second_start)
      check (require_cgroup expected_cgroup (components second_cgroup))
      check (checked_again first_start first_cgroup second_start second_cgroup)
      check (ok e)

    -- From the first observation on.
    unfoldable pub attest_first : ExpectedLinuxProcessIdentity → Attest ExpectedLinuxProcessIdentity
    attest_first e = do
      first_start ← read_process_start_ticks e.pid
      check (require_start_ticks e.process_start_ticks first_start)
      first_cgroup ← read_process_cgroup e.pid
      expected_cgroup ← check (expected_proc_cgroup_path a e.managed_cgroup)
      check (require_cgroup expected_cgroup (components first_cgroup))
      require_cgroup_membership e.managed_cgroup e.pid
      attest_second e expected_cgroup first_start first_cgroup

    unfoldable pub attest : ExpectedLinuxProcessIdentity → Attest ExpectedLinuxProcessIdentity
    attest e = do
      validate_expected e
      validate_process_directory e.pid
      validate_managed_cgroup_directory e.managed_cgroup
      attest_first e
