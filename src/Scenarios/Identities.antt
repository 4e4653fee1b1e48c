-- ===== src/Scenarios/Identities.antt =====
-- A process in a cgroup, frozen under attestation.
use ores_otel_sidecar_rs.Prelude.{
  ◌+◌, ◌≡◌, refl, ok, ◌&&◌, ◌≟◌, leb, if◌then◌else◌, arith, Text, Text-discrete, text_eq, codes, [],
}
use ores_otel_sidecar_rs.Strings.{parse_unsigned}
use ores_otel_sidecar_rs.Paths.{Texts-discrete}
use ores_otel_sidecar_rs.Cgroup.Wait.{Clock}
use ores_otel_sidecar_rs.Identity.{
  ProcHost, directory, attest, attest_first, attest_second, validate_expected,
  validate_process_directory, validate_managed_cgroup_directory, read_process_start_ticks,
  read_process_cgroup, require_cgroup_membership, require_start_ticks, require_cgroup,
  expected_proc_cgroup_path, checked_again,
}
use ores_otel_sidecar_rs.Identity.Attested.{cgroup_host, AttestedFreezeOnlyCgroupEffects}
use ores_otel_sidecar_rs.Scenarios.Kernel.{Kernel, kernel_at, events_of}

abbrev file_at : Text → Kernel → Text
file_at path w =
    if path ≟ codes "/proc/42/stat"
    then codes "42 (a b) S 1 42 42 0 -1 4194560 1 0 0 0 0 0 0 0 20 0 1 0 777 0 0"
    else if path ≟ codes "/proc/42/cgroup"
    then codes "0::/w\n"
    else if path ≟ codes "/sys/fs/cgroup/w/cgroup.procs"
    then codes "7\n42\n"
    else events_of (w.requested ≟ codes "1\n" && leb 5 w.time)

abbrev proc_host : ProcHost
proc_host = record {
  World = Kernel;
  symlink_metadata = λ path w. (ok directory, w);
  read_to_string = λ path w. (ok (file_at path w), w);
  write = λ path flag w. (ok tt, record { time = w.time; requested = flag });
  now = λ w. (w.time, w);
  latest = 1000;
  sleep = λ d w. record { time = w.time + d; requested = w.requested };
}

abbrev proc_clock : Clock (cgroup_host proc_host)
proc_clock = record {
  clock = λ w. w.time;
  read_keeps = λ p w. omega arith;
  now_reads = λ w. refl;
  now_keeps = λ w. omega arith;
  sleep_waits = λ d w. omega arith;
}

abbrev attested_sample : AttestedFreezeOnlyCgroupEffects
attested_sample = record {
  expected = record {
    pid = 42;
    process_start_ticks = 777;
    managed_cgroup = codes "/sys/fs/cgroup/w";
  };
  attestor = record { proc_root = codes "/proc"; cgroup_mount = codes "/sys/fs/cgroup" };
  effect_timeout = 8;
  poll_interval = 3;
}

attest_run :
    attest proc_host attested_sample.attestor attested_sample.expected (kernel_at 0 [])
    ≡ (ok attested_sample.expected, kernel_at 0 [])
unfolding attest attest_first attest_second validate_expected validate_process_directory
    validate_managed_cgroup_directory read_process_start_ticks read_process_cgroup
    require_cgroup_membership require_start_ticks require_cgroup expected_proc_cgroup_path
    checked_again Text-discrete Texts-discrete parse_unsigned
attest_run = refl
