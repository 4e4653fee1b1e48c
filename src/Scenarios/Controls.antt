-- ===== src/Scenarios/Controls.antt =====
-- The control sockets and a host that knows one workload.
use ores_otel_sidecar_rs.Prelude.{
  ℕ, suc, ◌≤◌, ◌≡◌, refl, true, ok, some, List, [], ◌∷◌, Text, Text-discrete, bytes, codes, length,
  Result,
}
use ores_otel_sidecar_rs.Paths.{Texts-discrete}
use ores_otel_sidecar_rs.Strings.{parse_unsigned}
use ores_otel_sidecar_rs.Services.{drained}
use ores_otel_sidecar_rs.Control.{Socket, exchange}
use ores_otel_sidecar_rs.Control.Frames.{received, IsLine, exchange-IsLine}
use ores_otel_sidecar_rs.ProductControl.{terms, sealed, status, product_quiesce}
use ores_otel_sidecar_rs.HostControl.{
  Codec, TrustedWorkloadSnapshot, TrustedHostSnapshot, TrustedHostControlClient, Identity-discrete,
  snapshot, validate_identity, validate_policy_digest, validate_managed_cgroup, validate_workload,
  validate_workloads,
}
use ores_otel_sidecar_rs.HostControl.Snapshot.{IsTrustedHost, snapshot-IsTrustedHost}
use ores_otel_sidecar_rs.HostControl.Workload.{
  TrustedHostAuthority, TrustedHostWorkloadControl, verify_ready,
}
use ores_otel_sidecar_rs.HostControl.Pinned.{Readies, verify_ready-Readies}

abbrev chunks_read : List Text → List (Result Text (List ℕ))
chunks_read [] = []
chunks_read (c ∷ cs) = ok (bytes c) ∷ chunks_read cs

-- A peer that answers in the given chunks.
abbrev answering : List Text → Socket
answering chunks = record {
  connect = ok tt;
  set_read_timeout = ok tt;
  set_write_timeout = ok tt;
  write_all = λ _. ok tt;
  shutdown = ok tt;
  reads = chunks_read chunks;
}

abbrev sealed_socket : Socket
sealed_socket = answering (codes "ok status sea" ∷ codes "led 0 0 125\n" ∷ [])

status_run :
    status sealed_socket
    ≡ ok (record { admission = sealed; in_flight = 0; queue_depth = 0; idle_for_ms = 125 })
unfolding status bytes Text-discrete parse_unsigned
status_run = refl

quiesce_run : product_quiesce (answering (codes "ok sealed\n" ∷ [])) ≡ ok drained
unfolding product_quiesce bytes Text-discrete
quiesce_run = refl

sealed_line :
    exchange terms sealed_socket (bytes (codes "v1 status\n"))
    ≡ ok (codes "ok status sealed 0 0 125")
unfolding exchange bytes Text-discrete
sealed_line = refl

exchange-IsLine_example :
    (all : List ℕ) × (received sealed_socket.reads ≡ some all)
    × (length all ≤ 1024)
    × IsLine all (codes "ok status sealed 0 0 125")
exchange-IsLine_example =
    exchange-IsLine terms sealed_socket (bytes (codes "v1 status\n"))
      (codes "ok status sealed 0 0 125") sealed_line

abbrev sample_workload : TrustedWorkloadSnapshot
sample_workload = record {
  workload_id = codes "tenant-42";
  assigned_node = codes "node-a";
  runtime_epoch = 9;
  placement_epoch = 7;
  pid = 4242;
  process_start_ticks = 987654;
  managed_cgroup = codes "/sys/fs/cgroup/w.slice/t.scope";
  isolation_policy_digest =
      codes "sha256:aaaaaaaaaaaaaaaaaaaaaaaaaaaaaaaaaaaaaaaaaaaaaaaaaaaaaaaaaaaaaaaa";
  queue_depth = 0;
  in_flight = 0;
  idle_for_ms = 30000;
  routable = true;
}

abbrev other_workload : TrustedWorkloadSnapshot
other_workload = record {
  workload_id = codes "tenant-43";
  assigned_node = codes "node-a";
  runtime_epoch = 9;
  placement_epoch = 7;
  pid = 4242;
  process_start_ticks = 987655;
  managed_cgroup = codes "/sys/fs/cgroup/w.slice/u.scope";
  isolation_policy_digest =
      codes "sha256:bbbbbbbbbbbbbbbbbbbbbbbbbbbbbbbbbbbbbbbbbbbbbbbbbbbbbbbbbbbbbbbb";
  queue_depth = 0;
  in_flight = 0;
  idle_for_ms = 0;
  routable = true;
}

abbrev sample_snapshot : TrustedHostSnapshot
sample_snapshot = record { version = 2; workloads = sample_workload ∷ other_workload ∷ [] }

abbrev sample_codec : Codec
sample_codec = record { from_str = λ _. some sample_snapshot; to_string = λ _. some (codes "{}") }

abbrev sample_client : TrustedHostControlClient
sample_client = record {
  cgroup_root = codes "/sys/fs/cgroup/w.slice";
  expected_node = codes "node-a";
}

snapshot_run :
    snapshot sample_codec sample_client (answering (codes "{}\n" ∷ [])) ≡ ok sample_snapshot
unfolding snapshot validate_workloads validate_workload validate_identity validate_policy_digest
    validate_managed_cgroup bytes Text-discrete Texts-discrete Identity-discrete
snapshot_run = refl

snapshot-IsTrustedHost_example : IsTrustedHost sample_client sample_snapshot
snapshot-IsTrustedHost_example =
    snapshot-IsTrustedHost sample_codec sample_client (answering (codes "{}\n" ∷ []))
      sample_snapshot snapshot_run

-- The world counts the calls.
abbrev steady_host : TrustedHostAuthority
steady_host = record {
  World = ℕ;
  snapshot = λ n. (ok sample_snapshot, suc n);
  admit_after_wake = λ w token n. (ok tt, suc n);
}

abbrev sample_control : TrustedHostWorkloadControl
sample_control = record { expected = sample_workload; fencing_token = 3 }

ready_run : verify_ready steady_host sample_control 0 ≡ (ok tt, 3)
unfolding verify_ready Text-discrete Texts-discrete
ready_run = refl

verify_ready-Readies_example : Readies steady_host sample_control 0 3
verify_ready-Readies_example = verify_ready-Readies steady_host sample_control 0 3 ready_run
