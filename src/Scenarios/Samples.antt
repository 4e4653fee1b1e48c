-- ===== src/Scenarios/Samples.antt =====
-- Records, scopes and services on which the other scenarios run.
use ores_otel_sidecar_rs.Prelude.{Bool, true, false, none, Result, ok, err, Text, codes, ◌==◌, []}
use ores_otel_sidecar_rs.Lifecycle.{SuspendStrategy, ActivitySnapshot, LifecyclePolicy}
use ores_otel_sidecar_rs.Record.{PersistedLifecycleState, PersistedSuspendStrategy, LifecycleRecord}
use ores_otel_sidecar_rs.Services.{Services, System, drained}
use ores_otel_sidecar_rs.Agent.{ControllerScope}

abbrev pub idle : ActivitySnapshot
idle = record { queue_depth = 0; in_flight = 0; idle_for_ms = 60000 }

abbrev pub busy : ActivitySnapshot
busy = record { queue_depth = 3; in_flight = 0; idle_for_ms = 0 }

abbrev pub freeze_policy : LifecyclePolicy
freeze_policy = record { strategy = SuspendStrategy.freeze; minimum_idle_ms = 30000 }

abbrev pub in_state : PersistedLifecycleState → LifecycleRecord
in_state state = record {
  workload_id = codes "w7";
  assigned_node = codes "n1";
  placement_epoch = 4;
  runtime_epoch = 8;
  fencing_token = 9;
  revision = 12;
  state = state;
  strategy = PersistedSuspendStrategy.freeze;
  checkpoint = none;
}

abbrev pub scope : ControllerScope
scope = record {
  workload_id = codes "w7";
  node = codes "n1";
  placement_epoch = 4;
  runtime_epoch = 8;
}

abbrev replaced_if :
    Bool → LifecycleRecord → LifecycleRecord → Result Text (Unit {0}) × LifecycleRecord
replaced_if true next world = (ok tt, next)
replaced_if false next world = (err (codes "conflict"), world)

-- A store of one record, compared by revision, with a host that reports an activity, a product that
-- drains, and effects that succeed on a cgroup that the kernel reports as frozen or not.
abbrev pub memory : ActivitySnapshot → Bool → Services
memory activity is_frozen = record {
  World = LifecycleRecord;
  load = λ id w. (ok w, w);
  replace = λ e n w. replaced_if (e.revision == w.revision) n w;
  observe = λ w. (ok activity, w);
  verify_ready = λ w. (ok tt, w);
  quiesce = λ w. (ok drained, w);
  cancel_quiesce = λ w. (ok tt, w);
  freeze = λ w. (ok tt, w);
  thaw = λ w. (ok tt, w);
  checkpoint_and_terminate = λ w. (err (codes "disabled"), w);
  restore = λ c w. (err (codes "disabled"), w);
  freeze_status = λ w. (ok (record { populated = true; frozen = is_frozen }), w);
}

abbrev pub start :
    (activity : ActivitySnapshot) (is_frozen : Bool)
    → LifecycleRecord
    → System (memory activity is_frozen)
start activity is_frozen r = record { world = r; calls = [] }
