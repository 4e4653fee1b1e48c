-- ===== src/Scenarios/Kernel.antt =====
-- A cgroup that takes 5 nanoseconds to freeze.
use ores_otel_sidecar_rs.Prelude.{
  ℕ, ◌+◌, ◌≡◌, refl, true, false, Bool, ok, [], ◌∷◌, ◌&&◌, ◌≟◌, leb, if◌then◌else◌, arith, Text,
  Text-discrete, text_eq, codes,
}
use ores_otel_sidecar_rs.Paths.{join}
use ores_otel_sidecar_rs.Maps.{Map, lookup}
use ores_otel_sidecar_rs.Cgroup.{
  Host, panicked, returned, FreezeOnlyCgroupEffects, freeze, thaw, wait_for_frozen_state, status,
  parse_event_flag,
}
use ores_otel_sidecar_rs.Cgroup.Events.{IsFlag, print_events, parse_event_flag-print_events}
use ores_otel_sidecar_rs.Cgroup.Wait.{
  Clock, WaitEnds, Completes, wait_for_frozen_state-Ends, freeze-Completes,
}

pub record Kernel : Type 0 where
  pub time : ℕ
  pub requested : Text

abbrev pub events_of : Bool → Text
events_of frozen =
    if frozen then codes "populated 1\nfrozen 1\n" else codes "populated 1\nfrozen 0\n"

abbrev slow_host : Host
slow_host = record {
  World = Kernel;
  FilePath = Text;
  join = join;
  write = λ path flag w. (ok tt, record { time = w.time; requested = flag });
  read_to_string = λ path w. (ok (events_of (w.requested ≟ codes "1\n" && leb 5 w.time)), w);
  now = λ w. (w.time, w);
  latest = 1000;
  sleep = λ d w. record { time = w.time + d; requested = w.requested };
}

abbrev slow_clock : Clock slow_host
slow_clock = record {
  clock = λ w. w.time;
  read_keeps = λ p w. omega arith;
  now_reads = λ w. refl;
  now_keeps = λ w. omega arith;
  sleep_waits = λ d w. omega arith;
}

abbrev pub kernel_at : ℕ → Text → Kernel
kernel_at time requested = record { time = time; requested = requested }

abbrev effects_sample : FreezeOnlyCgroupEffects slow_host
effects_sample = record {
  cgroup_dir = codes "/sys/fs/cgroup/w";
  effect_timeout = 8;
  poll_interval = 3;
}

freeze_run :
    freeze slow_host effects_sample (kernel_at 0 []) ≡ (returned (ok tt), kernel_at 6 (codes "1\n"))
unfolding freeze Text-discrete status
freeze_run = refl

-- A timeout that leads past the latest instant.
overflow_run :
    wait_for_frozen_state slow_host (codes "/sys/fs/cgroup/w") true 1000 3 (kernel_at 1 [])
    ≡ (panicked, kernel_at 1 [])
unfolding wait_for_frozen_state
overflow_run = refl

wait_for_frozen_state-Ends_example :
    WaitEnds slow_host slow_clock (codes "/sys/fs/cgroup/w") true 3 8 (
      wait_for_frozen_state slow_host
        (codes "/sys/fs/cgroup/w")
        true
        8
        3
        (kernel_at 0 (codes "1\n")))
wait_for_frozen_state-Ends_example =
    wait_for_frozen_state-Ends slow_host slow_clock (codes "/sys/fs/cgroup/w") true 8 3
      (kernel_at 0 (codes "1\n"))

freeze-Completes_example :
    Completes slow_host slow_clock effects_sample true
      (codes "1\n")
      (kernel_at 0 [])
      (freeze slow_host effects_sample (kernel_at 0 []))
    × Completes slow_host slow_clock effects_sample false
        (codes "0\n")
        (kernel_at 0 [])
        (thaw slow_host effects_sample (kernel_at 0 []))
freeze-Completes_example = freeze-Completes slow_host slow_clock effects_sample (kernel_at 0 [])

abbrev sample_events : Map
sample_events = (codes "populated", codes "1") ∷ (codes "frozen", codes "2") ∷ []

parse_event_flag-print_events_example :
    IsFlag
      (codes "frozen")
      (lookup (codes "frozen") sample_events)
      (parse_event_flag (print_events sample_events) (codes "frozen"))
parse_event_flag-print_events_example =
    parse_event_flag-print_events sample_events (codes "frozen") (ground arith)
