-- ===== src/Cgroup.antt =====
-- src/adapters/linux_process_lifecycle.rs (cgroup v2 freezing; CRIU is not modelled) and the
-- effects of src/adapters/process_lifecycle_freeze.rs.

pub mod Events
pub mod Wait
use ores_otel_sidecar_rs.Prelude.{
  ℕ, suc, zero, ◌+◌, Bool, true, false, Option, none, some, List, [], ◌∷◌, ◌++◌, ltb, leb, ◌==◌,
  ◌≟◌, if◌then◌else◌, Result, ok, err, ◌>>=◌, map_err, Text, text_eq, codes,
}
use ores_otel_sidecar_rs.Strings.{split_once, lines}
use ores_otel_sidecar_rs.Record.{LifecycleCheckpoint}
use ores_otel_sidecar_rs.Services.{FreezeTransitionStatus}

-- The files and the clock of the host, which answer each call with a new world. Times are in
-- nanoseconds; `latest` is the latest instant that can be represented, and adding a duration that
-- leads past it panics.
pub record Host : Type 1 where
  pub World : Type 0
  pub FilePath : Type 0
  pub join : FilePath → Text → FilePath
  pub write : FilePath → Text → World → Result Text (Unit {0}) × World
  pub read_to_string : FilePath → World → Result Text Text × World
  pub now : World → ℕ × World
  pub latest : ℕ
  pub sleep : ℕ → World → World

abbrev pub cgroup_freeze_file : Text
cgroup_freeze_file = codes "cgroup.freeze"

abbrev pub cgroup_events_file : Text
cgroup_events_file = codes "cgroup.events"

pub record CgroupV2Status : Type 0 where
  pub populated : Bool
  pub frozen : Bool

pub data LinuxLifecycleError : Type 0 where
  io missing_cgroup_event invalid_cgroup_event : Text → LinuxLifecycleError
  invalid_poll_interval freeze_timeout thaw_timeout : LinuxLifecycleError

-- `Display`
unfoldable pub display : LinuxLifecycleError → Text
display (io error) = codes "linux lifecycle I/O failed: " ++ error
display (missing_cgroup_event key) = codes "cgroup.events is missing " ++ key
display (invalid_cgroup_event key) = codes "cgroup.events has invalid " ++ key
display invalid_poll_interval = codes "cgroup freeze poll interval must be positive"
display freeze_timeout = codes "cgroup did not reach frozen state before timeout"
display thaw_timeout = codes "cgroup did not reach thawed state before timeout"

-- The closure of `find_map`, on a line that is split at its first space.
unfoldable pub value_if : Text → Option (Text × Text) → Option Text
value_if key none = none
value_if key (some (candidate, value)) = if candidate ≟ key then some value else none

abbrev or_next : Option Text → Option Text → Option Text
or_next none next = next
or_next (some value) next = some value

unfoldable pub find_value : Text → List Text → Option Text
unfolding value_if split_once
find_value key [] = none
find_value key (line ∷ rest) = or_next (value_if key (split_once b' ' line)) (find_value key rest)

-- `match value`
unfoldable pub flag_of : Text → Option Text → Result LinuxLifecycleError Bool
flag_of key none = err (missing_cgroup_event key)
flag_of key (some value) =
    if value ≟ codes "0"
    then ok false
    else if value ≟ codes "1"
    then ok true
    else err (invalid_cgroup_event key)

unfoldable pub parse_event_flag : Text → Text → Result LinuxLifecycleError Bool
unfolding find_value flag_of lines
parse_event_flag input key = flag_of key (find_value key (lines input))

abbrev pub same_flag : Bool → Bool → Bool
same_flag true b = b
same_flag false true = false
same_flag false false = true

-- From the text of the events on, in `status`.
unfoldable pub parse_status : Text → Result LinuxLifecycleError CgroupV2Status
unfolding parse_event_flag
parse_status input = parse_event_flag input (codes "populated") >>= λ populated.
    parse_event_flag input (codes "frozen") >>= λ frozen.
    ok (record { populated = populated; frozen = frozen })

abbrev pub timeout_error : Bool → LinuxLifecycleError
timeout_error true = freeze_timeout
timeout_error false = thaw_timeout

pub record FreezeOnlyCgroupEffects (H : Host) : Type 0 where
  pub cgroup_dir : H.FilePath
  pub effect_timeout : ℕ
  pub poll_interval : ℕ

-- How a call with fuel ends: it returns, it panics, or the fuel runs out.
pub data Completion (A : Type 0) : Type 0 where
  unfinished panicked : Completion A
  returned : A → Completion A

module _ (H : Host) where
  abbrev Effect : Type 0 → Type 0
  Effect A = H.World → Result LinuxLifecycleError A × H.World

  unfoldable pub request : Text → H.FilePath → Effect (Unit {0})
  request flag dir w =
      let (r, w') = H.write (H.join dir cgroup_freeze_file) flag w in (map_err io r, w')

  abbrev request_freeze : H.FilePath → Effect (Unit {0})
  request_freeze = request (codes "1\n")

  abbrev request_thaw : H.FilePath → Effect (Unit {0})
  request_thaw = request (codes "0\n")

  unfoldable pub status : H.FilePath → Effect CgroupV2Status
  unfolding parse_status
  status dir w =
      let (input, w') = H.read_to_string (H.join dir cgroup_events_file) w in
      (map_err io input >>= parse_status, w')

  abbrev pub Waited : Type 0
  Waited = Completion (Result LinuxLifecycleError (Unit {0})) × H.World

  abbrev after_status :
      Bool → ℕ → (H.World → Waited) → Result LinuxLifecycleError CgroupV2Status × H.World → Waited
  after_status expected_frozen deadline rest (err e, w) = (returned (err e), w)
  after_status expected_frozen deadline rest (ok st, w) =
      let (time, w') = H.now w in
      if same_flag st.frozen expected_frozen
      then (returned (ok tt), w)
      else if leb deadline time
      then (returned (err (timeout_error expected_frozen)), w')
      else rest w'

  -- The loop of `wait_for_frozen_state`.
  unfoldable pub wait_loop : ℕ → H.FilePath → Bool → ℕ → ℕ → H.World → Waited
  wait_loop zero dir expected_frozen deadline poll_interval w = (unfinished, w)
  wait_loop (suc fuel) dir expected_frozen deadline poll_interval w =
      after_status expected_frozen deadline
        (λ w'. wait_loop fuel dir expected_frozen deadline poll_interval (H.sleep poll_interval w'))
        (status dir w)

  -- Each round sleeps for at least a nanosecond.
  unfoldable pub wait_for_frozen_state : H.FilePath → Bool → ℕ → ℕ → H.World → Waited
  unfolding wait_loop
  wait_for_frozen_state dir expected_frozen timeout poll_interval w =
      let (start, w') = H.now w in
      if poll_interval == 0
      then (returned (err invalid_poll_interval), w)
      else if ltb H.latest (start + timeout)
      then (panicked, w')
      else wait_loop (suc (suc timeout)) dir expected_frozen (start + timeout) poll_interval w'

  abbrev pub Done : Type 0
  Done = Completion (Result Text (Unit {0})) × H.World

  abbrev displayed : Waited → Done
  displayed (unfinished, w) = (unfinished, w)
  displayed (panicked, w) = (panicked, w)
  displayed (returned r, w) = (returned (map_err display r), w)

  abbrev requested :
      FreezeOnlyCgroupEffects H → Bool → Result LinuxLifecycleError (Unit {0}) × H.World → Done
  requested e expected_frozen (err x, w) = (returned (err (display x)), w)
  requested e expected_frozen (ok _, w) =
      displayed
        (wait_for_frozen_state e.cgroup_dir expected_frozen e.effect_timeout e.poll_interval w)

  unfoldable pub freeze : FreezeOnlyCgroupEffects H → H.World → Done
  unfolding request wait_for_frozen_state
  freeze e w = requested e true (request_freeze e.cgroup_dir w)

  unfoldable pub thaw : FreezeOnlyCgroupEffects H → H.World → Done
  unfolding request wait_for_frozen_state
  thaw e w = requested e false (request_thaw e.cgroup_dir w)

  unfoldable pub freeze_status :
      FreezeOnlyCgroupEffects H → H.World → Result Text FreezeTransitionStatus × H.World
  unfolding status
  freeze_status e w =
      let (r, w') = status e.cgroup_dir w in
      (map_err display r >>= λ st. ok (record { populated = st.populated; frozen = st.frozen }), w')

abbrev hibernate_disabled : Text
hibernate_disabled = codes "hibernate effects are disabled for freeze-only lifecycle adapter"

unfoldable pub checkpoint_and_terminate : Result Text LifecycleCheckpoint
checkpoint_and_terminate = err hibernate_disabled

unfoldable pub restore : LifecycleCheckpoint → Result Text (Unit {0})
restore checkpoint = err hibernate_disabled
