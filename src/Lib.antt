-- ===== src/Lib.antt =====
-- Verification library of ores-otel-sidecar.rs: a sidecar that collects telemetry beside a service,
-- suspends and resumes the service by what its activity says, serves runtime values that a backend
-- updates, and receives frames of metadata and data.
--
-- The process lifecycle. src/process_lifecycle.rs is a pure policy: `decide` takes a state, a
-- policy and an event to the next state and an action. src/process_lifecycle_record.rs is the
-- durable record that controllers replace by compare-and-set, with the tests that a record and a
-- replacement must pass. src/process_lifecycle_agent.rs is one pass of a controller:
-- `reconcile_once` loads the record, checks that it may act, observes the host, asks the policy,
-- and carries the action out through the store, the product and the process effects, publishing an
-- intent before each effect. src/adapters/state_machine/process_lifecycle_recovery.rs takes over
-- the freeze transitions that a dead controller left, from what the kernel reports.
--
-- Runtime values. src/runtime_values.rs keeps an allow-list, a baseline and the overrides of a
-- backend; src/runtime_updates.rs feeds the overrides from snapshots and from batches in the order
-- of their revisions, and asks for a reconcile when it misses one.
--
-- The receiver. src/receiver.rs reads frames from two streams: a bounded line of JSON metadata from
-- one, and then as many bytes as it declares from the other.
--
-- The runtime of the agent. src/process_lifecycle_runtime/config.rs reads its configuration;
-- src/process_lifecycle_runtime/product_control.rs and host_control.rs beside it are the clients of
-- the product's socket and of the trusted host's; src/adapters/process_lifecycle_product_control.rs
-- and src/adapters/process_lifecycle_host_control.rs make them services of the agent.
-- src/adapters/linux_process_lifecycle.rs freezes a control group, and
-- src/adapters/process_lifecycle_freeze.rs makes that the agent's effects;
-- src/adapters/process_lifecycle_attested_freeze.rs does so between two attestations of the process
-- by src/adapters/process_lifecycle_identity.rs.
--
-- The store. src/adapters/process_lifecycle_file_store.rs keeps each workload's record in a file
-- that it replaces by a rename, and is the agent's record store.
--
-- The lease. src/adapters/process_lifecycle_lease.rs acquires and renews the right to act on a
-- workload; src/adapters/process_lifecycle_cloudflare_do.rs is the transport to the authority that
-- grants it.
--
-- The configuration. src/config.rs makes the configuration of the sidecar of a bind address that
-- src/bind.rs accepts and of a file that src/file_config.rs reads; the file names the values that
-- src/runtime_values.rs serves and the keyspace that src/runtime_updates.rs listens to.
--
-- The probes. src/http.rs answers health, readiness and metrics requests.
--
-- Files and what they model, one function per function of the source under the source's name:
--   Prelude       Boolean tests on the native numbers, results with `do`, texts as lists of code
--                 points with their UTF-8 bytes, and the lemmas on them
--   Lifecycle     src/process_lifecycle.rs; Graph is its diagram, Runs the sequences of events
--   Record        src/process_lifecycle_record.rs; Segment, Checkpoint, Valid and Update say what its
--                 tests accept, History is about chains of replacements
--   Services      the traits of src/process_lifecycle_agent.rs and of
--                 src/adapters/process_lifecycle_freeze.rs, and the monad that calls them
--   Agent         src/process_lifecycle_agent.rs; Admission, Protocol, Fence and Outcome are about
--                 the calls that a pass makes
--   Recovery      src/adapters/state_machine/process_lifecycle_recovery.rs; Protocol and Fence as
--                 for the agent
--   Maps          BTreeMap and BTreeSet of texts as ordered association lists
--   SidecarError  src/error.rs
--   Values        src/runtime_values.rs; Patch and Governed are about its overrides, Initial about
--                 new values
--   Batch         the batches of src/runtime_updates.rs, their tests and their admission
--   Updates       the controller of src/runtime_updates.rs; Steps, Mirror, Runs and Governed
--                 are about it
--   Lease         src/adapters/process_lifecycle_lease.rs: scopes and their lock keys; Grant has the
--                 leases over an arbitrary lock library (`LockLibrary`), Key is about equal keys,
--                 Renewals about a lease that is renewed
--   Actions       calls that change a world and may fail
--   CloudflareLease  src/adapters/process_lifecycle_cloudflare_do.rs: Wire has the messages,
--                 Credentials makes the transport; Answers and Fresh are about acquired leases,
--                 Sent about requests, Trusted about the transports
--   Bind          src/bind.rs; Guard is about accepted addresses
--   FileConfig    src/file_config.rs; Checked is about accepted files
--   SidecarConfig  src/config.rs, with the bind hooks of src/hooks.rs; Loaded is about loaded files
--   Strings       what the source uses of `str`; Lines and Decode for lines and bytes
--   Paths         what the source uses of `Path`
--   Cgroup        src/adapters/linux_process_lifecycle.rs without CRIU, and
--                 src/adapters/process_lifecycle_freeze.rs; Events and Wait are about them
--   RuntimeError  the errors of src/process_lifecycle_runtime.rs
--   Config        src/process_lifecycle_runtime/config.rs; Parse has its parsers, Safety is about
--                 accepted configurations
--   Control       the exchange on a socket that the two clients share; Frames is about responses
--   ProductControl  src/process_lifecycle_runtime/product_control.rs and its adapter
--   HostControl   src/process_lifecycle_runtime/host_control.rs; Workload is
--                 src/adapters/process_lifecycle_host_control.rs, Snapshot and Pinned are about both
--   Identity      src/adapters/process_lifecycle_identity.rs; Parse has its parsers, Attested is
--                 src/adapters/process_lifecycle_attested_freeze.rs, Evidence and Guarded are about
--                 both
--   FileStore     src/adapters/process_lifecycle_file_store.rs; Disk has the file system with the
--                 functions of src/adapters/stream.rs, Keys is about file names, Kept and Held about
--                 single steps, Atomic and Published about replacements, Initialized about new
--                 records; Opening opens a store; Runs is about sequences of calls
--   Http          the requests of src/http.rs; Response has its responses, Admission is about
--                 accepted requests
--   Stream        what `BufRead` and `Read` deliver: chunks of any sizes, and errors
--   Framing       the loops of src/receiver.rs, for a line and for data; Lines and Chunks compare
--                 them with references on the whole stream, Progress is about what is left of it
--   Receiver      the rest of src/receiver.rs, All has its loop over the frames; Frames is about
--                 one frame, Delivered about all that a sink is given
--   Scenarios     the properties on concrete inputs
-- A function whose body branches after a call is split at the branch: `after_quiesce`,
-- `suspend_drained` and `commit_suspend` are the rest of `suspend_from_running` from that point on.
--
-- The services. The store, the host, the product and the effects are arbitrary functions on an
-- abstract world (`Services`): each answers a call with a result and a new world. No property
-- assumes anything of them. `System` carries a log of the calls, newest first, with their arguments
-- and answers; the modelled code never reads it.
--
-- Machine integers are native naturals: the code compares them, and adds to them by
-- `saturating_add` and `checked_add`, whose bounds are written out (`usize` has 64 bits), and else
-- only a byte or a chunk to the length of data that is in memory, or one to such a position, count
-- or constant. A wait adds its timeout to an instant: beyond the latest instant that the host can
-- represent (`latest`) it panics, which is how the wait then ends (`panicked` of `Completion`).
-- Texts are code points because the source measures bytes and tests characters. A poisoned lock is
-- a flag of the state; a poisoned lock fails each operation that takes it. A reached `unreachable!`
-- is the result `panicked` of `Stop`. An `Arc` that clones share is one value, since each operation
-- reads or swaps it whole under its lock. Error strings of the services are texts. JSON is a
-- parameter of the receiver (`Json`). Two functions have fuel. The wait loop of Cgroup has as many
-- rounds as the timeout has nanoseconds, and two more, which are enough because each round sleeps
-- for at least one. The loop of the receiver over its frames has as many as the metadata stream has
-- bytes and reads to come, and one more, which are enough because each frame takes a byte at least.
-- The file system and the clock it reads are a parameter (`Host`, `ProcHost`), with the laws of a
-- monotonic clock (`Clock`) as a hypothesis. Every other function recurses on its data, if at all;
-- the loops that read a stream recurse on what is still to come. The answers of a control socket
-- (`Socket`), `serde` (`Codec`, `Probe`) and the host authority (`TrustedHostAuthority`) are
-- parameters of which nothing is assumed.
--
-- The store's disk maps paths to entries. Each call consults an oracle: it may fail, and a failed
-- write may leave a file with any bytes; it also gives the names in a directory that is read. The
-- lock that the store holds stands for the absence of other writers between its calls. Its
-- serializer (`Serde`) is a parameter; only what is said of sequences of calls assumes that records
-- round-trip through it (`RoundTrips`).
--
-- Not modelled: the serialisation of records; CRIU; the command line and the checks of the host's
-- directories; the listener that accepts connections; the telemetry integrations.
mod Prelude
pub mod Lifecycle
pub mod Record
pub mod Services
pub mod Agent
pub mod Recovery
pub mod Maps
pub mod SidecarError
pub mod Values
pub mod Batch
pub mod Updates
pub mod Lease
pub mod Strings
pub mod Cgroup
pub mod Http
pub mod Paths
pub mod RuntimeError
pub mod Config
pub mod Control
pub mod ProductControl
pub mod HostControl
pub mod Identity
pub mod FileStore
pub mod Stream
pub mod Framing
pub mod Receiver
mod Scenarios
pub mod Actions
pub mod CloudflareLease
pub mod Bind
pub mod FileConfig
pub mod SidecarConfig
