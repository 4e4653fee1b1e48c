-- ===== src/FileStore.antt =====
-- src/adapters/process_lifecycle_file_store.rs: the records of workloads as files that are replaced by
-- a rename. `serde_json` is a parameter. The lock that the store holds keeps other controllers out,
-- so no one else writes between its calls.
pub mod Disk
pub mod Keys
pub mod Kept
pub mod Held
pub mod Atomic
pub mod Published
pub mod Initialized
pub mod Runs
pub mod Opening
use ores_otel_sidecar_rs.Prelude.{
  ℕ, ◌+◌, ◌*◌, ◌/◌, ◌%◌, Bool, true, false, not, ◌&&◌, ◌||◌, Option, none, some, List, [], ◌∷◌,
  ◌++◌, ltb, ◌==◌, ◌≟◌, if◌then◌else◌, length, Result, ok, err, map_err, reject_if, Text, codes,
  text_eq, bytes,
}
use ores_otel_sidecar_rs.Strings.Decode.{decimal, decimal_on}
use ores_otel_sidecar_rs.Paths.{join}
use ores_otel_sidecar_rs.Record.{
  PersistedLifecycleState, running, quiescing, freezing, frozen, checkpointing, hibernated, thawing,
  restoring, PersistedSuspendStrategy, freeze, hibernate, LifecycleCheckpoint, LifecycleRecord,
  valid_identity_segment, validate, validate_record_update,
}
use ores_otel_sidecar_rs.FileStore.Disk.{
  ErrorKind, not_found, already_exists, Entry, file, directory, symlink, Oracle, World,
  symlink_metadata, read_bounded, write_synced_new, rename, hard_link, remove_file, sync,
  open_or_create, now,
}

abbrev pub max_record_bytes : ℕ
max_record_bytes = 65536

pub data FileLifecycleRecordStoreError : Type 0 where
  invalid_root invalid_records_directory invalid_workload_id invalid_record invalid_lock_file
        record_too_large missing_record already_initialized unexpected_current
        invalid_temporary_entry clock_unavailable json :
      FileLifecycleRecordStoreError
  io : ErrorKind → FileLifecycleRecordStoreError

-- `Display`
unfoldable store_error : FileLifecycleRecordStoreError → Text
store_error invalid_root = codes "lifecycle record root must be an existing real directory"
store_error invalid_records_directory = codes "lifecycle records directory must be a real directory"
store_error invalid_workload_id = codes "lifecycle workload id is not file-store safe"
store_error invalid_record = codes "lifecycle record violates durable invariants"
store_error invalid_lock_file = codes "lifecycle CAS lock path must be a real regular file"
store_error record_too_large = codes "lifecycle record exceeds durable byte limit"
store_error missing_record = codes "lifecycle record does not exist"
store_error already_initialized = codes "lifecycle record is already initialized"
store_error unexpected_current = codes "lifecycle compare-and-set expected record is stale"
store_error invalid_temporary_entry = codes "lifecycle temporary record entry is invalid"
store_error clock_unavailable = codes "system clock unavailable for temporary record identity"
store_error json = codes "lifecycle record JSON is invalid"
store_error (io kind) = codes "lifecycle record filesystem operation failed"

abbrev pub Stored : Type 0 → Type 0
Stored = Result FileLifecycleRecordStoreError

abbrev hex_digit : ℕ → ℕ
hex_digit n = if ltb n 10 then n + b'0' else n + 87

-- `{byte:02x}` of each byte
unfoldable pub hex : List ℕ → Text
hex [] = []
hex (b ∷ bs) = hex_digit (b / 16) ∷ hex_digit (b % 16) ∷ hex bs

-- The test on the bytes is that of a record's segments: 1 to 96 bytes of its alphabet.
unfoldable pub workload_file_key : Text → Stored Text
unfolding hex valid_identity_segment
workload_file_key workload_id =
    if not (valid_identity_segment workload_id)
    then err invalid_workload_id
    else ok (hex (bytes workload_id))

abbrev pub in_root : Text → Text → Stored Text → Stored Text
in_root root suffix (ok key) = ok (join root (key ++ suffix))
in_root root suffix (err e) = err e

unfoldable pub record_path : Text → Text → Stored Text
unfolding workload_file_key join
record_path records_root workload_id =
    in_root records_root (codes ".json") (workload_file_key workload_id)

unfoldable pub lock_path : Text → Text → Stored Text
unfolding workload_file_key join
lock_path records_root workload_id =
    in_root records_root (codes ".lock") (workload_file_key workload_id)

abbrev pub state_index : PersistedLifecycleState → ℕ
state_index running = 0
state_index quiescing = 1
state_index freezing = 2
state_index frozen = 3
state_index checkpointing = 4
state_index hibernated = 5
state_index thawing = 6
state_index restoring = 7

abbrev pub same_strategy : PersistedSuspendStrategy → PersistedSuspendStrategy → Bool
same_strategy freeze freeze = true
same_strategy hibernate hibernate = true
same_strategy _ _ = false

abbrev pub same_checkpoint : Option LifecycleCheckpoint → Option LifecycleCheckpoint → Bool
same_checkpoint none none = true
same_checkpoint (some c) (some d) =
    c.artifact_ref ≟ d.artifact_ref && c.digest ≟ d.digest && c.format ≟ d.format
same_checkpoint none (some d) = false
same_checkpoint (some c) none = false

-- `==`
unfoldable pub same_record : LifecycleRecord → LifecycleRecord → Bool
same_record r s =
    r.workload_id ≟ s.workload_id
    && r.assigned_node ≟ s.assigned_node
    && r.placement_epoch == s.placement_epoch
    && r.runtime_epoch == s.runtime_epoch
    && r.fencing_token == s.fencing_token
    && r.revision == s.revision
    && state_index r.state == state_index s.state
    && same_strategy r.strategy s.strategy
    && same_checkpoint r.checkpoint s.checkpoint

pub record Serde : Type 0 where
  pub to_vec : LifecycleRecord → Option (List ℕ)
  pub from_slice : List ℕ → Option LifecycleRecord

-- The store's environment: its directory and its process.
pub record FileLifecycleRecordStore : Type 0 where
  pub records_root : Text
  pub process_id : ℕ

abbrev pub Act : Type 0 → Type 0
Act A = World → Stored A × World

module _ {A B : Type 0} where
  abbrev pub continue : Stored A → (A → Act B) → Act B
  continue (ok a) f w = f a w
  continue (err e) f w = (err e, w)

  infixl 5 ◌>>=◌ ◌>>◌
  abbrev pub ◌>>=◌ : Act A → (A → Act B) → Act B
  ◌>>=◌ m f w = let (r, w') = m w in continue r f w'

  abbrev pub ◌>>◌ : Act A → Act B → Act B
  m >> k = m >>= λ _. k

-- `?` on a result that no call gave
abbrev pub lift : {A : Type 0} → Stored A → Act A
lift r w = (r, w)

-- A call with `map_err(io_error)`
abbrev pub call : {A : Type 0} → (World → Result ErrorKind A × World) → Act A
call m w = let (r, w') = m w in (map_err io r, w')

abbrev some_or : {A : Type 0} → FileLifecycleRecordStoreError → Option A → Stored A
some_or e none = err e
some_or e (some a) = ok a

abbrev pub is_file : Entry → Bool
is_file (file bs) = true
is_file directory = false
is_file symlink = false

abbrev entry_length : Entry → ℕ
entry_length (file bs) = length bs
entry_length directory = 0
entry_length symlink = 0

abbrev keyed : Stored Text → Stored (Unit {0}) → Stored (Unit {0})
keyed (err e) valid = err e
keyed (ok key) valid = valid

unfoldable pub validate_record : LifecycleRecord → Stored (Unit {0})
unfolding workload_file_key validate
validate_record r =
    keyed (workload_file_key r.workload_id) (map_err (λ _. invalid_record) (validate r))

abbrev bounded : Option (List ℕ) → Stored (List ℕ)
bounded none = err json
bounded (some bs) = if ltb max_record_bytes (length bs) then err record_too_large else ok bs

-- `as_nanos` has 128 bits, at most 39 digits.
unfoldable pub temporary_name : ℕ → Text → LifecycleRecord → ℕ → Text
unfolding decimal
temporary_name process_id key r nonce =
    codes ".ores-lifecycle-"
    ++ key
    ++ codes "-"
    ++ decimal r.revision
    ++ codes "-"
    ++ decimal process_id
    ++ codes "-"
    ++ decimal_on 39 nonce
    ++ codes ".tmp"

abbrev pub require_same :
    LifecycleRecord → LifecycleRecord → FileLifecycleRecordStoreError → Stored (Unit {0})
require_same r s e = if same_record r s then ok tt else err e

abbrev pub valid_update : LifecycleRecord → LifecycleRecord → Stored (Unit {0})
valid_update expected next = map_err (λ _. invalid_record) (validate_record_update expected next)

module _ (S : Serde) (O : Oracle) (store : FileLifecycleRecordStore) where
  unfoldable pub serialize_record : LifecycleRecord → Stored (List ℕ)
  serialize_record r = bounded (S.to_vec r)

  abbrev metadata_of : Result ErrorKind Entry → Stored Entry
  metadata_of (ok e) = ok e
  metadata_of (err not_found) = err missing_record
  metadata_of (err e) = err (io e)

  unfoldable pub record_metadata : Text → Act Entry
  unfolding symlink_metadata
  record_metadata path w = let (r, w') = symlink_metadata O path w in (metadata_of r, w')

  unfoldable pub check_metadata : Entry → Stored (Unit {0})
  check_metadata metadata =
      if not (is_file metadata)
      then err invalid_record
      else if ltb max_record_bytes (entry_length metadata)
      then err record_too_large
      else ok tt

  abbrev parsed_for : Text → LifecycleRecord → Stored (Unit {0}) → Stored LifecycleRecord
  parsed_for workload_id r (err e) = err e
  parsed_for workload_id r (ok _) = if r.workload_id ≟ workload_id then ok r else err invalid_record

  abbrev parsed : Text → Option LifecycleRecord → Stored LifecycleRecord
  parsed workload_id none = err json
  parsed workload_id (some r) = parsed_for workload_id r (validate_record r)

  -- From the bytes on, in `load_record`.
  unfoldable pub parse_record : Text → List ℕ → Stored LifecycleRecord
  parse_record workload_id bs =
      if ltb max_record_bytes (length bs)
      then err record_too_large
      else parsed workload_id (S.from_slice bs)

  abbrev pub read_record : Text → Act (List ℕ)
  read_record path = call (read_bounded O path max_record_bytes)

  unfoldable pub load_record : Text → Act LifecycleRecord
  load_record workload_id = do
    path ← lift (record_path store.records_root workload_id)
    metadata ← record_metadata path
    lift (check_metadata metadata)
    bs ← read_record path
    lift (parse_record workload_id bs)

  abbrev lockable : Result ErrorKind Entry → Stored (Unit {0})
  lockable (ok e) = if is_file e then ok tt else err invalid_lock_file
  lockable (err not_found) = ok tt
  lockable (err e) = err (io e)

  abbrev pub locked_file : Entry → Stored (Unit {0})
  locked_file e = if is_file e then ok tt else err invalid_lock_file

  unfoldable pub lock_candidate : Text → Act (Unit {0})
  unfolding symlink_metadata
  lock_candidate path w = let (r, w') = symlink_metadata O path w in (lockable r, w')

  abbrev pub open_lock : Text → Act (Unit {0})
  open_lock path = call (open_or_create O path)

  abbrev pub lock_metadata : Text → Act Entry
  lock_metadata path = call (symlink_metadata O path)

  abbrev take_lock : Act (Unit {0})
  take_lock = call (sync O)

  unfoldable pub acquire_workload_lock : Text → Act (Unit {0})
  acquire_workload_lock workload_id = do
    path ← lift (lock_path store.records_root workload_id)
    lock_candidate path
    open_lock path
    metadata ← lock_metadata path
    lift (locked_file metadata)
    take_lock

  abbrev nonce_or : Option ℕ → Stored ℕ
  nonce_or none = err clock_unavailable
  nonce_or (some n) = ok n

  unfoldable pub read_nonce : Act ℕ
  unfolding now
  read_nonce w = let (n, w') = now O w in (nonce_or n, w')

  abbrev pub temporary_path : Text → LifecycleRecord → ℕ → Text
  temporary_path key r nonce = join store.records_root (temporary_name store.process_id key r nonce)

  abbrev pub write_new : Text → List ℕ → Act (Unit {0})
  write_new path bs = call (write_synced_new O path bs)

  unfoldable pub write_temporary : LifecycleRecord → List ℕ → Act Text
  write_temporary r bs = do
    key ← lift (workload_file_key r.workload_id)
    nonce ← read_nonce
    write_new (temporary_path key r nonce) bs
    lift (ok (temporary_path key r nonce))

  unfoldable pub cleanup_temporary : Text → Act (Unit {0})
  unfolding remove_file
  cleanup_temporary path = call (remove_file O path)

  abbrev or_cleanup : Text → Result ErrorKind (Unit {0}) → Act (Unit {0})
  or_cleanup temporary (ok _) w = (ok tt, w)
  or_cleanup temporary (err e) w = (cleanup_temporary temporary >> lift (err (io e))) w

  unfoldable pub publish : Text → Text → Act (Unit {0})
  unfolding rename
  publish temporary canonical w =
      let (r, w') = rename O temporary canonical w in or_cleanup temporary r w'

  abbrev pub sync_directory : Act (Unit {0})
  sync_directory = call (sync O)

  -- From the sync of the directory on.
  unfoldable pub confirm : LifecycleRecord → Act (Unit {0})
  confirm next = do
    sync_directory
    published ← load_record next.workload_id
    lift (require_same published next invalid_record)

  -- From the serialization on, in `replace_record`.
  unfoldable pub commit : LifecycleRecord → Act (Unit {0})
  commit next = do
    bs ← lift (serialize_record next)
    temporary ← write_temporary next bs
    canonical ← lift (record_path store.records_root next.workload_id)
    publish temporary canonical
    confirm next

  -- From the lock on, in `replace_record`.
  unfoldable pub locked : LifecycleRecord → LifecycleRecord → Act (Unit {0})
  locked expected next = do
    current ← load_record expected.workload_id
    lift (require_same current expected unexpected_current)
    commit next

  unfoldable pub replace_record : LifecycleRecord → LifecycleRecord → Act (Unit {0})
  replace_record expected next = do
    lift (validate_record expected)
    lift (validate_record next)
    lift (valid_update expected next)
    acquire_workload_lock expected.workload_id
    locked expected next

  abbrev exists_or : Result ErrorKind Entry → Stored Bool
  exists_or (ok e) = ok true
  exists_or (err not_found) = ok false
  exists_or (err e) = err (io e)

  unfoldable pub path_exists : Text → Act Bool
  unfolding symlink_metadata
  path_exists path w = let (r, w') = symlink_metadata O path w in (exists_or r, w')

  abbrev link_error : ErrorKind → FileLifecycleRecordStoreError
  link_error already_exists = already_initialized
  link_error e = io e

  abbrev linked_or_cleanup : Text → Result ErrorKind (Unit {0}) → Act (Unit {0})
  linked_or_cleanup temporary (ok _) w = (ok tt, w)
  linked_or_cleanup temporary (err e) w =
      (cleanup_temporary temporary >> lift (err (link_error e))) w

  unfoldable pub publish_new : Text → Text → Act (Unit {0})
  unfolding hard_link
  publish_new temporary canonical w =
      let (r, w') = hard_link O temporary canonical w in linked_or_cleanup temporary r w'

  unfoldable pub initialize : LifecycleRecord → Act (Unit {0})
  initialize r = do
    lift (validate_record r)
    acquire_workload_lock r.workload_id
    canonical ← lift (record_path store.records_root r.workload_id)
    exists ← path_exists canonical
    lift (if exists then err already_initialized else ok tt)
    bs ← lift (serialize_record r)
    temporary ← write_temporary r bs
    publish_new temporary canonical
    cleanup_temporary temporary
    confirm r

  -- The methods of `LifecycleRecordStore`.
  unfoldable pub store_load : Text → World → Result Text LifecycleRecord × World
  unfolding store_error load_record
  store_load workload_id w = let (r, w') = load_record workload_id w in (map_err store_error r, w')

  unfoldable pub store_replace :
      LifecycleRecord → LifecycleRecord → World → Result Text (Unit {0}) × World
  unfolding store_error replace_record
  store_replace expected next w =
      let (r, w') = replace_record expected next w in (map_err store_error r, w')
