-- ===== src/FileStore/Disk.antt =====
-- What the store uses of the file system, with what the kernel may answer instead: the calls of
-- src/adapters/process_lifecycle_file_store.rs and the functions of src/adapters/stream.rs. A path
-- is its text. A call that fails by the oracle has changed nothing, but for a write, which may
-- leave a new file with any bytes.
use ores_otel_sidecar_rs.Prelude.{
  ℕ, suc, ◌+◌, Option, none, some, List, [], ◌≟◌, if◌then◌else◌, Result, ok, err, Text, text_eq,
  take,
}

pub data ErrorKind : Type 0 where
  not_found already_exists invalid_input : ErrorKind
  other_kind : ℕ → ErrorKind

pub data Entry : Type 0 where
  file : List ℕ → Entry
  directory : Entry
  symlink : Entry

abbrev pub Disk : Type 0
Disk = Text → Option Entry

-- Of the calls by their numbers: the error of a call, what a failed write left, the time in
-- nanoseconds since 1970, if the clock is not before that, and the entries of a directory that is
-- read: an error, or a name if it is Unicode.
pub record Oracle : Type 0 where
  pub fault : ℕ → Option ErrorKind
  pub torn : ℕ → Option (List ℕ)
  pub clock : ℕ → Option ℕ
  pub entries : ℕ → List (Result ErrorKind (Option Text))

pub record World : Type 0 where
  pub disk : Disk
  pub calls : ℕ

abbrev pub put : Text → Option Entry → Disk → Disk
put p e disk q = if q ≟ p then e else disk q

module _ (O : Oracle) where
  abbrev Io : Type 0 → Type 0
  Io A = World → Result ErrorKind A × World

  abbrev pub counted : Disk → World → World
  counted disk w = record { disk = disk; calls = suc w.calls }

  abbrev unless :
      {A : Type 0}
      → Option ErrorKind
      → World
      → Result ErrorKind A × World
      → Result ErrorKind A × World
  unless (some e) w r = (err e, counted w.disk w)
  unless none w r = r

  abbrev entry_or : Option Entry → Result ErrorKind Entry
  entry_or none = err not_found
  entry_or (some e) = ok e

  unfoldable pub symlink_metadata : Text → Io Entry
  symlink_metadata p w = unless (O.fault w.calls) w (entry_or (w.disk p), counted w.disk w)

  abbrev pub bytes_or : ℕ → Option Entry → Result ErrorKind (List ℕ)
  bytes_or n none = err not_found
  bytes_or n (some (file bs)) = ok (take n bs)
  bytes_or n (some directory) = err invalid_input
  bytes_or n (some symlink) = err invalid_input

  unfoldable pub read_bounded : Text → ℕ → Io (List ℕ)
  read_bounded p max_bytes w =
      unless (O.fault w.calls) w (bytes_or (max_bytes + 1) (w.disk p), counted w.disk w)

  abbrev left_file : Text → Option (List ℕ) → Disk → Disk
  left_file p none disk = disk
  left_file p (some bs) disk = put p (some (file bs)) disk

  abbrev written : Text → List ℕ → Option ErrorKind → World → Result ErrorKind (Unit {0}) × World
  written p bs none w = (ok tt, counted (put p (some (file bs)) w.disk) w)
  written p bs (some e) w = (err e, counted (left_file p (O.torn w.calls) w.disk) w)

  abbrev created : Text → List ℕ → Option Entry → World → Result ErrorKind (Unit {0}) × World
  created p bs (some e) w = (err already_exists, counted w.disk w)
  created p bs none w = written p bs (O.fault w.calls) w

  unfoldable pub write_synced_new : Text → List ℕ → Io (Unit {0})
  write_synced_new p bs w = created p bs (w.disk p) w

  abbrev moved :
      Text → Text → Option Entry → Option Entry → World → Result ErrorKind (Unit {0}) × World
  moved from to none there w = (err not_found, counted w.disk w)
  moved from to (some e) (some directory) w = (err invalid_input, counted w.disk w)
  moved from to (some e) _ w = (ok tt, counted (put to (some e) (put from none w.disk)) w)

  unfoldable pub rename : Text → Text → Io (Unit {0})
  rename from to w = unless (O.fault w.calls) w (moved from to (w.disk from) (w.disk to) w)

  abbrev linked : Text → Option Entry → Option Entry → World → Result ErrorKind (Unit {0}) × World
  linked to none there w = (err not_found, counted w.disk w)
  linked to (some e) (some there) w = (err already_exists, counted w.disk w)
  linked to (some e) none w = (ok tt, counted (put to (some e) w.disk) w)

  unfoldable pub hard_link : Text → Text → Io (Unit {0})
  hard_link from to w = unless (O.fault w.calls) w (linked to (w.disk from) (w.disk to) w)

  abbrev removed : Text → Option Entry → World → Result ErrorKind (Unit {0}) × World
  removed p none w = (err not_found, counted w.disk w)
  removed p (some e) w = (ok tt, counted (put p none w.disk) w)

  unfoldable pub remove_file : Text → Io (Unit {0})
  remove_file p w = unless (O.fault w.calls) w (removed p (w.disk p) w)

  -- A call that leaves the disk as it is: syncing a directory, or locking a file.
  unfoldable pub sync : Io (Unit {0})
  sync w = unless (O.fault w.calls) w (ok tt, counted w.disk w)

  abbrev opened : Text → Option Entry → World → Result ErrorKind (Unit {0}) × World
  opened p none w = (ok tt, counted (put p (some (file [])) w.disk) w)
  opened p (some (file bs)) w = (ok tt, counted w.disk w)
  opened p (some directory) w = (err invalid_input, counted w.disk w)
  opened p (some symlink) w = (err invalid_input, counted w.disk w)

  -- Open for writing, creating the file where there is none.
  unfoldable pub open_or_create : Text → Io (Unit {0})
  open_or_create p w = unless (O.fault w.calls) w (opened p (w.disk p) w)

  unfoldable pub now : World → Option ℕ × World
  now w = (O.clock w.calls, counted w.disk w)

  abbrev made : Text → Option Entry → World → Result ErrorKind (Unit {0}) × World
  made p none w = (ok tt, counted (put p (some directory) w.disk) w)
  made p (some e) w = (err already_exists, counted w.disk w)

  unfoldable pub create_dir : Text → Io (Unit {0})
  create_dir p w = unless (O.fault w.calls) w (made p (w.disk p) w)

  unfoldable pub read_dir : Text → Io (List (Result ErrorKind (Option Text)))
  read_dir p w = unless (O.fault w.calls) w (ok (O.entries w.calls), counted w.disk w)
