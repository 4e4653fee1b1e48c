-- ===== src/FileStore/Opening.antt =====
-- How src/adapters/process_lifecycle_file_store.rs opens a store: it makes the directory of the
-- records where there is none, and removes the temporary files that a crash left in it.
use ores_otel_sidecar_rs.Prelude.{
  subst, ◌≡◌, ◌≢◌, refl, ◌∙◌, arith, Bool, true, false, not, ◌||◌, Option, none, some, List, [],
  ◌∷◌, ℕ, if◌then◌else◌, Result, ok, err, map_err, Text, codes, text_eq,
}
use ores_otel_sidecar_rs.Strings.{starts_with}
use ores_otel_sidecar_rs.Values.{ends_with}
use ores_otel_sidecar_rs.Paths.{join}
use ores_otel_sidecar_rs.FileStore.Disk.{
  ErrorKind, not_found, already_exists, invalid_input, other_kind, Entry, file, directory, symlink,
  Oracle, World, symlink_metadata, remove_file, create_dir, read_dir,
}
use ores_otel_sidecar_rs.FileStore.{
  FileLifecycleRecordStoreError, invalid_root, invalid_records_directory, invalid_temporary_entry,
  io, Stored, Act, ◌>>=◌, ◌>>◌, lift, call, continue, is_file, FileLifecycleRecordStore,
  record_path,
}
use ores_otel_sidecar_rs.FileStore.Keys.{record_path-dot_name}
use ores_otel_sidecar_rs.FileStore.Kept.{remove_keeps, metadata_keeps}

abbrev pub records_directory : Text
records_directory = codes "records"

abbrev temp_prefix : Text
temp_prefix = codes ".ores-lifecycle-"

abbrev temp_suffix : Text
temp_suffix = codes ".tmp"

module _ (O : Oracle) where
  abbrev real_directory : Result ErrorKind Entry → Result ErrorKind (Unit {0})
  real_directory (ok directory) = ok tt
  real_directory (ok symlink) = err invalid_input
  real_directory (ok (file bs)) = err invalid_input
  real_directory (err e) = err e

  unfoldable validate_real_directory : Text → World → Result ErrorKind (Unit {0}) × World
  unfolding symlink_metadata
  validate_real_directory path w = let (r, w') = symlink_metadata O path w in (real_directory r, w')

  -- With the `map_err` of its callers.
  abbrev valid_or : FileLifecycleRecordStoreError → Text → Act (Unit {0})
  valid_or e path w = let (r, w') = validate_real_directory path w in (map_err (λ _. e) r, w')

  abbrev made_or : Result ErrorKind (Unit {0}) → Stored (Unit {0})
  made_or (ok _) = ok tt
  made_or (err already_exists) = ok tt
  made_or (err e) = err (io e)

  abbrev make_directory : Text → Act (Unit {0})
  make_directory path w = let (r, w') = create_dir O path w in (made_or r, w')

  abbrev unless_there : Text → Result ErrorKind Entry → Act (Unit {0})
  unless_there path (ok e) = valid_or invalid_records_directory path
  unless_there path (err not_found) = make_directory path >> valid_or invalid_records_directory path
  unless_there path (err e) = lift (err (io e))

  unfoldable ensure_records_directory : Text → Act (Unit {0})
  unfolding symlink_metadata create_dir validate_real_directory
  ensure_records_directory path w =
      let (r, w') = symlink_metadata O path w in unless_there path r w'

  abbrev regular_or : Entry → Stored (Unit {0})
  regular_or e = if is_file e then ok tt else err invalid_temporary_entry

  abbrev remove_temporary : Text → Text → Act (Unit {0})
  remove_temporary path name = do
    e ← call (symlink_metadata O (join path name))
    lift (regular_or e)
    call (remove_file O (join path name))

  -- The body of the loop on one entry.
  unfoldable recover_entry : Text → Result ErrorKind (Option Text) → Act (Unit {0})
  unfolding symlink_metadata remove_file join starts_with ends_with
  recover_entry path (err e) = lift (err (io e))
  recover_entry path (ok none) = lift (ok tt)
  recover_entry path (ok (some name)) =
      if not (starts_with temp_prefix name) || not (ends_with name temp_suffix)
      then lift (ok tt)
      else remove_temporary path name

  unfoldable recover_entries : Text → List (Result ErrorKind (Option Text)) → Act (Unit {0})
  unfolding recover_entry
  recover_entries path [] = lift (ok tt)
  recover_entries path (e ∷ es) = recover_entry path e >>= λ _. recover_entries path es

  unfoldable recover_temporary_files : Text → Act (Unit {0})
  unfolding recover_entries read_dir
  recover_temporary_files path = call (read_dir O path) >>= recover_entries path

  -- `open`
  unfoldable pub open_store : ℕ → Text → Act FileLifecycleRecordStore
  unfolding validate_real_directory ensure_records_directory recover_temporary_files join
  open_store process_id root = do
    valid_or invalid_root root
    ensure_records_directory (join root records_directory)
    recover_temporary_files (join root records_directory)
    lift (ok (record { records_root = join root records_directory; process_id = process_id }))

  module _ (root id q : Text) (is_path : record_path (join root records_directory) id ≡ ok q)
      (e : Entry) where
    abbrev Spares : {A : Type 0} → Act A → Type 0
    Spares m = (w : World) → w.disk q ≡ some e → (m w).1.disk q ≡ some e

    then-Spares :
        {A B : Type 0} (m : Act A) (f : A → Act B)
        → Spares m
        → ((a : A) → Spares (f a))
        → Spares (m >>= f)
    then-Spares {A = A} m f spares rest w h = go (m w) (spares w h)
      where
        go : (r : Stored A × World) → r.1.disk q ≡ some e → (continue r.0 f r.1).1.disk q ≡ some e
        go (ok a, w') h' = rest a w' h'
        go (err x, w') h' = h'

    validate-Spares : (x : FileLifecycleRecordStoreError) (p : Text) → Spares (valid_or x p)
    unfolding validate_real_directory
    validate-Spares x p w h = metadata_keeps O q p w ∙ h

    create_dir-Spares : (p : Text) → Spares (make_directory p)
    unfolding create_dir
    create_dir-Spares p w h = ground arith

    unless_there-Spares : (p : Text) (r : Result ErrorKind Entry) → Spares (unless_there p r)
    unless_there-Spares p (ok x) w h = validate-Spares invalid_records_directory p w h
    unless_there-Spares p (err not_found) w h =
        then-Spares (make_directory p) _ (create_dir-Spares p)
          (λ _. validate-Spares invalid_records_directory p) w h
    unless_there-Spares p (err already_exists) w h = h
    unless_there-Spares p (err invalid_input) w h = h
    unless_there-Spares p (err (other_kind n)) w h = h

    ensure-Spares : (p : Text) → Spares (ensure_records_directory p)
    unfolding ensure_records_directory
    ensure-Spares p w h =
        unless_there-Spares p (symlink_metadata O p w).0 (symlink_metadata O p w).1
          (metadata_keeps O q p w ∙ h)

    two_heads :
        (x y : ℕ) (rest : Text) (a b : ℕ) (t : Text)
        → starts_with (x ∷ y ∷ rest) (a ∷ b ∷ t) ≡ true
        → (a ≡ x) × (b ≡ y)
    unfolding starts_with
    two_heads x y rest a b t h = ground arith

    not_one : (x y : ℕ) (rest : Text) (a : ℕ) → starts_with (x ∷ y ∷ rest) (a ∷ []) ≢ true
    unfolding starts_with
    not_one x y rest a h = ground arith

    temporary_apart :
        (name : Text)
        → starts_with temp_prefix name ≡ true
        → join (join root records_directory) name ≢ q
    unfolding starts_with
    temporary_apart [] h e = cc
    temporary_apart (a ∷ []) h e = absurd (not_one b'.' b'o' (codes "res-lifecycle-") a h)
    temporary_apart (a ∷ b ∷ y) h e =
        let (dot, o) = two_heads b'.' b'o' (codes "res-lifecycle-") a b y h in
        record_path-dot_name (join root records_directory) id q y is_path (
          subst (λ x. join (join root records_directory) (x ∷ b'o' ∷ y) ≡ q) dot
            (subst (λ x. join (join root records_directory) (a ∷ x ∷ y) ≡ q) o e))

    remove_temporary-Spares :
        (name : Text)
        → starts_with temp_prefix name ≡ true
        → Spares (remove_temporary (join root records_directory) name)
    remove_temporary-Spares name h =
        let path = join (join root records_directory) name in
        then-Spares (call (symlink_metadata O path)) _ (λ w t. metadata_keeps O q path w ∙ t)
          λ x.
            then-Spares (lift (regular_or x)) _ (λ w t. t)
              λ _ w t. remove_keeps O q path w (temporary_apart name h) ∙ t

    unless_temporary-Spares :
        (a b : Bool) (m : Act (Unit {0}))
        → (a ≡ true → Spares m)
        → Spares (if not a || not b then lift (ok tt) else m)
    unless_temporary-Spares false b m h w t = t
    unless_temporary-Spares true false m h w t = t
    unless_temporary-Spares true true m h w t = h refl w t

    recover_entry-Spares :
        (x : Result ErrorKind (Option Text))
        → Spares (recover_entry (join root records_directory) x)
    unfolding recover_entry
    recover_entry-Spares (err k) w h = h
    recover_entry-Spares (ok none) w h = h
    recover_entry-Spares (ok (some name)) w h =
        unless_temporary-Spares (starts_with temp_prefix name) (ends_with name temp_suffix)
          (remove_temporary (join root records_directory) name) (remove_temporary-Spares name) w h

    recover_entries-Spares :
        (es : List (Result ErrorKind (Option Text)))
        → Spares (recover_entries (join root records_directory) es)
    unfolding recover_entries
    recover_entries-Spares [] w h = h
    recover_entries-Spares (x ∷ es) w h =
        then-Spares (recover_entry (join root records_directory) x) _ (recover_entry-Spares x)
          (λ _. recover_entries-Spares es) w h

    recover_temporary_files-Spares : Spares (recover_temporary_files (join root records_directory))
    unfolding recover_temporary_files read_dir
    recover_temporary_files-Spares =
        then-Spares (call (read_dir O (join root records_directory))) _ (λ w h. ground arith)
          recover_entries-Spares

    -- Whatever fails, a workload's file that is there stays as it is.
    pub open_store-Spares : (process_id : ℕ) → Spares (open_store process_id root)
    unfolding open_store
    open_store-Spares process_id =
        then-Spares (valid_or invalid_root root) _ (validate-Spares invalid_root root) λ _.
          then-Spares (ensure_records_directory (join root records_directory)) _
            (ensure-Spares (join root records_directory))
            λ _.
              then-Spares (recover_temporary_files (join root records_directory)) _
                recover_temporary_files-Spares λ _ w h. h
