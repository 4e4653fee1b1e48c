-- ===== src/FileStore/Kept.antt =====
-- The steps of src/adapters/process_lifecycle_file_store.rs that keep a record's file.
use ores_otel_sidecar_rs.Prelude.{
  ℕ, ◌≡◌, ◌≢◌, refl, sym, subst, ◌∙◌, ◌⊎◌, arith, Option, List, ok, err, Text, text_eq,
}
use ores_otel_sidecar_rs.Record.{LifecycleRecord}
use ores_otel_sidecar_rs.FileStore.Disk.{
  Entry, Disk, Oracle, World, put, symlink_metadata, read_bounded, write_synced_new, rename,
  remove_file, sync, open_or_create, now,
}
use ores_otel_sidecar_rs.FileStore.{
  Serde, FileLifecycleRecordStore, Stored, Act, record_metadata, check_metadata, read_record,
  parse_record, lock_candidate, open_lock, lock_metadata, locked_file, read_nonce, temporary_path,
  write_new, ◌>>=◌, lift, continue, load_record, acquire_workload_lock, write_temporary, publish,
  cleanup_temporary, record_path, lock_path, workload_file_key, max_record_bytes,
}
use ores_otel_sidecar_rs.FileStore.Keys.{record_path-lock_path, record_path-temporary_name}

pub put_same : (p : Text) (e : Option Entry) (d : Disk) → put p e d p ≡ e
put_same p e d = ground arith

put_other : (p q : Text) (e : Option Entry) (d : Disk) → p ≢ q → put p e d q ≡ d q
put_other p q e d h = ground arith

after_result :
    {A B : Type 0} (P : Option Entry → Type 0) (q : Text) (d : Option Entry) (r : Stored A × World)
    (f : A → Act B)
    → r.1.disk q ≡ d
    → P d
    → ((a : A) (w1 : World) → r ≡ (ok a, w1) → w1.disk q ≡ d → P ((f a w1).1.disk q))
    → P ((continue r.0 f r.1).1.disk q)
after_result P q d (ok a, w1) f same p k = k a w1 refl same
after_result P q d (err e, w1) f same p k = subst P (sym same) p

-- After a step that keeps a file, a postcondition of the file is that of the rest of the chain, or
-- holds already.
pub after :
    {A B : Type 0} (P : Option Entry → Type 0) (q : Text) (w : World) (m : Act A) (f : A → Act B)
    → (m w).1.disk q ≡ w.disk q
    → P (w.disk q)
    → ((a : A) (w1 : World) → m w ≡ (ok a, w1) → w1.disk q ≡ w.disk q → P ((f a w1).1.disk q))
    → P (((m >>= f) w).1.disk q)
after P q w m f same p k = after_result P q (w.disk q) (m w) f same p k

module _ (O : Oracle) (q : Text) where
  pub metadata_keeps : (p : Text) (w : World) → (symlink_metadata O p w).1.disk q ≡ w.disk q
  unfolding symlink_metadata
  metadata_keeps p w = ground arith

  read_keeps : (p : Text) (n : ℕ) (w : World) → (read_bounded O p n w).1.disk q ≡ w.disk q
  unfolding read_bounded
  read_keeps p n w = ground arith

  pub sync_keeps : (w : World) → (sync O w).1.disk q ≡ w.disk q
  unfolding sync
  sync_keeps w = ground arith

  open_keeps : (p : Text) (w : World) → p ≢ q → (open_or_create O p w).1.disk q ≡ w.disk q
  unfolding open_or_create
  open_keeps p w h = ground arith

  write_keeps :
      (p : Text) (bs : List ℕ) (w : World) → p ≢ q → (write_synced_new O p bs w).1.disk q ≡ w.disk q
  unfolding write_synced_new
  write_keeps p bs w h = ground arith

  pub remove_keeps : (p : Text) (w : World) → p ≢ q → (remove_file O p w).1.disk q ≡ w.disk q
  unfolding remove_file
  remove_keeps p w h = ground arith

  -- A rename replaces its target, or fails.
  rename_moves :
      (from to : Text) (w : World)
      → from ≢ q
      → ((rename O from to w).1.disk q ≡ w.disk q)
        ⊎ ((to ≡ q)
            × ((rename O from to w).0 ≡ ok tt)
            × ((rename O from to w).1.disk q ≡ w.disk from))
  unfolding rename
  rename_moves from to w h = ground arith

-- Chains that keep a file.
abbrev pub Kept : {A : Type 0} → Text → Act A → Type 0
Kept q m = (w : World) → (m w).1.disk q ≡ w.disk q

pub then-Kept :
    {A B : Type 0} (q : Text) (m : Act A) (f : A → Act B)
    → Kept q m
    → ((a : A) (w w1 : World) → m w ≡ (ok a, w1) → Kept q (f a))
    → Kept q (m >>= f)
then-Kept q m f keeps k w =
    after (λ x. x ≡ w.disk q) q w m f (keeps w) refl λ a w1 e same. k a w w1 e w1 ∙ same

-- What a step leaves of a file is what is left after a chain that keeps it.
pub then_rest_kept :
    {A B : Type 0} (P : Option Entry → Type 0) (q : Text) (r : Stored A × World) (k : Act B)
    → Kept q k
    → P (r.1.disk q)
    → P ((continue r.0 (λ _. k) r.1).1.disk q)
then_rest_kept P q (ok a, w) k keeps p = subst P (sym (keeps w)) p
then_rest_kept P q (err e, w) k keeps p = p

lift-Kept : {A : Type 0} (q : Text) (r : Stored A) → Kept q (lift r)
lift-Kept q r w = refl

module _ (S : Serde) (O : Oracle) (store : FileLifecycleRecordStore) (q : Text) where
  pub record_metadata-Kept : (path : Text) → Kept q (record_metadata S O store path)
  unfolding record_metadata
  record_metadata-Kept path w = metadata_keeps O q path w

  pub load-Kept : (id : Text) → Kept q (load_record S O store id)
  unfolding load_record
  load-Kept id =
      then-Kept q (lift (record_path store.records_root id)) _ (λ w. refl)
        λ path _ _ _.
          then-Kept q (record_metadata S O store path) _ (record_metadata-Kept path)
            λ metadata _ _ _.
              then-Kept q (lift (check_metadata S O store metadata)) _ (λ w. refl)
                λ _ _ _ _.
                  then-Kept q (read_record S O store path) _ (read_keeps O q path max_record_bytes)
                    λ bs _ _ _. lift-Kept q (parse_record S O store id bs)

  module _ (id : Text) (is_path : record_path store.records_root id ≡ ok q) where
    open_lock-Kept :
        (other path : Text)
        → lock_path store.records_root other ≡ ok path
        → Kept q (open_lock S O store path)
    open_lock-Kept other path e w =
        open_keeps O q path w (record_path-lock_path store.records_root id other q path is_path e)

    pub acquire-Kept : (other : Text) → Kept q (acquire_workload_lock S O store other)
    unfolding acquire_workload_lock lock_candidate
    acquire-Kept other =
        then-Kept q (lift (lock_path store.records_root other)) _ (λ w. refl)
          λ path w w1 e.
            then-Kept q (lock_candidate S O store path) _ (metadata_keeps O q path) λ _ _ _ _.
              then-Kept q (open_lock S O store path) _
                (open_lock-Kept other path (ground (arith, e)))
                λ _ _ _ _.
                  then-Kept q (lock_metadata S O store path) _ (metadata_keeps O q path)
                    λ metadata _ _ _.
                      then-Kept q (lift (locked_file S O store metadata)) _ (λ w. refl)
                        λ _ _ _ _. sync_keeps O q

    pub not_temporary :
        (key : Text) (r : LifecycleRecord) (n : ℕ) → temporary_path S O store key r n ≢ q
    not_temporary key r n =
        record_path-temporary_name store.records_root store.process_id n id q key r is_path

    nonce-Kept : Kept q (read_nonce S O store)
    unfolding read_nonce now
    nonce-Kept w = refl

    pub write_temporary-Kept :
        (r : LifecycleRecord) (bs : List ℕ) → Kept q (write_temporary S O store r bs)
    unfolding write_temporary
    write_temporary-Kept r bs =
        then-Kept q (lift (workload_file_key r.workload_id)) _ (λ w. refl)
          λ key _ _ _. then-Kept q (read_nonce S O store) _ nonce-Kept λ n _ _ _.
            then-Kept q (write_new S O store (temporary_path S O store key r n) bs) _
              (λ w. write_keeps O q (temporary_path S O store key r n) bs w (not_temporary key r n))
              λ _ _ _ _ w. refl

    pub publish_moves :
        (from to : Text) (w : World)
        → from ≢ q
        → ((publish S O store from to w).1.disk q ≡ w.disk q)
          ⊎ ((to ≡ q) × ((publish S O store from to w).1.disk q ≡ w.disk from))
    unfolding publish cleanup_temporary
    publish_moves from to w h =
        ground (arith, rename_moves O q from to w h, remove_keeps O q from (rename O from to w).1 h)
