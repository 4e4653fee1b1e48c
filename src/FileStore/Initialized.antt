-- ===== src/FileStore/Initialized.antt =====
-- An initialization by src/adapters/process_lifecycle_file_store.rs replaces no file.
use ores_otel_sidecar_rs.Prelude.{
  ◌≡◌, ◌≢◌, refl, ◌∙◌, arith, if◌then◌else◌, some, ok, err, Text, text_eq,
}
use ores_otel_sidecar_rs.Record.{LifecycleRecord}
use ores_otel_sidecar_rs.FileStore.Disk.{Entry, Oracle, World, hard_link}
use ores_otel_sidecar_rs.FileStore.{
  Serde, FileLifecycleRecordStore, ◌>>=◌, lift, validate_record, acquire_workload_lock, record_path,
  path_exists, already_initialized, serialize_record, write_temporary, publish_new,
  cleanup_temporary, sync_directory, load_record, confirm, initialize,
}
use ores_otel_sidecar_rs.FileStore.Kept.{
  after, then_rest_kept, Kept, then-Kept, sync_keeps, remove_keeps, metadata_keeps, load-Kept,
  acquire-Kept, write_temporary-Kept,
}
use ores_otel_sidecar_rs.FileStore.Atomic.{write_temporary_apart}

module _ (S : Serde) (O : Oracle) (store : FileLifecycleRecordStore) (id q : Text)
    (is_path : record_path store.records_root id ≡ ok q) where
  hard_link_spares :
      (from to : Text) (e : Entry) (w : World)
      → w.disk q ≡ some e
      → (hard_link O from to w).1.disk q ≡ some e
  unfolding hard_link
  hard_link_spares from to e w h = ground arith

  publish_new_spares :
      (from to : Text) (e : Entry) (w : World)
      → from ≢ q
      → w.disk q ≡ some e
      → (publish_new S O store from to w).1.disk q ≡ some e
  unfolding publish_new cleanup_temporary
  publish_new_spares from to e w apart h =
      ground (
        arith,
        hard_link_spares from to e w h,
        remove_keeps O q from (hard_link O from to w).1 apart,
      )

  confirm-Kept : (r : LifecycleRecord) → Kept q (confirm S O store r)
  unfolding confirm
  confirm-Kept r = then-Kept q (sync_directory S O store) _ (sync_keeps O q) λ _ _ _ _.
      then-Kept q (load_record S O store r.workload_id) _ (load-Kept S O store q r.workload_id)
        λ published _ _ _ w. refl

  -- From the temporary file on.
  finish_spares :
      (r : LifecycleRecord) (temporary canonical : Text) (e : Entry) (w : World)
      → temporary ≢ q
      → w.disk q ≡ some e
      → ((publish_new S O store temporary canonical >>= λ _.
              cleanup_temporary S O store temporary >>= λ _. confirm S O store r)
            w).1.disk
          q
        ≡ some e
  unfolding cleanup_temporary
  finish_spares r temporary canonical e w apart h =
      then_rest_kept (λ x. x ≡ some e) q (publish_new S O store temporary canonical w)
        (cleanup_temporary S O store temporary >>= λ _. confirm S O store r)
        (then-Kept q (cleanup_temporary S O store temporary) _
          (λ w. remove_keeps O q temporary w apart) λ _ _ _ _. confirm-Kept r)
        (publish_new_spares temporary canonical e w apart h)

  -- Whatever fails, a workload's file that is there stays as it is.
  pub initialize_spares :
      (r : LifecycleRecord) (e : Entry) (w : World)
      → w.disk q ≡ some e
      → (initialize S O store r w).1.disk q ≡ some e
  unfolding initialize path_exists
  initialize_spares r e w t0 =
      after (λ x. x ≡ some e) q w (lift (validate_record r)) _ refl t0
        λ _ w1 _ s1.
          after (λ x. x ≡ some e) q w1 (acquire_workload_lock S O store r.workload_id) _
            (acquire-Kept S O store q id is_path r.workload_id w1) (s1 ∙ t0)
            λ _ w2 _ s2.
              after (λ x. x ≡ some e) q w2 (lift (record_path store.records_root r.workload_id)) _
                refl (s2 ∙ s1 ∙ t0)
                λ canonical w3 _ s3.
                  after (λ x. x ≡ some e) q w3 (path_exists S O store canonical) _
                    (metadata_keeps O q canonical w3) (s3 ∙ s2 ∙ s1 ∙ t0)
                    λ exists w4 _ s4.
                      after (λ x. x ≡ some e) q w4
                        (lift (if exists then err already_initialized else ok tt)) _ refl
                        (s4 ∙ s3 ∙ s2 ∙ s1 ∙ t0)
                        λ _ w5 _ s5.
                          after (λ x. x ≡ some e) q w5 (lift (serialize_record S O store r)) _ refl
                            (s5 ∙ s4 ∙ s3 ∙ s2 ∙ s1 ∙ t0)
                            λ bs w6 _ s6.
                              after (λ x. x ≡ some e) q w6 (write_temporary S O store r bs) _
                                (write_temporary-Kept S O store q id is_path r bs w6)
                                (s6 ∙ s5 ∙ s4 ∙ s3 ∙ s2 ∙ s1 ∙ t0)
                                λ temporary w7 made s7.
                                  finish_spares r temporary canonical e w7
                                    (write_temporary_apart S O store r r id q is_path bs temporary
                                      w6 w7 made)
                                    (s7 ∙ s6 ∙ s5 ∙ s4 ∙ s3 ∙ s2 ∙ s1 ∙ t0)
