-- ===== src/FileStore/Published.antt =====
-- What a replacement by src/adapters/process_lifecycle_file_store.rs that succeeds has published.
use ores_otel_sidecar_rs.Prelude.{◌≡◌, sym, subst, ap, ◌∙◌, arith, ok, Text}
use ores_otel_sidecar_rs.Record.{LifecycleRecord}
use ores_otel_sidecar_rs.FileStore.Disk.{Oracle, World}
use ores_otel_sidecar_rs.FileStore.{
  Serde, FileLifecycleRecordStore, lift, validate_record, valid_update, acquire_workload_lock,
  load_record, require_same, unexpected_current, invalid_record, serialize_record, write_temporary,
  record_path, publish, sync_directory, confirm, commit, locked, replace_record,
}
use ores_otel_sidecar_rs.FileStore.Kept.{load-Kept}
use ores_otel_sidecar_rs.FileStore.Held.{step_ok, lift_ok, Holds, load_record-Holds}
use ores_otel_sidecar_rs.FileStore.Atomic.{same_record-eq}

module _ (S : Serde) (O : Oracle) (store : FileLifecycleRecordStore) (next : LifecycleRecord)
    (q : Text) (is_path : record_path store.records_root next.workload_id ≡ ok q) where
  confirm-Holds :
      (w w' : World) → confirm S O store next w ≡ (ok tt, w') → Holds S O store (w'.disk q) next
  unfolding confirm
  confirm-Holds w w' h =
      let (_, w1, _, h1) = step_ok w (sync_directory S O store) _ h in
      let (published, w2, loaded, h2) = step_ok w1 (load_record S O store next.workload_id) _ h1 in
      let (same, last) = lift_ok (require_same published next invalid_record) tt w2 w' h2 in
      let held = load_record-Holds S O store next.workload_id q published w1 w2 is_path loaded in
      let kept = ap (λ p. p.1.disk q) (sym loaded) ∙ load-Kept S O store q next.workload_id w1 in
      subst (λ r. Holds S O store (w'.disk q) r)
        (same_record-eq published next (ground (arith, same)))
        (subst (λ v. Holds S O store (v.disk q) published) (sym last)
          (subst (λ d. Holds S O store d published) (sym kept) held))

  commit-Holds :
      (w w' : World) → commit S O store next w ≡ (ok tt, w') → Holds S O store (w'.disk q) next
  unfolding commit
  commit-Holds w w' h =
      let (bs, w1, _, h1) = step_ok w (lift (serialize_record S O store next)) _ h in
      let (temporary, w2, _, h2) = step_ok w1 (write_temporary S O store next bs) _ h1 in
      let (canonical, w3, _, h3) =
        step_ok w2 (lift (record_path store.records_root next.workload_id)) _ h2 in
      let (_, w4, _, h4) = step_ok w3 (publish S O store temporary canonical) _ h3 in
      confirm-Holds w4 w' h4

  locked-Holds :
      (expected : LifecycleRecord) (w w' : World)
      → locked S O store expected next w ≡ (ok tt, w')
      → Holds S O store (w'.disk q) next
  unfolding locked
  locked-Holds expected w w' h =
      let (current, w1, _, h1) = step_ok w (load_record S O store expected.workload_id) _ h in
      let (_, w2, _, h2) =
        step_ok w1 (lift (require_same current expected unexpected_current)) _ h1 in
      commit-Holds w2 w' h2

  -- After a replacement that succeeds, the file of the record's workload parses to the next record.
  pub replace_record-Holds :
      (expected : LifecycleRecord) (w w' : World)
      → replace_record S O store expected next w ≡ (ok tt, w')
      → Holds S O store (w'.disk q) next
  unfolding replace_record
  replace_record-Holds expected w w' h =
      let (_, w1, _, h1) = step_ok w (lift (validate_record expected)) _ h in
      let (_, w2, _, h2) = step_ok w1 (lift (validate_record next)) _ h1 in
      let (_, w3, _, h3) = step_ok w2 (lift (valid_update expected next)) _ h2 in
      let (_, w4, _, h4) = step_ok w3 (acquire_workload_lock S O store expected.workload_id) _ h3 in
      locked-Holds expected w4 w' h4
