-- ===== src/FileStore/Atomic.antt =====
-- What a replacement by src/adapters/process_lifecycle_file_store.rs leaves on the disk.
use ores_otel_sidecar_rs.Prelude.{
  ℕ, ◌≤◌, length, ◌≡◌, ◌≢◌, refl, ◌==◌, if◌then◌else◌, sym, ap, subst, map_err, ◌∙◌, ◌⊎◌, inl, inr,
  arith, true, Option, none, some, List, Result, ok, err, Text, text_eq,
}
use ores_otel_sidecar_rs.Record.{LifecycleRecord}
use ores_otel_sidecar_rs.FileStore.Disk.{Entry, file, Oracle, World}
use ores_otel_sidecar_rs.FileStore.{
  Serde, FileLifecycleRecordStore, read_nonce, temporary_path, write_new, sync_directory,
  require_same, valid_update, lift, load_record, acquire_workload_lock, write_temporary, publish,
  replace_record, record_path, workload_file_key, serialize_record, max_record_bytes,
}
use ores_otel_sidecar_rs.FileStore.Keys.{record_path-injective}
use ores_otel_sidecar_rs.Record.{
  validate_record_update, LifecycleRecordError, PersistedLifecycleState, running, quiescing,
  freezing, frozen, checkpointing, hibernated, thawing, restoring, PersistedSuspendStrategy, freeze,
  hibernate, LifecycleCheckpoint,
}
use ores_otel_sidecar_rs.Record.Update.{validate_record_update_iff}
use ores_otel_sidecar_rs.FileStore.{
  validate_record, same_record, confirm, commit, locked, unexpected_current, invalid_record,
  state_index, same_strategy, same_checkpoint,
}
use ores_otel_sidecar_rs.FileStore.Kept.{
  then_rest_kept, after, Kept, then-Kept, sync_keeps, load-Kept, acquire-Kept, write_temporary-Kept,
  not_temporary, publish_moves,
}
use ores_otel_sidecar_rs.FileStore.Held.{
  lift_ok, same_ok, Holds, load_record-Holds, write_temporary-file, serialize_record-eq, step_ok,
}

abbrev state_at : ℕ → PersistedLifecycleState
state_at n =
    if n == 0
    then running
    else if n == 1
    then quiescing
    else if n == 2
    then freezing
    else if n == 3
    then frozen
    else if n == 4
    then checkpointing
    else if n == 5
    then hibernated
    else if n == 6
    then thawing
    else restoring

state_at-state_index : (s : PersistedLifecycleState) → state_at (state_index s) ≡ s
state_at-state_index running = refl
state_at-state_index quiescing = refl
state_at-state_index freezing = refl
state_at-state_index frozen = refl
state_at-state_index checkpointing = refl
state_at-state_index hibernated = refl
state_at-state_index thawing = refl
state_at-state_index restoring = refl

same_strategy-eq : (a b : PersistedSuspendStrategy) → same_strategy a b ≡ true → a ≡ b
same_strategy-eq freeze freeze h = refl
same_strategy-eq hibernate hibernate h = refl
same_strategy-eq freeze hibernate h = cc
same_strategy-eq hibernate freeze h = cc

same_checkpoint-eq : (a b : Option LifecycleCheckpoint) → same_checkpoint a b ≡ true → a ≡ b
same_checkpoint-eq none none h = refl
same_checkpoint-eq none (some d) h = cc
same_checkpoint-eq (some c) none h = cc
same_checkpoint-eq (some c) (some d) h = ground arith

same_state-eq : (a b : PersistedLifecycleState) → state_index a ≡ state_index b → a ≡ b
same_state-eq a b h = sym (state_at-state_index a) ∙ ap state_at h ∙ state_at-state_index b

pub same_record-eq : (r s : LifecycleRecord) → same_record r s ≡ true → r ≡ s
unfolding same_record
same_record-eq r s h = ground (
  arith,
  same_state-eq r.state s.state,
  same_strategy-eq r.strategy s.strategy,
  same_checkpoint-eq r.checkpoint s.checkpoint,
)

-- The workload's file held the expected record, and now it is exactly the next one's serialization.
pub record Replaced (S : Serde) (O : Oracle) (store : FileLifecycleRecordStore)
    (expected next : LifecycleRecord) (old new : Option Entry) : Type 0 where
  pub before : Holds S O store old expected
  pub bytes : List ℕ
  pub written : new ≡ some (file bytes)
  pub serialized : S.to_vec next ≡ some bytes
  pub small : length bytes ≤ max_record_bytes
  pub accepted : validate_record_update expected next ≡ ok tt

module _ (S : Serde) (O : Oracle) (store : FileLifecycleRecordStore)
    (expected next : LifecycleRecord) (id q : Text)
    (is_path : record_path store.records_root id ≡ ok q) where
  abbrev pub IsAtomic : Option Entry → Option Entry → Type 0
  IsAtomic old new =
      (new ≡ old) ⊎ ((id ≡ next.workload_id) × Replaced S O store expected next old new)

  update_ok :
      (r : Result LifecycleRecordError (Unit {0})) (u : Unit {0})
      → map_err (λ _. invalid_record) r ≡ ok u
      → r ≡ ok tt
  update_ok (ok tt) u h = refl
  update_ok (err x) u h = cc

  same_workload :
      (u : Unit {0}) → valid_update expected next ≡ ok u → next.workload_id ≡ expected.workload_id
  same_workload u h =
      ((validate_record_update_iff expected next).0
        (update_ok (validate_record_update expected next) u h)).workload

  confirm-Kept : Kept q (confirm S O store next)
  unfolding confirm
  confirm-Kept = then-Kept q (sync_directory S O store) _ (sync_keeps O q) λ _ _ _ _.
      then-Kept q (load_record S O store next.workload_id) _
        (load-Kept S O store q next.workload_id) λ published _ _ _ w. refl

  publish-IsAtomic :
      (old : Option Entry) (bs : List ℕ) (temporary canonical : Text) (w : World)
      → (id ≡ next.workload_id → Holds S O store old expected)
      → record_path store.records_root next.workload_id ≡ ok canonical
      → (S.to_vec next ≡ some bs) × (length bs ≤ max_record_bytes)
      → temporary ≢ q
      → w.disk temporary ≡ some (file bs)
      → w.disk q ≡ old
      → validate_record_update expected next ≡ ok tt
      → IsAtomic old ((publish S O store temporary canonical w).1.disk q)
  publish-IsAtomic old bs temporary canonical w before target serialized apart there same accepted =
      elim (publish_moves S O store q id is_path temporary canonical w apart) [
        | inl e ↦ inl (e ∙ same)
        | inr m ↦
            let same_id =
              record_path-injective store.records_root id next.workload_id q is_path
                (target ∙ ap ok m.0) in
            inr (
              same_id,
              record {
                before = before same_id;
                bytes = bs;
                written = m.1 ∙ there;
                serialized = serialized.0;
                small = serialized.1;
                accepted = accepted;
              },
            )
      ]

  pub write_temporary_apart :
      (bs : List ℕ) (path : Text) (w w1 : World)
      → write_temporary S O store next bs w ≡ (ok path, w1)
      → path ≢ q
  unfolding write_temporary
  write_temporary_apart bs path w w1 h e =
      let (key, v1, e1, h1) = step_ok w (lift (workload_file_key next.workload_id)) _ h in
      let (n, v2, e2, h2) = step_ok v1 (read_nonce S O store) _ h1 in
      let target = temporary_path S O store key next n in
      let (_, v3, e3, h3) = step_ok v2 (write_new S O store target bs) _ h2 in
      let (is_target, _) = lift_ok (ok target) path v3 w1 h3 in
      not_temporary S O store q id is_path key next n (same_ok target path is_target ∙ e)

  commit-IsAtomic :
      (old : Option Entry) (w : World)
      → (id ≡ next.workload_id → Holds S O store old expected)
      → w.disk q ≡ old
      → validate_record_update expected next ≡ ok tt
      → IsAtomic old ((commit S O store next w).1.disk q)
  unfolding commit
  commit-IsAtomic old w before t0 accepted =
      after (IsAtomic old) q w (lift (serialize_record S O store next)) _ refl (inl t0)
        λ bs w1 e1 s1.
          after (IsAtomic old) q w1 (write_temporary S O store next bs) _
            (write_temporary-Kept S O store q id is_path next bs w1) (inl (s1 ∙ t0))
            λ temporary w2 e2 s2.
              after (IsAtomic old) q w2 (lift (record_path store.records_root next.workload_id)) _
                refl (inl (s2 ∙ s1 ∙ t0))
                λ canonical w3 e3 s3.
                  then_rest_kept (IsAtomic old) q (publish S O store temporary canonical w3)
                    (confirm S O store next) confirm-Kept
                    (publish-IsAtomic old bs temporary canonical w3 before
                      (lift_ok (record_path store.records_root next.workload_id) canonical w2 w3
                        e3).0
                      (serialize_record-eq S O store next bs
                        (lift_ok (serialize_record S O store next) bs w w1 e1).0)
                      (write_temporary_apart bs temporary w1 w2 e2)
                      (subst (λ v. v.disk temporary ≡ some (file bs))
                        (sym
                          (lift_ok (record_path store.records_root next.workload_id) canonical w2 w3
                            e3).1)
                        (write_temporary-file S O store next bs temporary w1 w2 e2))
                      (s3 ∙ s2 ∙ s1 ∙ t0) accepted)

  load_expected :
      (u : Unit {0}) (current : LifecycleRecord) (w w1 : World)
      → valid_update expected next ≡ ok u
      → load_record S O store expected.workload_id w ≡ (ok current, w1)
      → require_same current expected unexpected_current ≡ ok u
      → id ≡ next.workload_id
      → Holds S O store (w.disk q) expected
  load_expected u current w w1 valid loaded same same_id =
      subst (Holds S O store (w.disk q)) (same_record-eq current expected (ground (arith, same))) (
        load_record-Holds S O store expected.workload_id q current w w1
          (subst (λ i. record_path store.records_root i ≡ ok q) (same_id ∙ same_workload u valid)
            is_path)
          loaded)

  held-IsAtomic :
      (w w4 : World) (u : Unit {0})
      → valid_update expected next ≡ ok u
      → w4.disk q ≡ w.disk q
      → IsAtomic (w.disk q) ((locked S O store expected next w4).1.disk q)
  unfolding locked
  held-IsAtomic w w4 u valid t4 =
      after (IsAtomic (w.disk q)) q w4 (load_record S O store expected.workload_id) _
        (load-Kept S O store q expected.workload_id w4) (inl t4)
        λ current w5 e5 s5.
          after (IsAtomic (w.disk q)) q w5 (lift (require_same current expected unexpected_current))
            _ refl (inl (s5 ∙ t4))
            λ v w6 e6 s6.
              commit-IsAtomic (w.disk q) w6
                (λ same_id.
                  subst (λ d. Holds S O store d expected) t4
                    (load_expected u current w4 w5 valid e5
                      (lift_ok (require_same current expected unexpected_current) v w5 w6 e6).0
                      same_id))
                (s6 ∙ s5 ∙ t4) (update_ok (validate_record_update expected next) u valid)

  -- Whatever calls fail and whatever a failed write leaves, a replacement leaves the file of each
  -- workload as it was, or it is the file of the replaced record's workload, held a serialization
  -- of the expected record, and now is exactly the serialization of the next one, which is at most
  -- 64 KiB long and an update that the rules for replacing the expected record accept.
  pub replace_record-IsAtomic :
      (w : World) → IsAtomic (w.disk q) ((replace_record S O store expected next w).1.disk q)
  unfolding replace_record
  replace_record-IsAtomic w =
      after (IsAtomic (w.disk q)) q w (lift (validate_record expected)) _ refl (inl refl)
        λ _ w1 _ s1.
          after (IsAtomic (w.disk q)) q w1 (lift (validate_record next)) _ refl (inl s1)
            λ _ w2 _ s2.
              after (IsAtomic (w.disk q)) q w2 (lift (valid_update expected next)) _ refl
                (inl (s2 ∙ s1))
                λ u w3 e3 s3.
                  after (IsAtomic (w.disk q)) q w3
                    (acquire_workload_lock S O store expected.workload_id) _
                    (acquire-Kept S O store q id is_path expected.workload_id w3)
                    (inl (s3 ∙ s2 ∙ s1))
                    λ _ w4 _ s4.
                      held-IsAtomic w w4 u (lift_ok (valid_update expected next) u w2 w3 e3).0
                        (s4 ∙ s3 ∙ s2 ∙ s1)
