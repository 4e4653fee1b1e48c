-- ===== src/FileStore/Held.antt =====
-- What the steps of src/adapters/process_lifecycle_file_store.rs that succeed found or left on the
-- disk.
use ores_otel_sidecar_rs.Prelude.{
  ℕ, ◌+◌, ◌≤◌, length, ◌≡◌, refl, sym, ap, subst, map_err, ◌∙◌, arith, Option, none, some, List,
  take, Result, ok, err, Text, text_eq,
}
use ores_otel_sidecar_rs.Record.{LifecycleRecord}
use ores_otel_sidecar_rs.FileStore.Disk.{
  ErrorKind, bytes_or, Entry, file, directory, symlink, Oracle, World, read_bounded,
  write_synced_new,
}
use ores_otel_sidecar_rs.FileStore.{
  io, call, Serde, FileLifecycleRecordStore, Stored, Act, record_metadata, check_metadata,
  read_record, parse_record, read_nonce, temporary_path, write_new, ◌>>=◌, lift, continue,
  load_record, write_temporary, record_path, workload_file_key, serialize_record, max_record_bytes,
}
use ores_otel_sidecar_rs.FileStore.Kept.{put_same, record_metadata-Kept}

-- What a chain that succeeds did first.
pub step_ok :
    {A B : Type 0} (w : World) (m : Act A) (f : A → Act B) {b : B} {w' : World}
    → (m >>= f) w ≡ (ok b, w')
    → (a : A) × (w1 : World) × (m w ≡ (ok a, w1)) × (f a w1 ≡ (ok b, w'))
step_ok {A = A} {B = B} w m f {b} {w'} h = split (m w) h
  where
    split :
        (r : Stored A × World)
        → continue r.0 f r.1 ≡ (ok b, w')
        → (a : A) × (w1 : World) × (r ≡ (ok a, w1)) × (f a w1 ≡ (ok b, w'))
    split (ok a, w1) h = (a, w1, refl, h)
    split (err e, w1) h = cc

pub same_ok : (p q : Text) → ◌≡◌ {A = Stored Text} (ok p) (ok q) → p ≡ q
same_ok p q h = cc

pub lift_ok :
    {A : Type 0} (r : Stored A) (a : A) (w w1 : World)
    → lift r w ≡ (ok a, w1)
    → (r ≡ ok a) × (w1 ≡ w)
lift_ok r a w w1 h = (ap (λ p. p.0) h, sym (ap (λ p. p.1) h))

bytes_or-file :
    (O : Oracle) (n : ℕ) (bs : List ℕ) (e : Option Entry)
    → bytes_or O n e ≡ ok bs
    → (held : List ℕ) × (e ≡ some (file held)) × (bs ≡ take n held)
bytes_or-file O n bs none h = cc
bytes_or-file O n bs (some (file held)) h = (held, refl, ground (arith, h))
bytes_or-file O n bs (some directory) h = cc
bytes_or-file O n bs (some symlink) h = cc

read_bounded-bytes_or :
    (O : Oracle) (path : Text) (n : ℕ) (bs : List ℕ) (w : World)
    → (read_bounded O path n w).0 ≡ ok bs
    → bytes_or O (n + 1) (w.disk path) ≡ ok bs
unfolding read_bounded
read_bounded-bytes_or O path n bs w h = ground arith

write_synced_new-file :
    (O : Oracle) (path : Text) (bs : List ℕ) (w : World)
    → (write_synced_new O path bs w).0 ≡ ok tt
    → (write_synced_new O path bs w).1.disk path ≡ some (file bs)
unfolding write_synced_new
write_synced_new-file O path bs w h = ground (arith, put_same path (some (file bs)) w.disk)

call_ok :
    {A : Type 0} (m : World → Result ErrorKind A × World) (a : A) (w w1 : World)
    → call m w ≡ (ok a, w1)
    → (m w).0 ≡ ok a
call_ok {A} m a w w1 h = unwrapped (m w).0 (ap (λ p. p.0) h)
  where
    unwrapped : (r : Result ErrorKind A) → map_err io r ≡ ok a → r ≡ ok a
    unwrapped (ok b) e = cc
    unwrapped (err x) e = cc

module _ (S : Serde) (O : Oracle) (store : FileLifecycleRecordStore) where
  -- The file holds a record.
  pub record Holds (old : Option Entry) (r : LifecycleRecord) : Type 0 where
    pub held : List ℕ
    pub there : old ≡ some (file held)
    pub parses : S.from_slice (take (max_record_bytes + 1) held) ≡ some r

  parse_record-eq :
      (id : Text) (bs : List ℕ) (r : LifecycleRecord)
      → parse_record S O store id bs ≡ ok r
      → S.from_slice bs ≡ some r
  unfolding parse_record
  parse_record-eq id bs r h = ground arith

  pub load_record-Holds :
      (id q : Text) (r : LifecycleRecord) (w w1 : World)
      → record_path store.records_root id ≡ ok q
      → load_record S O store id w ≡ (ok r, w1)
      → Holds (w.disk q) r
  unfolding load_record
  load_record-Holds id q r w w1 is_path h =
      let (path, v1, e1, h1) = step_ok w (lift (record_path store.records_root id)) _ h in
      let (metadata, v2, e2, h2) = step_ok v1 (record_metadata S O store path) _ h1 in
      let (_, v3, e3, h3) = step_ok v2 (lift (check_metadata S O store metadata)) _ h2 in
      let (bs, v4, e4, h4) = step_ok v3 (read_record S O store path) _ h3 in
      let (is_q, same1) = lift_ok (record_path store.records_root id) path w v1 e1 in
      let (_, same3) = lift_ok (check_metadata S O store metadata) _ v2 v3 e3 in
      let (parsed, _) = lift_ok (parse_record S O store id bs) r v4 w1 h4 in
      let read =
        read_bounded-bytes_or O path max_record_bytes bs v3
          (call_ok (read_bounded O path max_record_bytes) bs v3 v4 e4) in
      let (held, there, cut) = bytes_or-file O (max_record_bytes + 1) bs (v3.disk path) read in
      let kept = record_metadata-Kept S O store path path v1 in
      let at_v2 = subst (λ v. v.disk path ≡ some (file held)) same3 there in
      let at_v1 = sym kept ∙ ap (λ p. p.1.disk path) e2 ∙ at_v2 in
      let at_w = subst (λ v. v.disk path ≡ some (file held)) same1 at_v1 in
      record {
        held = held;
        there = subst (λ x. w.disk x ≡ some (file held)) (same_ok path q (sym is_q ∙ is_path)) at_w;
        parses = subst (λ b. S.from_slice b ≡ some r) cut (parse_record-eq id bs r parsed);
      }

  pub write_temporary-file :
      (r : LifecycleRecord) (bs : List ℕ) (path : Text) (w w1 : World)
      → write_temporary S O store r bs w ≡ (ok path, w1)
      → w1.disk path ≡ some (file bs)
  unfolding write_temporary
  write_temporary-file r bs path w w1 h =
      let (key, v1, e1, h1) = step_ok w (lift (workload_file_key r.workload_id)) _ h in
      let (n, v2, e2, h2) = step_ok v1 (read_nonce S O store) _ h1 in
      let target = temporary_path S O store key r n in
      let (_, v3, e3, h3) = step_ok v2 (write_new S O store target bs) _ h2 in
      let (is_target, same) = lift_ok (ok target) path v3 w1 h3 in
      let made =
        write_synced_new-file O target bs v2 (call_ok (write_synced_new O target bs) tt v2 v3 e3) in
      let at_v3 = ap (λ p. p.1.disk target) (sym e3) ∙ made in
      let at_w1 = subst (λ v. v.disk target ≡ some (file bs)) (sym same) at_v3 in
      subst (λ p. w1.disk p ≡ some (file bs)) (same_ok target path is_target) at_w1

  pub serialize_record-eq :
      (r : LifecycleRecord) (bs : List ℕ)
      → serialize_record S O store r ≡ ok bs
      → (S.to_vec r ≡ some bs) × (length bs ≤ max_record_bytes)
  unfolding serialize_record
  serialize_record-eq r bs h = (ground arith, ground arith)
