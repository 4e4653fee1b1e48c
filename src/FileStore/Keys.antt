-- ===== src/FileStore/Keys.antt =====
-- The names of the files of src/adapters/process_lifecycle_file_store.rs.
use ores_otel_sidecar_rs.Prelude.{
  ℕ, ◌/◌, ◌%◌, ◌<◌, ◌≡◌, ◌≢◌, refl, sym, ap, subst, ◌∙◌, arith, true, false, [], ◌∷◌, ◌++◌, List,
  ok, err, Text, bytes, codes, All, all-bytes, bytes_ascii, all,
}
use mathlib.Core.List.{append_cancel_left}
use ores_otel_sidecar_rs.Strings.Lines.{Lacks}
use ores_otel_sidecar_rs.Paths.{join, is_absolute}
use ores_otel_sidecar_rs.Record.{LifecycleRecord, valid_identity_segment, is_segment_byte}
use ores_otel_sidecar_rs.FileStore.{
  hex, hex_digit, workload_file_key, in_root, record_path, lock_path, temporary_name, Stored,
}

hex_digit-injective : (m n : ℕ) → m < 16 → n < 16 → hex_digit m ≡ hex_digit n → m ≡ n
hex_digit-injective m n a b h = ground arith

abbrev Bytes : List ℕ → Type 0
Bytes bs = All (λ b. b < 256) bs

hex-injective : (bs cs : List ℕ) → Bytes bs → Bytes cs → hex bs ≡ hex cs → bs ≡ cs
unfolding hex
hex-injective [] [] p q h = refl
hex-injective [] (c ∷ cs) p q h = cc
hex-injective (b ∷ bs) [] p q h = cc
hex-injective (b ∷ bs) (c ∷ cs) p q h = ground (
  arith,
  hex_digit-injective (b / 16) (c / 16),
  hex_digit-injective (b % 16) (c % 16),
  hex-injective bs cs,
)

hex-Lacks : (bs : List ℕ) → Bytes bs → Lacks b'.' (hex bs)
unfolding hex
hex-Lacks [] p = tt
hex-Lacks (b ∷ bs) p = ground (arith, hex-Lacks bs)

-- A name is cut at its first dot in one way.
dot_injective :
    (a b x y : Text)
    → Lacks b'.' a
    → Lacks b'.' b
    → a ++ (b'.' ∷ x) ≡ b ++ (b'.' ∷ y)
    → (a ≡ b) × (x ≡ y)
dot_injective [] [] x y ha hb e = ground (arith, e)
dot_injective [] (c ∷ b) x y ha hb e = ground (arith, e)
dot_injective (c ∷ a) [] x y ha hb e = ground (arith, e)
dot_injective (c ∷ a) (d ∷ b) x y ha hb e = ground (arith, e, dot_injective a b x y)

join-injective :
    (root a b : Text)
    → is_absolute a ≡ false
    → is_absolute b ≡ false
    → join root a ≡ join root b
    → a ≡ b
unfolding join
join-injective root a b p q h =
    ground (arith, append_cancel_left root a b, append_cancel_left root (b'/' ∷ a) (b'/' ∷ b))

hex_relative : (bs : List ℕ) (x : Text) → is_absolute (hex bs ++ (b'.' ∷ x)) ≡ false
unfolding hex is_absolute
hex_relative [] x = refl
hex_relative (b ∷ bs) x = ground arith

segment_byte_small : (b : ℕ) → is_segment_byte b ≡ true → b < 128
unfolding is_segment_byte
segment_byte_small b h = ground arith

all-Bytes : (bs : List ℕ) → all is_segment_byte bs ≡ true → Bytes bs
all-Bytes [] h = tt
all-Bytes (b ∷ bs) h = ground (arith, segment_byte_small b, all-Bytes bs)

record IsKey (id key : Text) : Type 0 where
  written : key ≡ hex (bytes id)
  small : Bytes (bytes id)
  ascii : bytes id ≡ id

workload_file_key-IsKey : (id key : Text) → workload_file_key id ≡ ok key → IsKey id key
unfolding workload_file_key valid_identity_segment
workload_file_key-IsKey id key h = ground (
  arith,
  all-Bytes (bytes id),
  all-bytes is_segment_byte segment_byte_small id,
  bytes_ascii is_segment_byte segment_byte_small id,
)

-- Different workloads have different file names.
workload_file_key-injective :
    (id id' key : Text) → workload_file_key id ≡ ok key → workload_file_key id' ≡ ok key → id ≡ id'
workload_file_key-injective id id' key h h' =
    let k = workload_file_key-IsKey id key h in
    let k' = workload_file_key-IsKey id' key h' in
    sym k.ascii
    ∙ hex-injective (bytes id) (bytes id') k.small k'.small (sym k.written ∙ k'.written)
    ∙ k'.ascii

record IsPathOf (root suffix id q : Text) : Type 0 where
  key : Text
  keyed : workload_file_key id ≡ ok key
  at : q ≡ join root (key ++ suffix)

in_root-IsPathOf :
    (root suffix id q : Text) (r : Stored Text)
    → workload_file_key id ≡ r
    → in_root root suffix r ≡ ok q
    → IsPathOf root suffix id q
in_root-IsPathOf root suffix id q (ok key) e h = record { key = key; keyed = e; at = cc }
in_root-IsPathOf root suffix id q (err x) e h = cc

record_path-IsPathOf :
    (root id q : Text) → record_path root id ≡ ok q → IsPathOf root (codes ".json") id q
unfolding record_path
record_path-IsPathOf root id q h =
    in_root-IsPathOf root (codes ".json") id q (workload_file_key id) refl h

lock_path-IsPathOf :
    (root id q : Text) → lock_path root id ≡ ok q → IsPathOf root (codes ".lock") id q
unfolding lock_path
lock_path-IsPathOf root id q h =
    in_root-IsPathOf root (codes ".lock") id q (workload_file_key id) refl h

-- Two files of the directory with one path have one key and one suffix.
same_file :
    (root id id' key key' x y : Text)
    → workload_file_key id ≡ ok key
    → workload_file_key id' ≡ ok key'
    → join root (key ++ (b'.' ∷ x)) ≡ join root (key' ++ (b'.' ∷ y))
    → (key ≡ key') × (x ≡ y)
same_file root id id' key key' x y h h' e =
    let k = workload_file_key-IsKey id key h in
    let k' = workload_file_key-IsKey id' key' h' in
    let a =
      subst (λ t. is_absolute (t ++ (b'.' ∷ x)) ≡ false) (sym k.written)
        (hex_relative (bytes id) x) in
    let b =
      subst (λ t. is_absolute (t ++ (b'.' ∷ y)) ≡ false) (sym k'.written)
        (hex_relative (bytes id') y) in
    dot_injective key key' x y (subst (Lacks b'.') (sym k.written) (hex-Lacks (bytes id) k.small))
      (subst (Lacks b'.') (sym k'.written) (hex-Lacks (bytes id') k'.small))
      (join-injective root (key ++ (b'.' ∷ x)) (key' ++ (b'.' ∷ y)) a b e)

pub record_path-injective :
    (root id id' q : Text) → record_path root id ≡ ok q → record_path root id' ≡ ok q → id ≡ id'
record_path-injective root id id' q h h' =
    let p = record_path-IsPathOf root id q h in
    let p' = record_path-IsPathOf root id' q h' in
    let same =
      same_file root id id' p.key p'.key (codes "json") (codes "json") p.keyed p'.keyed
        (sym p.at ∙ p'.at) in
    workload_file_key-injective id id' p.key p.keyed (p'.keyed ∙ ap ok (sym same.0))

pub record_path-lock_path :
    (root id id' q p : Text) → record_path root id ≡ ok q → lock_path root id' ≡ ok p → p ≢ q
record_path-lock_path root id id' q p h h' e =
    let a = record_path-IsPathOf root id q h in
    let b = lock_path-IsPathOf root id' p h' in
    let same =
      same_file root id id' a.key b.key (codes "json") (codes "lock") a.keyed b.keyed
        (sym a.at ∙ sym e ∙ b.at) in
    ground (arith, same)

key_not_temporary : (bs : List ℕ) (x y : Text) → hex bs ++ (b'.' ∷ b'j' ∷ x) ≢ (b'.' ∷ b'o' ∷ y)
unfolding hex
key_not_temporary [] x y e = ground (arith, e)
key_not_temporary (b ∷ bs) x y e = ground (arith, e)

dot_relative : (y : Text) → is_absolute (b'.' ∷ y) ≡ false
unfolding is_absolute
dot_relative y = refl

-- No record's file has a name that starts as those of temporary files do.
pub record_path-dot_name :
    (root id q y : Text) → record_path root id ≡ ok q → join root (b'.' ∷ b'o' ∷ y) ≢ q
record_path-dot_name root id q y h e =
    let p = record_path-IsPathOf root id q h in
    let k = workload_file_key-IsKey id p.key p.keyed in
    let relative =
      subst (λ t. is_absolute (t ++ codes ".json") ≡ false) (sym k.written)
        (hex_relative (bytes id) (codes "json")) in
    let same =
      join-injective root (b'.' ∷ b'o' ∷ y) (p.key ++ codes ".json") (dot_relative (b'o' ∷ y))
        relative (e ∙ p.at) in
    key_not_temporary (bytes id) _ _ (ap (λ t. t ++ codes ".json") (sym k.written) ∙ sym same)

pub record_path-temporary_name :
    (root : Text) (process_id n : ℕ) (id q key : Text) (r : LifecycleRecord)
    → record_path root id ≡ ok q
    → join root (temporary_name process_id key r n) ≢ q
unfolding temporary_name
record_path-temporary_name root process_id n id q key r h e = record_path-dot_name root id q _ h e
