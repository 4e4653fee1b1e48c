-- ===== src/Scenarios/Stores.antt =====
-- A replacement in a store of one record.
use ores_otel_sidecar_rs.Prelude.{
  ℕ, ◌≡◌, refl, Option, none, some, List, [], ◌∷◌, ◌≟◌, if◌then◌else◌, ok, err, Text, Text-discrete,
  text_eq, codes, bytes, ◌==◌,
}
use ores_otel_sidecar_rs.Record.{LifecycleRecord, running, validate, validate_record_update}
use ores_otel_sidecar_rs.FileStore.Disk.{
  file, Oracle, World, other_kind, open_or_create, sync, read_bounded, write_synced_new,
}
use ores_otel_sidecar_rs.FileStore.{
  Serde, FileLifecycleRecordStore, Stored, io, replace_record, locked, commit, confirm, load_record,
  acquire_workload_lock, write_temporary, publish, record_path, lock_path, workload_file_key,
  validate_record, same_record, serialize_record, record_metadata, check_metadata, parse_record,
  lock_candidate, temporary_name, read_nonce, cleanup_temporary,
}
use ores_otel_sidecar_rs.FileStore.Held.{Holds}
use ores_otel_sidecar_rs.FileStore.Atomic.{IsAtomic, replace_record-IsAtomic}
use ores_otel_sidecar_rs.FileStore.Published.{replace_record-Holds}
use ores_otel_sidecar_rs.Scenarios.Samples.{in_state}

abbrev pub revised : ℕ → LifecycleRecord
revised n = record (in_state running) { revision = n }

abbrev pub parse_revision : List ℕ → Option LifecycleRecord
parse_revision [] = none
parse_revision (n ∷ bs) = some (revised n)

-- A record is written as its revision.
abbrev revision_serde : Serde
revision_serde = record { to_vec = λ r. some (r.revision ∷ []); from_slice = parse_revision }

abbrev healthy : Oracle
healthy = record { fault = λ n. none; torn = λ n. none; clock = λ n. some 5; entries = λ n. [] }

-- The call number 8 is the rename.
abbrev pub rename_fails : Oracle
rename_fails = record {
  fault = λ n. if n == 8 then some (other_kind 5) else none;
  torn = λ n. none;
  clock = λ n. some 5;
  entries = λ n. [];
}

abbrev pub sample_store : FileLifecycleRecordStore
sample_store = record { records_root = codes "/s/records"; process_id = 9 }

abbrev pub record_file : Text
record_file = codes "/s/records/7737.json"

abbrev pub stored : ℕ → World
stored n = record { disk = λ p. if p ≟ record_file then some (file (n ∷ [])) else none; calls = 0 }

pub path_run : record_path sample_store.records_root (codes "w7") ≡ ok record_file
unfolding record_path bytes
path_run = refl

replace_run :
    (replace_record revision_serde healthy sample_store (revised 12) (revised 13) (stored 12)).0
    ≡ ok tt
unfolding replace_record locked commit confirm load_record acquire_workload_lock write_temporary
    publish record_path lock_path workload_file_key validate_record same_record serialize_record
    record_metadata check_metadata parse_record lock_candidate read_nonce temporary_name validate
    validate_record_update Text-discrete bytes open_or_create sync read_bounded write_synced_new
replace_run = refl

rename_run :
    (replace_record revision_serde rename_fails sample_store
      (revised 12)
      (revised 13)
      (stored 12)).0
    ≡ err (io (other_kind 5))
unfolding replace_record locked commit confirm load_record acquire_workload_lock write_temporary
    publish cleanup_temporary record_path lock_path workload_file_key validate_record same_record
    serialize_record record_metadata check_metadata parse_record lock_candidate read_nonce
    temporary_name validate validate_record_update Text-discrete bytes open_or_create sync
    read_bounded write_synced_new
rename_run = refl

replace_record-IsAtomic_example :
    IsAtomic revision_serde healthy sample_store
      (revised 12)
      (revised 13)
      (codes "w7")
      record_file
      path_run
      ((stored 12).disk record_file)
      ((replace_record revision_serde healthy sample_store
          (revised 12)
          (revised 13)
          (stored 12)).1.disk
        record_file)
replace_record-IsAtomic_example =
    replace_record-IsAtomic revision_serde healthy sample_store (revised 12) (revised 13)
      (codes "w7") record_file path_run (stored 12)

with_result : {r : Stored (Unit {0}) × World} → r.0 ≡ ok tt → r ≡ (ok tt, r.1)
with_result {r} h = cc

replace_record-Holds_example :
    Holds revision_serde healthy sample_store
      ((replace_record revision_serde healthy sample_store
          (revised 12)
          (revised 13)
          (stored 12)).1.disk
        record_file)
      (revised 13)
replace_record-Holds_example =
    replace_record-Holds revision_serde healthy sample_store (revised 13) record_file path_run
      (revised 12) (stored 12)
      (replace_record revision_serde healthy sample_store (revised 12) (revised 13) (stored 12)).1
      (with_result replace_run)
