-- ===== src/Scenarios/Records.antt =====
-- Validation and replacement of sample records.
use ores_otel_sidecar_rs.Prelude.{◌≡◌, refl, ◌↔◌, ok, codes, Text-discrete, bytes}
use ores_otel_sidecar_rs.Record.{running, frozen, LifecycleRecord, validate, validate_record_update}
use ores_otel_sidecar_rs.Record.Valid.{IsValid, validate_iff}
use ores_otel_sidecar_rs.Record.Update.{IsUpdate, validate_record_update_iff}
use ores_otel_sidecar_rs.Record.History.{
  History, here, next, Advances, History-Advances, History-eq_of_revision,
}
use ores_otel_sidecar_rs.Scenarios.Samples.{in_state}

-- The next record of the same runtime, and one of a new runtime on another node.
abbrev resumed_record : LifecycleRecord
resumed_record = record (in_state running) { revision = 13 }

abbrev moved_record : LifecycleRecord
moved_record = record (in_state running) {
  assigned_node = codes "n2";
  placement_epoch = 5;
  runtime_epoch = 9;
  fencing_token = 10;
  revision = 14;
}

resumed_ok : validate_record_update (in_state frozen) resumed_record ≡ ok tt
unfolding validate_record_update validate Text-discrete bytes
resumed_ok = refl

moved_ok : validate_record_update resumed_record moved_record ≡ ok tt
unfolding validate_record_update validate Text-discrete bytes
moved_ok = refl

resumed-History : History (in_state frozen) resumed_record
resumed-History = next here resumed_record resumed_ok

moved-History : History (in_state frozen) moved_record
moved-History = next resumed-History moved_record moved_ok

validate_iff_example : (validate (in_state frozen) ≡ ok tt) ↔ IsValid (in_state frozen)
validate_iff_example = validate_iff (in_state frozen)

validate_record_update_iff_example :
    (validate_record_update (in_state frozen) moved_record ≡ ok tt)
    ↔ IsUpdate (in_state frozen) moved_record
validate_record_update_iff_example = validate_record_update_iff (in_state frozen) moved_record

History-Advances_example : Advances (in_state frozen) moved_record
History-Advances_example = History-Advances moved-History

History-eq_of_revision_example : in_state frozen ≡ in_state frozen
History-eq_of_revision_example = History-eq_of_revision {a = in_state frozen} here refl
