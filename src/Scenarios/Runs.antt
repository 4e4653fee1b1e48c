-- ===== src/Scenarios/Runs.antt =====
-- Calls of one store of records, some of which fail.
use ores_otel_sidecar_rs.Prelude.{
  Text-discrete, ℕ, ◌≡◌, refl, ap, sym, ◌∙◌, Option, none, some, List, [], ◌∷◌, if◌then◌else◌, true,
  Bool, false, codes,
}
use ores_otel_sidecar_rs.Record.{LifecycleRecord}
use ores_otel_sidecar_rs.Record.History.{here}
use ores_otel_sidecar_rs.Paths.{join}
use ores_otel_sidecar_rs.FileStore.{Serde, same_record}
use ores_otel_sidecar_rs.FileStore.Atomic.{same_record-eq}
use ores_otel_sidecar_rs.FileStore.Runs.{
  StoreCall, load_of, replace_with, initialize_with, open_again, RoundTrips, run_all, HoldsLater,
  run_all-HoldsLater,
}
use ores_otel_sidecar_rs.Scenarios.Stores.{
  revised, parse_revision, rename_fails, sample_store, record_file, stored, path_run,
}

-- A record that is one of the samples is written as its revision, and no other is written.
abbrev sample_serde : Serde
unfolding same_record
sample_serde = record {
  to_vec = λ r. if same_record r (revised r.revision) then some (r.revision ∷ []) else none;
  from_slice = parse_revision;
}

written :
    (b : Bool) (r : LifecycleRecord) (bs : List ℕ)
    → (b ≡ true → r ≡ revised r.revision)
    → ◌≡◌ {A = Option (List ℕ)} (if b then some (r.revision ∷ []) else none) (some bs)
    → parse_revision bs ≡ some r
written true r bs same h = ap parse_revision (sym (some-injective h)) ∙ ap some (sym (same refl))
  where
    some-injective : {A : Type 0} {x y : A} → some x ≡ some y → x ≡ y
    some-injective h = cc
written false r bs same h = cc

sample-RoundTrips : RoundTrips sample_serde
unfolding sample_serde
sample-RoundTrips r bs =
    written (same_record r (revised r.revision)) r bs (same_record-eq r (revised r.revision))

abbrev store_calls : List StoreCall
store_calls =
    replace_with (revised 12) (revised 13)
    ∷ initialize_with (revised 2)
    ∷ open_again 10
    ∷ load_of (codes "w7")
    ∷ replace_with (revised 12) (revised 14)
    ∷ []

run_all-HoldsLater_example :
    HoldsLater sample_serde rename_fails sample_store (codes "/s") (revised 12) (
      (run_all sample_serde rename_fails sample_store (codes "/s") store_calls (stored 12)).disk
        record_file)
unfolding Text-discrete sample_serde join
run_all-HoldsLater_example =
    run_all-HoldsLater sample_serde rename_fails sample_store (codes "/s") (codes "w7") record_file
      path_run refl sample-RoundTrips (revised 12) store_calls (stored 12)
      record {
        record_now = revised 12;
        holds = record { held = 12 ∷ []; there = refl; parses = refl };
        history = here;
      }
