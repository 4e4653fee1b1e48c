-- ===== src/FileStore/Runs.antt =====
-- Sequences of the calls of src/adapters/process_lifecycle_file_store.rs.
use ores_otel_sidecar_rs.Prelude.{
  ℕ, ◌+◌, ◌≤◌, length, ◌≡◌, sym, ap, subst, ◌∙◌, inl, inr, arith, Option, some, List, [], ◌∷◌, take,
  zero, suc, ok, Text,
}
use ores_otel_sidecar_rs.Record.{LifecycleRecord}
use ores_otel_sidecar_rs.Record.History.{History, next}
use ores_otel_sidecar_rs.FileStore.Disk.{Entry, file, Oracle, World}
use ores_otel_sidecar_rs.FileStore.{
  Serde, FileLifecycleRecordStore, store_load, store_replace, initialize, record_path,
  max_record_bytes,
}
use ores_otel_sidecar_rs.FileStore.Held.{Holds}
use ores_otel_sidecar_rs.FileStore.Kept.{load-Kept}
use ores_otel_sidecar_rs.FileStore.Atomic.{IsAtomic, replace_record-IsAtomic}
use ores_otel_sidecar_rs.Paths.{join}
use ores_otel_sidecar_rs.FileStore.Opening.{records_directory, open_store, open_store-Spares}
use ores_otel_sidecar_rs.FileStore.Initialized.{initialize_spares}

-- The calls that controllers make of one store, one after the other.
pub data StoreCall : Type 0 where
  load_of : Text → StoreCall
  replace_with : LifecycleRecord → LifecycleRecord → StoreCall
  initialize_with : LifecycleRecord → StoreCall
  open_again : ℕ → StoreCall

abbrev pub RoundTrips : Serde → Type 0
RoundTrips S = (r : LifecycleRecord) (bs : List ℕ) → S.to_vec r ≡ some bs → S.from_slice bs ≡ some r

take_all : {A : Type 0} (n : ℕ) (xs : List A) → length xs ≤ n → take (n + 1) xs ≡ xs
take_all n [] h = ground arith
take_all zero (x ∷ xs) h = absurd (omega arith)
take_all (suc n) (x ∷ xs) h = ground (arith, take_all n xs)

module _ (S : Serde) (O : Oracle) (store : FileLifecycleRecordStore) (root : Text) where
  unfoldable pub perform : StoreCall → World → World
  unfolding store_load store_replace
  perform (load_of id) w = (store_load S O store id w).1
  perform (replace_with expected later) w = (store_replace S O store expected later w).1
  perform (initialize_with r) w = (initialize S O store r w).1
  perform (open_again process_id) w = (open_store O process_id root w).1

  unfoldable pub run_all : List StoreCall → World → World
  unfolding perform
  run_all [] w = w
  run_all (c ∷ cs) w = run_all cs (perform c w)

  parsed_unique :
      (n : ℕ) (e : Option Entry) (b c : List ℕ) (r s : LifecycleRecord)
      → e ≡ some (file b)
      → e ≡ some (file c)
      → S.from_slice (take n b) ≡ some r
      → S.from_slice (take n c) ≡ some s
      → r ≡ s
  parsed_unique n e b c r s h k p q = cc

  Holds-unique :
      (e : Option Entry) (r s : LifecycleRecord) → Holds S O store e r → Holds S O store e s → r ≡ s
  Holds-unique e r s h k =
      parsed_unique (max_record_bytes + 1) e h.held k.held r s h.there k.there h.parses k.parses

  -- The workload's file holds a record that accepted replacements lead to from the first one.
  pub record HoldsLater (first : LifecycleRecord) (e : Option Entry) : Type 0 where
    pub record_now : LifecycleRecord
    pub holds : Holds S O store e record_now
    pub history : History first record_now

  module _ (id q : Text) (is_path : record_path store.records_root id ≡ ok q)
      (opened : store.records_root ≡ join root records_directory) (round_trips : RoundTrips S)
      (first : LifecycleRecord) where
    replaced-HoldsLater :
        (expected later : LifecycleRecord) (old new : Option Entry)
        → HoldsLater first old
        → IsAtomic S O store expected later id q is_path old new
        → HoldsLater first new
    replaced-HoldsLater expected later old new h (inl same) = subst (HoldsLater first) (sym same) h
    replaced-HoldsLater expected later old new h (inr (_, r)) = record {
      record_now = later;
      holds = record {
        held = r.bytes;
        there = r.written;
        parses =
            ap S.from_slice (take_all max_record_bytes r.bytes r.small)
            ∙ round_trips later r.bytes r.serialized;
      };
      history =
          next
            (subst (History first) (Holds-unique old h.record_now expected h.holds r.before)
              h.history)
            later r.accepted;
    }

    perform-HoldsLater :
        (c : StoreCall) (w : World)
        → HoldsLater first (w.disk q)
        → HoldsLater first ((perform c w).disk q)
    unfolding perform store_load store_replace
    perform-HoldsLater (load_of other) w h =
        subst (HoldsLater first) (sym (load-Kept S O store q other w)) h
    perform-HoldsLater (replace_with expected later) w h =
        replaced-HoldsLater expected later (w.disk q) _ h
          (replace_record-IsAtomic S O store expected later id q is_path w)
    perform-HoldsLater (initialize_with r) w h =
        subst (HoldsLater first)
          (h.holds.there
            ∙ sym (initialize_spares S O store id q is_path r (file h.holds.held) w h.holds.there))
          h
    perform-HoldsLater (open_again process_id) w h =
        let at_root = subst (λ p. record_path p id ≡ ok q) opened is_path in
        subst (HoldsLater first)
          (h.holds.there
            ∙ sym (
                open_store-Spares O root id q at_root (file h.holds.held) process_id w
                  h.holds.there))
          h

    -- If records round-trip through the serializer: however the loads, replacements and
    -- initializations of any workloads and the openings of the store follow each other and whatever
    -- in them fails, a workload's file that holds a record afterwards holds one that replacements
    -- accepted by the record's rules lead to from it, or the same one.
    pub run_all-HoldsLater :
        (cs : List StoreCall) (w : World)
        → HoldsLater first (w.disk q)
        → HoldsLater first ((run_all cs w).disk q)
    unfolding run_all
    run_all-HoldsLater [] w h = h
    run_all-HoldsLater (c ∷ cs) w h = run_all-HoldsLater cs (perform c w) (perform-HoldsLater c w h)
