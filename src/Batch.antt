-- ===== src/Batch.antt =====
-- src/runtime_updates.rs: batches, their validation, and the admission of a batch by the
-- controller's revision.
use ores_otel_sidecar_rs.Prelude.{
  ℕ, Bool, true, false, not, ◌&&◌, ◌||◌, Option, none, some, List, [], ◌∷◌, ltb, leb, ◌==◌, ◌≟◌,
  if◌then◌else◌, Result, ok, err, ◌>>◌, reject_if, Text, codes, text_eq, bytes, byte_len, all,
  length, is_empty, is_ascii_alphanumeric, saturating_add,
}
use ores_otel_sidecar_rs.SidecarError.{SidecarError, invalid_config, Stop, panicked}
use ores_otel_sidecar_rs.Maps
use ores_otel_sidecar_rs.Maps.{Map, KeySet, contains, collect_keys}
use ores_otel_sidecar_rs.Values.{Checked, max_runtime_keys}

abbrev pub max_safe_runtime_revision : ℕ
max_safe_runtime_revision = 9007199254740991

abbrev max_runtime_keyspace_segment_bytes : ℕ
max_runtime_keyspace_segment_bytes = 64

pub record RuntimeUpdateTarget : Type 0 where
  pub namespace : Text
  pub cache : Text

unfoldable is_keyspace_byte : ℕ → Bool
unfolding is_ascii_alphanumeric
is_keyspace_byte b = is_ascii_alphanumeric b || b == b'-' || b == b'_' || b == b'.'

unfoldable pub valid_keyspace_segment : Text → Bool
unfolding is_keyspace_byte
valid_keyspace_segment value =
    not (is_empty value)
    && leb (byte_len value) max_runtime_keyspace_segment_bytes
    && all is_keyspace_byte (bytes value)

-- `RuntimeUpdateTarget::new`
unfoldable pub new_target : Text → Text → Result SidecarError RuntimeUpdateTarget
unfolding valid_keyspace_segment
new_target namespace cache =
    if not (valid_keyspace_segment namespace) || not (valid_keyspace_segment cache)
    then err (invalid_config (codes "runtime update keyspace is invalid"))
    else ok (record { namespace = namespace; cache = cache })

pub data RuntimeUpdateOperation : Type 0 where
  upsert delete replace invalidate resync : RuntimeUpdateOperation

pub record RuntimeUpdateBatch : Type 0 where
  pub namespace : Text
  pub cache : Text
  pub revision : ℕ
  pub operation : RuntimeUpdateOperation
  pub entries : Map
  pub keys : List Text

pub data RuntimeUpdateOutcome : Type 0 where
  applied : ℕ → RuntimeUpdateOutcome
  duplicate : ℕ → RuntimeUpdateOutcome
  stale_snapshot_ignored : ℕ → ℕ → RuntimeUpdateOutcome
  reconcile_required : ℕ → ℕ → RuntimeUpdateOutcome

pub record RuntimeUpdateState : Type 0 where
  pub revision : ℕ
  pub stale : Bool
  pub backend_key_count : ℕ

pub record RuntimeUpdateInner : Type 0 where
  pub revision : ℕ
  pub stale : Bool
  pub backend_keys : KeySet

abbrev pub default_inner : RuntimeUpdateInner
default_inner = record { revision = 0; stale = false; backend_keys = [] }

pub data Admission : Type 0 where
  rejected : RuntimeUpdateInner → RuntimeUpdateOutcome → Admission
  admitted : Admission

unfoldable marked_stale : RuntimeUpdateInner → RuntimeUpdateInner
marked_stale inner = record inner { stale = true }

unfoldable pub advanced : ℕ → KeySet → RuntimeUpdateInner
advanced revision backend_keys = record {
  revision = revision;
  stale = false;
  backend_keys = backend_keys;
}

abbrev pub is_resync : RuntimeUpdateOperation → Bool
is_resync resync = true
is_resync _ = false

unfoldable pub admit : RuntimeUpdateInner → RuntimeUpdateBatch → Admission
unfolding marked_stale
admit inner batch =
    let required = reconcile_required inner.revision batch.revision in
    if leb batch.revision inner.revision
    then rejected inner (duplicate inner.revision)
    else if inner.stale
    then rejected inner required
    else if not (batch.revision == saturating_add inner.revision 1) || is_resync batch.operation
    then rejected (marked_stale inner) required
    else admitted

-- The keys that a deletion leaves.
unfoldable pub without_keys : List Text → KeySet → KeySet
without_keys ks [] = []
without_keys ks (j ∷ s) = let rest = without_keys ks s in if contains ks j then rest else j ∷ rest

unfoldable pub backend_keys_after :
    RuntimeUpdateInner → RuntimeUpdateBatch → RuntimeUpdateOperation → Result Stop KeySet
unfolding collect_keys without_keys
backend_keys_after inner batch upsert =
    ok (collect_keys (collect_keys [] inner.backend_keys) (Maps.keys batch.entries))
backend_keys_after inner batch delete =
    ok (collect_keys [] (without_keys batch.keys inner.backend_keys))
backend_keys_after inner batch replace = ok (collect_keys [] (Maps.keys batch.entries))
backend_keys_after inner batch invalidate = ok []
backend_keys_after inner batch resync = err panicked

unfoldable pub validate_target : Option RuntimeUpdateTarget → Text → Text → Checked
validate_target none namespace cache =
    err (invalid_config (codes "runtime update target is not configured"))
validate_target (some target) namespace cache =
    reject_if (not (target.namespace ≟ namespace) || not (target.cache ≟ cache))
      (invalid_config (codes "runtime update target does not match configured keyspace"))

unfoldable pub validate_snapshot : ℕ → Map → Checked
validate_snapshot revision entries = do
  reject_if (ltb max_safe_runtime_revision revision || revision == 0 && not (is_empty entries))
      (invalid_config (codes "runtime snapshot revision is invalid"))
  reject_if (ltb max_runtime_keys (length entries))
      (invalid_config (codes "runtime snapshot exceeds the bounded key count"))
  ok tt

-- `valid_shape` of `validate_batch_shape`
unfoldable valid_payload : RuntimeUpdateOperation → Map → List Text → Bool
valid_payload upsert entries ks = not (is_empty entries) && is_empty ks
valid_payload delete entries ks = is_empty entries && not (is_empty ks)
valid_payload replace entries ks = is_empty ks
valid_payload invalidate entries ks = is_empty entries && is_empty ks
valid_payload resync entries ks = is_empty entries && is_empty ks

unfoldable pub validate_batch_shape : RuntimeUpdateBatch → Checked
unfolding valid_payload collect_keys
validate_batch_shape batch = do
  reject_if (batch.revision == 0 || ltb max_safe_runtime_revision batch.revision)
      (invalid_config (codes "runtime event revision is invalid"))
  reject_if
      (ltb max_runtime_keys (length batch.entries) || ltb max_runtime_keys (length batch.keys))
      (invalid_config (codes "runtime event exceeds the bounded key count"))
  reject_if (not (valid_payload batch.operation batch.entries batch.keys))
      (invalid_config (codes "runtime event operation payload is invalid"))
  reject_if (not (length (collect_keys [] batch.keys) == length batch.keys))
      (invalid_config (codes "runtime delete event contains duplicate keys"))
  ok tt
