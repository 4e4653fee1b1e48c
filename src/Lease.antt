-- ===== src/Lease.antt =====
-- src/adapters/process_lifecycle_lease.rs: the scope of a lifecycle lease and its lock key.
pub mod Key
pub mod Grant
pub mod Renewals
use ores_otel_sidecar_rs.Prelude.{
  ℕ, not, ◌&&◌, List, [], ◌∷◌, ◌++◌, Bool, leb, Result, ok, err, map_err, ◌>>◌, reject_if, Text,
  codes, bytes, byte_len, all, is_empty,
}
use ores_otel_sidecar_rs.Record.{is_segment_byte}

abbrev max_segment_bytes : ℕ
max_segment_bytes = 96

abbrev runtime_lifecycle_segment : Text
runtime_lifecycle_segment = codes "runtime-lifecycle"

pub record LifecycleLeaseScope : Type 0 where
  pub product : Text
  pub environment : Text
  pub region : Text
  pub runtime_id : Text

pub data LifecycleLeaseScopeError : Type 0 where
  invalid_segment : Text → LifecycleLeaseScopeError
  lock_key_too_long : LifecycleLeaseScopeError

-- `valid` of `validate_segment`; its alphabet is that of the record's identities.
unfoldable pub valid_segment : Text → Bool
unfolding is_segment_byte
valid_segment value =
    not (is_empty value)
    && leb (byte_len value) max_segment_bytes
    && all is_segment_byte (bytes value)

unfoldable validate_segment : Text → Text → Result LifecycleLeaseScopeError (Unit {0})
unfolding valid_segment
validate_segment field value = reject_if (not (valid_segment value)) (invalid_segment field)

unfoldable pub new_scope :
    Text → Text → Text → Text → Result LifecycleLeaseScopeError LifecycleLeaseScope
unfolding validate_segment
new_scope product environment region runtime_id =
    validate_segment (codes "product") product
    >> (validate_segment (codes "environment") environment
        >> (validate_segment (codes "region") region
            >> (validate_segment (codes "runtime_id") runtime_id
                >> ok (record {
                  product = product;
                  environment = environment;
                  region = region;
                  runtime_id = runtime_id;
                }))))

-- The text that `lock_key` formats.
unfoldable pub lock_key_value : LifecycleLeaseScope → Text
lock_key_value scope =
    scope.product
    ++ (b'/'
        ∷ (runtime_lifecycle_segment
            ++ (b'/'
                ∷ (scope.environment ++ (b'/' ∷ (scope.region ++ (b'/' ∷ scope.runtime_id)))))))

-- `LockKey::new` of the lock library is the parameter.
unfoldable pub lock_key :
    {LockKey LockError : Type 0}
    → (Text → Result LockError LockKey)
    → LifecycleLeaseScope
    → Result LifecycleLeaseScopeError LockKey
unfolding lock_key_value
lock_key new_key scope = map_err (λ _. lock_key_too_long) (new_key (lock_key_value scope))
