-- ===== src/Lease/Grant.antt =====
-- The grants of src/adapters/process_lifecycle_lease.rs, over an arbitrary lock library.
use ores_otel_sidecar_rs.Prelude.{
  ℕ, Bool, not, ◌||◌, Option, Result, ok, err, reject_if, Text, codes, ◌==◌, ◌≟◌, text_eq,
}
use ores_otel_sidecar_rs.Lease.{LifecycleLeaseScope, LifecycleLeaseScopeError, lock_key}

-- What the source uses of the lock library: `LockKey` with its text and its `==`, the fields of `LeaseGrant`,
-- `LockError::new` for a lost lease, and the methods of `Lease`, which answer with a new world.
pub record LockLibrary : Type 1 where
  pub World : Type 0
  pub LockKey : Type 0
  pub LockError : Type 0
  pub LeaseGrant : Type 0
  pub AcquireOptions : Type 0
  pub ManagedLeaseBackend : Type 0
  pub new_key : Text → Result LockError LockKey
  pub as_str : LockKey → Text
  pub is_cloudflare_durable_object : ManagedLeaseBackend → Bool
  pub same_key : LockKey → LockKey → Bool
  pub key : LeaseGrant → LockKey
  pub holder : LeaseGrant → Text
  pub fencing_token : LeaseGrant → ℕ
  pub lease_expires_ms : LeaseGrant → Option ℕ
  pub lost_lease : LockKey → Text → LockError
  pub acquire : LockKey → AcquireOptions → Bool → World → Result LockError LeaseGrant × World
  pub renew : LeaseGrant → ℕ → World → Result LockError LeaseGrant × World
  pub release : LeaseGrant → World → Result LockError Bool × World

module _ (L : LockLibrary) where
  pub record FencedLifecycleGrant : Type 0 where
    pub grant : L.LeaseGrant

  pub data LifecycleLeaseAcquireError : Type 0 where
    invalid_scope : LifecycleLeaseScopeError → LifecycleLeaseAcquireError
    lock : L.LockError → LifecycleLeaseAcquireError

  unfoldable pub fencing_token : FencedLifecycleGrant → ℕ
  fencing_token fenced = L.fencing_token fenced.grant

  unfoldable pub holder : FencedLifecycleGrant → Text
  holder fenced = L.holder fenced.grant

  unfoldable pub lease_expires_ms : FencedLifecycleGrant → Option ℕ
  lease_expires_ms fenced = L.lease_expires_ms fenced.grant

  abbrev renewal_changed : Text
  renewal_changed = codes "lifecycle lease renewal changed key, holder, or fencing token"

  unfoldable pub validate_renewed_grant :
      L.LeaseGrant → L.LeaseGrant → Result L.LockError (Unit {0})
  validate_renewed_grant previous renewed =
      reject_if
        (not (L.same_key (L.key renewed) (L.key previous))
          || not (L.holder renewed ≟ L.holder previous)
          || not (L.fencing_token renewed == L.fencing_token previous))
        (L.lost_lease (L.key previous) renewal_changed)

  abbrev validated :
      L.LeaseGrant
      → L.LeaseGrant
      → Result L.LockError (Unit {0})
      → Result L.LockError FencedLifecycleGrant
  validated previous renewed (ok _) = ok (record { grant = renewed })
  validated previous renewed (err e) = err e

  abbrev pub renewed_by :
      L.LeaseGrant
      → Result L.LockError L.LeaseGrant × L.World
      → Result L.LockError FencedLifecycleGrant × L.World
  renewed_by previous (ok renewed, w) =
      (validated previous renewed (validate_renewed_grant previous renewed), w)
  renewed_by previous (err e, w) = (err e, w)

  unfoldable pub renew :
      FencedLifecycleGrant → ℕ → L.World → Result L.LockError FencedLifecycleGrant × L.World
  unfolding validate_renewed_grant
  renew fenced ttl w = renewed_by fenced.grant (L.renew fenced.grant ttl w)

  unfoldable pub release : FencedLifecycleGrant → L.World → Result L.LockError Bool × L.World
  release fenced w = L.release fenced.grant w

  abbrev pub acquired :
      Result L.LockError L.LeaseGrant × L.World
      → Result LifecycleLeaseAcquireError FencedLifecycleGrant × L.World
  acquired (ok grant, w) = (ok (record { grant = grant }), w)
  acquired (err e, w) = (err (lock e), w)

  abbrev pub acquire_at :
      Result LifecycleLeaseScopeError L.LockKey
      → L.AcquireOptions
      → Bool
      → L.World
      → Result LifecycleLeaseAcquireError FencedLifecycleGrant × L.World
  acquire_at (ok key) options wait w = acquired (L.acquire key options wait w)
  acquire_at (err e) options wait w = (err (invalid_scope e), w)

  unfoldable pub acquire_lifecycle_lease :
      LifecycleLeaseScope
      → L.AcquireOptions
      → Bool
      → L.World
      → Result LifecycleLeaseAcquireError FencedLifecycleGrant × L.World
  unfolding lock_key
  acquire_lifecycle_lease scope options wait w =
      acquire_at (lock_key L.new_key scope) options wait w
