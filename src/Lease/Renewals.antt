-- ===== src/Lease/Renewals.antt =====
-- A lease of src/adapters/process_lifecycle_lease.rs that is acquired and renewed again and again.
use ores_otel_sidecar_rs.Prelude.{ℕ, ◌≡◌, refl, ◌∙◌, arith, Bool, true, Result, ok, err}
use ores_otel_sidecar_rs.Lease.{LifecycleLeaseScope, LifecycleLeaseScopeError, lock_key}
use ores_otel_sidecar_rs.Lease.Grant.{
  LockLibrary, FencedLifecycleGrant, validate_renewed_grant, renewed_by, renew, fencing_token,
  holder, acquired, acquire_at, acquire_lifecycle_lease,
}

-- What `LockKey` derives: keys that compare equal are equal.
abbrev pub ComparesKeys : LockLibrary → Type 0
ComparesKeys L = (a b : L.LockKey) → L.same_key a b ≡ true → a ≡ b

module _ (L : LockLibrary) where
  -- Grants that renewals made of a first one. Between them the world may change in any way.
  pub data RenewedFrom (first : FencedLifecycleGrant L) : FencedLifecycleGrant L → Type 0 where
    not_yet : RenewedFrom first first
    again :
        (g g' : FencedLifecycleGrant L) (ttl : ℕ) (w w' : L.World)
        → RenewedFrom first g
        → renew L g ttl w ≡ (ok g', w')
        → RenewedFrom first g'

  pub record SameAuthority (a b : FencedLifecycleGrant L) : Type 0 where
    pub keys : L.key b.grant ≡ L.key a.grant
    pub holders : holder L b ≡ holder L a
    pub fences : fencing_token L b ≡ fencing_token L a

  -- The lock library granted the scope's own key, and the grant at hand is of that authority.
  pub record IsHeld (scope : LifecycleLeaseScope) (options : L.AcquireOptions) (wait : Bool)
      (w w' : L.World) (first g : FencedLifecycleGrant L) : Type 0 where
    pub lock_of_scope : L.LockKey
    pub derived : lock_key L.new_key scope ≡ ok lock_of_scope
    pub granted : L.acquire lock_of_scope options wait w ≡ (ok first.grant, w')
    pub same : SameAuthority first g

  module _ (compares : ComparesKeys L) where
    validate_renewed_grant_ok :
        (a b : FencedLifecycleGrant L)
        → validate_renewed_grant L a.grant b.grant ≡ ok tt
        → SameAuthority a b
    unfolding validate_renewed_grant holder fencing_token
    validate_renewed_grant_ok a b h = record {
      keys = compares (L.key b.grant) (L.key a.grant) (ground arith);
      holders = ground arith;
      fences = ground arith;
    }

    renewed_by_ok :
        (a b : FencedLifecycleGrant L) (w' : L.World)
        (r : Result L.LockError L.LeaseGrant × L.World)
        → renewed_by L a.grant r ≡ (ok b, w')
        → validate_renewed_grant L a.grant b.grant ≡ ok tt
    renewed_by_ok a b w' (ok renewed, w) h = ground arith
    renewed_by_ok a b w' (err e, w) h = cc

    renew-SameAuthority :
        (a b : FencedLifecycleGrant L) (ttl : ℕ) (w w' : L.World)
        → renew L a ttl w ≡ (ok b, w')
        → SameAuthority a b
    unfolding renew
    renew-SameAuthority a b ttl w w' h =
        validate_renewed_grant_ok a b (renewed_by_ok a b w' (L.renew a.grant ttl w) h)

    RenewedFrom-SameAuthority :
        (first g : FencedLifecycleGrant L) → RenewedFrom first g → SameAuthority first g
    RenewedFrom-SameAuthority first _ not_yet = record {
      keys = refl;
      holders = refl;
      fences = refl;
    }
    RenewedFrom-SameAuthority first _ (again g g' ttl w w' before h) =
        let old = RenewedFrom-SameAuthority first g before in
        let step = renew-SameAuthority g g' ttl w w' h in
        record {
          keys = step.keys ∙ old.keys;
          holders = step.holders ∙ old.holders;
          fences = step.fences ∙ old.fences;
        }

    acquired_ok :
        (first : FencedLifecycleGrant L) (w' : L.World)
        (r : Result L.LockError L.LeaseGrant × L.World)
        → acquired L r ≡ (ok first, w')
        → r ≡ (ok first.grant, w')
    acquired_ok first w' (ok grant, w) h = ground arith
    acquired_ok first w' (err e, w) h = cc

    acquire_at_ok :
        (options : L.AcquireOptions) (wait : Bool) (w w' : L.World) (first : FencedLifecycleGrant L)
        (k : Result LifecycleLeaseScopeError L.LockKey)
        → acquire_at L k options wait w ≡ (ok first, w')
        → (key : L.LockKey) × (k ≡ ok key) × (L.acquire key options wait w ≡ (ok first.grant, w'))
    acquire_at_ok options wait w w' first (ok key) h =
        (key, refl, acquired_ok first w' (L.acquire key options wait w) h)
    acquire_at_ok options wait w w' first (err e) h = cc

    -- If keys that compare equal are equal: a lease that was acquired and renewed any number of
    -- times, whatever happens between the renewals, is of the grant that the lock library gave for
    -- the scope's own lock key, and keeps its key, its holder and its fencing token.
    pub acquire_lifecycle_lease-IsHeld :
        (scope : LifecycleLeaseScope) (options : L.AcquireOptions) (wait : Bool) (w w' : L.World)
        (first g : FencedLifecycleGrant L)
        → acquire_lifecycle_lease L scope options wait w ≡ (ok first, w')
        → RenewedFrom first g
        → IsHeld scope options wait w w' first g
    unfolding acquire_lifecycle_lease
    acquire_lifecycle_lease-IsHeld scope options wait w w' first g h renewals =
        let (key, derived, granted) =
          acquire_at_ok options wait w w' first (lock_key L.new_key scope) h in
        record {
          lock_of_scope = key;
          derived = derived;
          granted = granted;
          same = RenewedFrom-SameAuthority first g renewals;
        }
