-- ===== src/Scenarios/Leases.antt =====
-- The lock key of one scope, taken twice, and a lease of it that is acquired and renewed twice.
use ores_otel_sidecar_rs.Prelude.{
  ℕ, suc, ◌≡◌, refl, ok, codes, Text, Result, bytes, arith, true, Option, none, some, ◌≟◌, text_eq,
  Text-discrete,
}
use ores_otel_sidecar_rs.Lease.{LifecycleLeaseScope, new_scope, lock_key_value, lock_key}
use ores_otel_sidecar_rs.Lease.Key.{lock_key-injective}
use ores_otel_sidecar_rs.Lease.Grant.{
  LockLibrary, FencedLifecycleGrant, validate_renewed_grant, renew, acquire_lifecycle_lease,
}
use ores_otel_sidecar_rs.Lease.Renewals.{
  ComparesKeys, RenewedFrom, again, not_yet, IsHeld, acquire_lifecycle_lease-IsHeld,
}

abbrev sample_scope : LifecycleLeaseScope
sample_scope = record {
  product = codes "p";
  environment = codes "e";
  region = codes "r";
  runtime_id = codes "i:1";
}

-- Keys are the texts themselves.
abbrev text_key : Text → Result Text Text
text_key t = ok t

sample_scope_ok : new_scope (codes "p") (codes "e") (codes "r") (codes "i:1") ≡ ok sample_scope
unfolding new_scope bytes
sample_scope_ok = refl

text_key_faithful : (x y k : Text) → text_key x ≡ ok k → text_key y ≡ ok k → x ≡ y
text_key_faithful x y k h i = ground arith

lock_key-injective_example : sample_scope ≡ sample_scope
unfolding lock_key
lock_key-injective_example =
    lock_key-injective text_key text_key_faithful (codes "p") (codes "e") (codes "r") (codes "i:1")
      (codes "p") (codes "e") (codes "r") (codes "i:1") sample_scope sample_scope
      (lock_key_value sample_scope) sample_scope_ok sample_scope_ok refl refl

pub record SampleGrant : Type 0 where
  pub granted_key : Text
  pub granted_to : Text
  pub fence : ℕ
  pub expires : Option ℕ

-- The world is the next fence. A renewal sets the time at which the lease ends.
abbrev pub sample_library : LockLibrary
sample_library = record {
  World = ℕ;
  LockKey = Text;
  LockError = Text;
  LeaseGrant = SampleGrant;
  AcquireOptions = Unit {0};
  ManagedLeaseBackend = Unit {0};
  as_str = λ k. k;
  is_cloudflare_durable_object = λ b. true;
  new_key = text_key;
  same_key = λ a b. a ≟ b;
  key = λ g. g.granted_key;
  holder = λ g. g.granted_to;
  fencing_token = λ g. g.fence;
  lease_expires_ms = λ g. g.expires;
  lost_lease = λ k e. e;
  acquire = λ k _ _ next. (
    ok (record { granted_key = k; granted_to = codes "n"; fence = next; expires = none }),
    suc next,
  );
  renew = λ g ttl next. (
    ok (record {
      granted_key = g.granted_key;
      granted_to = g.granted_to;
      fence = g.fence;
      expires = some ttl;
    }),
    next,
  );
  release = λ g next. (ok true, next);
}

sample_library_compares : ComparesKeys sample_library
sample_library_compares a b h = ground arith

abbrev sample_grant : Option ℕ → FencedLifecycleGrant sample_library
sample_grant expires = record {
  grant = record {
    granted_key = lock_key_value sample_scope;
    granted_to = codes "n";
    fence = 7;
    expires = expires;
  };
}

acquire_sample :
    acquire_lifecycle_lease sample_library sample_scope tt true 7 ≡ (ok (sample_grant none), 8)
unfolding acquire_lifecycle_lease lock_key
acquire_sample = refl

renew_sample : renew sample_library (sample_grant none) 30 9 ≡ (ok (sample_grant (some 30)), 9)
unfolding renew validate_renewed_grant lock_key_value Text-discrete
renew_sample = refl

renew_sample_again :
    renew sample_library (sample_grant (some 30)) 60 12 ≡ (ok (sample_grant (some 60)), 12)
unfolding renew validate_renewed_grant lock_key_value Text-discrete
renew_sample_again = refl

sample_renewals : RenewedFrom sample_library (sample_grant none) (sample_grant (some 60))
sample_renewals =
    again (sample_grant (some 30)) (sample_grant (some 60)) 60 12 12
      (again (sample_grant none) (sample_grant (some 30)) 30 9 9 not_yet renew_sample)
      renew_sample_again

acquire_lifecycle_lease-IsHeld_example :
    IsHeld sample_library sample_scope tt true 7 8 (sample_grant none) (sample_grant (some 60))
acquire_lifecycle_lease-IsHeld_example =
    acquire_lifecycle_lease-IsHeld sample_library sample_library_compares sample_scope tt true 7 8
      (sample_grant none) (sample_grant (some 60)) acquire_sample sample_renewals
