-- ===== src/Lease/Key.antt =====
-- The lock keys of src/adapters/process_lifecycle_lease.rs.
use ores_otel_sidecar_rs.Prelude.{
  ◌≡◌, ap, true, [], ◌∷◌, ◌++◌, ok, arith, Text, Result, map_err, drop, All,
}
use ores_otel_sidecar_rs.Record.{valid_identity_segment}
use ores_otel_sidecar_rs.Record.Segment.{IsSegmentChar, valid_identity_segment_iff}
use ores_otel_sidecar_rs.Lease.{
  LifecycleLeaseScope, valid_segment, new_scope, lock_key_value, lock_key,
}

-- A text is cut at its first slash in one way.
slash_injective :
    (a b x y : Text)
    → All IsSegmentChar a
    → All IsSegmentChar b
    → a ++ (b'/' ∷ x) ≡ b ++ (b'/' ∷ y)
    → (a ≡ b) × (x ≡ y)
slash_injective [] [] x y ha hb e = ground (arith, e)
slash_injective [] (c ∷ b) x y ha hb e = ground (arith, e)
slash_injective (c ∷ a) [] x y ha hb e = ground (arith, e)
slash_injective (c ∷ a) (d ∷ b) x y ha hb e = ground (arith, e, slash_injective a b x y)

valid_segment-All : (s : Text) → valid_segment s ≡ true → All IsSegmentChar s
unfolding valid_segment valid_identity_segment
valid_segment-All s h = ((valid_identity_segment_iff s).0 h).chars

-- The segments of a scope, which `new` has tested.
pub record IsScope (scope : LifecycleLeaseScope) : Type 0 where
  pub product : valid_segment scope.product ≡ true
  pub environment : valid_segment scope.environment ≡ true
  pub region : valid_segment scope.region ≡ true
  pub runtime_id : valid_segment scope.runtime_id ≡ true

pub new_scope-IsScope :
    (p e r i : Text) (scope : LifecycleLeaseScope) → new_scope p e r i ≡ ok scope → IsScope scope
unfolding new_scope
new_scope-IsScope p e r i scope h = ground arith

lock_key_value-injective :
    (a b : LifecycleLeaseScope)
    → IsScope a
    → IsScope b
    → lock_key_value a ≡ lock_key_value b
    → a ≡ b
unfolding lock_key_value
lock_key_value-injective a b ha hb e =
    let chars = valid_segment-All in
    let one = slash_injective a.product b.product _ _ (chars _ ha.product) (chars _ hb.product) e in
    let two =
      slash_injective a.environment b.environment _ _ (chars _ ha.environment)
        (chars _ hb.environment) (ap (drop 18) one.1) in
    let three =
      slash_injective a.region b.region _ _ (chars _ ha.region) (chars _ hb.region) two.1 in
    ground (arith, one.0, two.0, three.0, three.1)

ok-map_err : {E F A : Type 0} (f : E → F) {a : A} (r : Result E A) → map_err f r ≡ ok a → r ≡ ok a
ok-map_err f r h = ground arith

-- Two leases contend on one lock key only if they are of one scope: if the lock library's keys are
-- equal only for equal texts, scopes that `new` accepted and that have the same lock key are equal.
pub lock_key-injective :
    {LockKey LockError : Type 0}
    → (new_key : Text → Result LockError LockKey)
    → ((x y : Text) (k : LockKey) → new_key x ≡ ok k → new_key y ≡ ok k → x ≡ y)
    → (p e r i p' e' r' i' : Text) (a b : LifecycleLeaseScope) (k : LockKey)
    → new_scope p e r i ≡ ok a
    → new_scope p' e' r' i' ≡ ok b
    → lock_key new_key a ≡ ok k
    → lock_key new_key b ≡ ok k
    → a ≡ b
unfolding lock_key
lock_key-injective new_key faithful p e r i p' e' r' i' a b k ha hb ka kb =
    lock_key_value-injective a b (new_scope-IsScope p e r i a ha)
      (new_scope-IsScope p' e' r' i' b hb)
      (faithful (lock_key_value a) (lock_key_value b) k
        (ok-map_err _ (new_key (lock_key_value a)) ka)
        (ok-map_err _ (new_key (lock_key_value b)) kb))
