-- ===== src/CloudflareLease/Wire.antt =====
-- The requests and the responses of src/adapters/process_lifecycle_cloudflare_do.rs, and how a
-- response is read.
use ores_otel_sidecar_rs.Prelude.{
  ℕ, Bool, true, false, not, ◌&&◌, ◌||◌, Option, none, some, ◌++◌, ltb, ◌==◌, if◌then◌else◌, Result,
  ok, err, ◌>>=◌, Text, codes,
}
use ores_otel_sidecar_rs.Strings.{parse_u64}

abbrev pub max_json_safe_u64 : ℕ
max_json_safe_u64 = 9007199254740991

pub record AcquireRequest : Type 0 where
  pub key : Text
  pub holder : Text
  pub request_id : Text
  pub ttl_ms : ℕ

pub record RenewRequest : Type 0 where
  pub key : Text
  pub holder : Text
  pub fencing_token : Text
  pub ttl_ms : ℕ

pub record ReleaseRequest : Type 0 where
  pub key : Text
  pub holder : Text
  pub fencing_token : Text

-- What `post_json` is given to serialize.
pub data LeaseRequest : Type 0 where
  acquire_request : AcquireRequest → LeaseRequest
  renew_request : RenewRequest → LeaseRequest
  release_request : ReleaseRequest → LeaseRequest

pub data WireU64 : Type 0 where
  number : ℕ → WireU64
  string : Text → WireU64

pub record AcquireResponse : Type 0 where
  pub acquired : Bool
  pub fencing_token : Option WireU64
  pub lease_expires_ms : Option WireU64
  pub replayed : Bool

pub record RenewResponse : Type 0 where
  pub renewed : Bool
  pub lease_expires_ms : Option WireU64

pub record ReleaseResponse : Type 0 where
  pub released : Bool

-- The lock library's results, as this transport builds them.
pub record ManagedGrant : Type 0 where
  pub fencing_token : ℕ
  pub lease_expires_ms : Option ℕ

pub data ManagedAcquireResult : Type 0 where
  granted : ManagedGrant → ManagedAcquireResult
  contended : ManagedAcquireResult

pub data ManagedRenewResult : Type 0 where
  extended : Option ℕ → ManagedRenewResult
  lost : ManagedRenewResult

abbrev pub Wired : Type 0 → Type 0
Wired = Result Text

-- `match value` of `parse_wire_u64`
unfoldable pub wire_value : Text → Option WireU64 → Wired ℕ
wire_value field none = err (codes "cloudflare-do response omitted " ++ field)
wire_value field (some (number n)) = ok n
wire_value field (some (string s)) = elim (parse_u64 s) [
  | some n ↦ ok n
  | none ↦ err (codes "cloudflare-do response has invalid " ++ field)
]

unfoldable pub parse_wire_u64 : Option WireU64 → Text → Bool → Wired ℕ
unfolding wire_value
parse_wire_u64 value field positive = wire_value field value >>= λ parsed.
    if ltb max_json_safe_u64 parsed || positive && parsed == 0
    then err (codes "cloudflare-do response has invalid " ++ field)
    else ok parsed

unfoldable pub parse_optional_wire_u64 : Option WireU64 → Text → Wired (Option ℕ)
unfolding parse_wire_u64
parse_optional_wire_u64 none field = ok none
parse_optional_wire_u64 (some value) field =
    parse_wire_u64 (some value) field false >>= λ n. ok (some n)

unfoldable pub parse_acquire_response : AcquireResponse → Wired (ManagedAcquireResult × Bool)
unfolding parse_wire_u64 parse_optional_wire_u64
parse_acquire_response r =
    if not r.acquired
    then if r.replayed
      then err (codes "cloudflare-do contention response cannot be replayed")
      else ok (contended, false)
    else parse_wire_u64 r.fencing_token (codes "fencing_token") true >>= λ fence.
        parse_optional_wire_u64 r.lease_expires_ms (codes "lease_expires_ms") >>= λ expires.
        ok (granted (record { fencing_token = fence; lease_expires_ms = expires }), r.replayed)

unfoldable pub parse_renew_response : RenewResponse → Wired ManagedRenewResult
unfolding parse_optional_wire_u64
parse_renew_response r =
    if not r.renewed
    then ok lost
    else parse_optional_wire_u64 r.lease_expires_ms (codes "lease_expires_ms") >>= λ expires.
        ok (extended expires)
