-- ===== src/CloudflareLease.antt =====
-- src/adapters/process_lifecycle_cloudflare_do.rs: the lease transport of a Cloudflare Durable
-- Object, over an arbitrary HTTP client.
pub mod Wire
pub mod Answers
pub mod Fresh
pub mod Sent
pub mod Credentials
pub mod Trusted
use ores_otel_sidecar_rs.Actions.{Act, lift, ◌>>=◌, ◌>>◌}
use ores_otel_sidecar_rs.Prelude.{
  ℕ, ◌+◌, Bool, true, false, not, ◌&&◌, Option, none, some, List, [], ◌∷◌, ◌++◌, length, ltb, leb,
  if◌then◌else◌, Result, ok, err, reject_if, Text, codes, u64_max,
}
use ores_otel_sidecar_rs.Strings.Decode.{decimal}
use ores_otel_sidecar_rs.Lease.Grant.{LockLibrary}
use ores_otel_sidecar_rs.CloudflareLease.Wire.{
  LeaseRequest, acquire_request, renew_request, release_request, AcquireResponse, RenewResponse,
  ReleaseResponse, ManagedAcquireResult, granted, contended, ManagedGrant, ManagedRenewResult,
  extended, lost, Wired, parse_acquire_response, parse_renew_response,
}

abbrev pub acquire_path : Text
acquire_path = codes "/v1/leases/acquire"

abbrev pub renew_path : Text
renew_path = codes "/v1/leases/renew"

abbrev release_path : Text
release_path = codes "/v1/leases/release"

abbrev pub max_response_bytes : ℕ
max_response_bytes = 65536

-- What the next `chunk()` of a response returns; after the last there is none.
pub data Chunk : Type 0 where
  received : List ℕ → Chunk
  body_failed : Chunk

pub record HttpResponse : Type 0 where
  pub status : ℕ
  pub content_length : Option ℕ
  pub body : List Chunk

-- What the source uses of the HTTP client and of serde: a request that is sent to a URL under a
-- bearer with a serialized body, which fails or is answered, and the parsers of the answers.
pub record LeaseHttp : Type 1 where
  pub World : Type 0
  pub Client : Type 0
  pub post : Client → Text → Text → LeaseRequest → World → Option HttpResponse × World
  pub acquire_response : List ℕ → Option AcquireResponse
  pub renew_response : List ℕ → Option RenewResponse
  pub release_response : List ℕ → Option ReleaseResponse

abbrev over_bound : Text
over_bound = codes "cloudflare-do lease response exceeded its bound"

unfoldable pub append_bounded_response_chunk : List ℕ → List ℕ → Wired (List ℕ)
append_bounded_response_chunk body chunk =
    if ltb u64_max (length body + length chunk)
    then err over_bound
    else if ltb max_response_bytes (length body + length chunk)
    then err over_bound
    else ok (body ++ chunk)

-- `while let Some(chunk)`
unfoldable pub read_chunks : List ℕ → List Chunk → Wired (List ℕ)
unfolding append_bounded_response_chunk
read_chunks body [] = ok body
read_chunks body (body_failed ∷ more) = err (codes "cloudflare-do lease response body failed")
read_chunks body (received chunk ∷ more) = elim (append_bounded_response_chunk body chunk) [
  | ok body' ↦ read_chunks body' more
  | err e ↦ err e
]

abbrev is_success : ℕ → Bool
is_success status = leb 200 status && ltb status 300

abbrev declares_too_much : Option ℕ → Bool
declares_too_much none = false
declares_too_much (some n) = ltb max_response_bytes n

abbrev parsed_or : {R : Type 0} → Option R → Wired R
parsed_or none = err (codes "cloudflare-do lease response was invalid JSON")
parsed_or (some r) = ok r

-- From the response on, in `post_json`.
unfoldable pub read_response : {R : Type 0} → (List ℕ → Option R) → HttpResponse → Wired R
unfolding read_chunks
read_response from_slice response =
    if not (is_success response.status)
    then err (codes "cloudflare-do lease authority returned HTTP " ++ decimal response.status)
    else if declares_too_much response.content_length
    then err over_bound
    else elim (read_chunks [] response.body) [
      | ok body ↦ parsed_or (from_slice body)
      | err e ↦ err e
    ]

module _ (L : LockLibrary) (H : LeaseHttp) where
  pub record CloudflareDoLeaseTransport : Type 0 where
    pub client : H.Client
    pub base_url : Text
    pub bearer : Text

  abbrev Sent : Type 0 → Type 0
  Sent = Act H.World Text

  unfoldable pub require_cloudflare_backend : L.ManagedLeaseBackend → Wired (Unit {0})
  require_cloudflare_backend backend =
      reject_if (not (L.is_cloudflare_durable_object backend))
        (codes "Cloudflare DO transport received a non-Cloudflare lease backend")

  module _ (t : CloudflareDoLeaseTransport) where
    abbrev pub answered :
        {R : Type 0} → (List ℕ → Option R) → Option HttpResponse × H.World → Wired R × H.World
    answered from_slice (none, w) = (err (codes "cloudflare-do lease transport failed"), w)
    answered from_slice (some response, w) = (read_response from_slice response, w)

    unfoldable pub post_json : {R : Type 0} → (List ℕ → Option R) → Text → LeaseRequest → Sent R
    unfolding read_response
    post_json from_slice path request w =
        answered from_slice (H.post t.client (t.base_url ++ path) t.bearer request w)

    unfoldable pub renew_wire : Text → Text → ℕ → ℕ → Sent ManagedRenewResult
    unfolding post_json parse_renew_response
    renew_wire key holder fencing_token ttl_ms = do
      response ← post_json H.renew_response renew_path (
          renew_request (record {
            key = key;
            holder = holder;
            fencing_token = decimal fencing_token;
            ttl_ms = ttl_ms;
          }))
      lift (parse_renew_response response)

    -- `match renewed`
    unfoldable pub replayed_grant : ManagedGrant → ManagedRenewResult → Wired ManagedAcquireResult
    replayed_grant grant (extended lease_expires_ms) = ok (
        granted
          (record { fencing_token = grant.fencing_token; lease_expires_ms = lease_expires_ms }))
    replayed_grant grant lost =
        err (codes "cloudflare-do replay renewal refused; fenced authority is lost")

    -- From the parsed response on, in `acquire`.
    unfoldable pub finish_acquire :
        L.LockKey → Text → ℕ → ManagedAcquireResult × Bool → Sent ManagedAcquireResult
    unfolding renew_wire replayed_grant
    finish_acquire key holder ttl_ms (result, false) = lift (ok result)
    finish_acquire key holder ttl_ms (contended, true) =
        lift (err (codes "cloudflare-do replay response was not acquired"))
    finish_acquire key holder ttl_ms (granted grant, true) = do
      renewed ← renew_wire (L.as_str key) holder grant.fencing_token ttl_ms
      lift (replayed_grant grant renewed)

    unfoldable pub acquire :
        L.ManagedLeaseBackend → L.LockKey → Text → Text → ℕ → Sent ManagedAcquireResult
    unfolding require_cloudflare_backend post_json parse_acquire_response finish_acquire
    acquire backend key holder request_id ttl_ms = do
      lift (require_cloudflare_backend backend)
      response ← post_json H.acquire_response acquire_path (
          acquire_request (record {
            key = L.as_str key;
            holder = holder;
            request_id = request_id;
            ttl_ms = ttl_ms;
          }))
      parsed ← lift (parse_acquire_response response)
      finish_acquire key holder ttl_ms parsed

    unfoldable pub renew : L.ManagedLeaseBackend → L.LeaseGrant → ℕ → Sent ManagedRenewResult
    unfolding require_cloudflare_backend renew_wire
    renew backend grant ttl_ms = do
      lift (require_cloudflare_backend backend)
      renew_wire (L.as_str (L.key grant)) (L.holder grant) (L.fencing_token grant) ttl_ms

    unfoldable pub release : L.ManagedLeaseBackend → L.LeaseGrant → Sent Bool
    unfolding require_cloudflare_backend post_json
    release backend grant = do
      lift (require_cloudflare_backend backend)
      response ← post_json H.release_response release_path (
          release_request (record {
            key = L.as_str (L.key grant);
            holder = L.holder grant;
            fencing_token = decimal (L.fencing_token grant);
          }))
      lift (ok response.released)
