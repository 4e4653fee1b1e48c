-- ===== src/CloudflareLease/Fresh.antt =====
-- What a lease that src/adapters/process_lifecycle_cloudflare_do.rs reports as acquired rests on.
use ores_otel_sidecar_rs.Actions.{lift, and_then_ok, lift_ok}
use ores_otel_sidecar_rs.Prelude.{
  ℕ, ◌≤◌, ◌<◌, ◌≡◌, refl, ap, ◌∙◌, ◌⊎◌, inl, inr, Bool, true, false, Option, none, some, List, ◌++◌,
  ok, Text, codes, arith,
}
use ores_otel_sidecar_rs.Strings.Decode.{decimal}
use ores_otel_sidecar_rs.Lease.Grant.{LockLibrary}
use ores_otel_sidecar_rs.CloudflareLease.Wire.{
  LeaseRequest, acquire_request, renew_request, AcquireResponse, RenewResponse,
  ManagedAcquireResult, granted, contended, ManagedGrant, ManagedRenewResult, extended, lost,
  parse_wire_u64, parse_optional_wire_u64, parse_acquire_response, parse_renew_response,
  max_json_safe_u64,
}
use ores_otel_sidecar_rs.CloudflareLease.{
  HttpResponse, LeaseHttp, acquire_path, renew_path, read_response, CloudflareDoLeaseTransport,
  post_json, answered, renew_wire, replayed_grant, finish_acquire, acquire,
  require_cloudflare_backend,
}
use ores_otel_sidecar_rs.CloudflareLease.Answers.{
  Decodes, read_response-Decodes, IsSafe, parse_wire_u64_ok, parse_optional_wire_u64_ok, Grants,
  parse_acquire_response_ok, parse_renew_response_ok,
}

module _ (L : LockLibrary) (H : LeaseHttp) (t : CloudflareDoLeaseTransport L H) where
  -- A request that was sent under the transport's bearer and answered.
  pub record Exchanged {R : Type 0} (from_slice : List ℕ → Option R) (path : Text)
      (request : LeaseRequest) (w w' : H.World) (r : R) : Type 0 where
    pub response : HttpResponse
    pub sent : H.post t.client (t.base_url ++ path) t.bearer request w ≡ (some response, w')
    pub decodes : Decodes from_slice response r

  answered_ok :
      {R : Type 0} (from_slice : List ℕ → Option R) (x : Option HttpResponse × H.World)
      (w' : H.World) (r : R)
      → answered L H t from_slice x ≡ (ok r, w')
      → (response : HttpResponse) × (x ≡ (some response, w'))
        × (read_response from_slice response ≡ ok r)
  answered_ok from_slice (none, w) w' r h = cc
  answered_ok from_slice (some response, w) w' r h = (response, cc, cc)

  post_json-Exchanged :
      {R : Type 0} (from_slice : List ℕ → Option R) (path : Text) (request : LeaseRequest)
      (w w' : H.World) (r : R)
      → post_json L H t from_slice path request w ≡ (ok r, w')
      → Exchanged from_slice path request w w' r
  unfolding post_json
  post_json-Exchanged from_slice path request w w' r h =
      let (response, sent, read) = answered_ok from_slice _ w' r h in
      record {
        response = response;
        sent = sent;
        decodes = read_response-Decodes from_slice response r read;
      }

  abbrev pub renewal : Text → Text → ℕ → ℕ → LeaseRequest
  renewal key holder fence ttl_ms =
      renew_request
        (record { key = key; holder = holder; fencing_token = decimal fence; ttl_ms = ttl_ms })

  -- A renewal that the authority granted.
  pub record Renews (key holder : Text) (fence ttl_ms : ℕ) (expires : Option ℕ) (w w' : H.World)
      : Type 0 where
    pub answer : RenewResponse
    pub exchanged :
        Exchanged H.renew_response renew_path (renewal key holder fence ttl_ms) w w' answer
    pub renewed : answer.renewed ≡ true
    pub until :
        parse_optional_wire_u64 answer.lease_expires_ms (codes "lease_expires_ms") ≡ ok expires

  renew_wire-Renews :
      (key holder : Text) (fence ttl_ms : ℕ) (expires : Option ℕ) (w w' : H.World)
      → renew_wire L H t key holder fence ttl_ms w ≡ (ok (extended expires), w')
      → Renews key holder fence ttl_ms expires w w'
  unfolding renew_wire
  renew_wire-Renews key holder fence ttl_ms expires w w' h =
      let (answer, w1, posted, rest) =
        and_then_ok (post_json L H t H.renew_response renew_path (renewal key holder fence ttl_ms))
          (λ response. lift (parse_renew_response response)) w w' (extended expires) h in
      let (parsed, same) = lift_ok (parse_renew_response answer) w1 w' (extended expires) rest in
      let (renewed, until) = parse_renew_response_ok answer expires parsed in
      record {
        answer = answer;
        exchanged = rw (← same) (
            post_json-Exchanged H.renew_response renew_path (renewal key holder fence ttl_ms) w w1
              answer posted);
        renewed = renewed;
        until = until;
      }

  -- The grant of an answer is taken as it is if the answer is new. If it repeats an earlier answer,
  -- its expiry may have passed: it is taken with the expiry of a renewal under its own fence.
  pub data Confirmed (key holder : Text) (ttl_ms : ℕ) (first : AcquireResponse)
      (grant : ManagedGrant) (w1 w' : H.World) : Type 0 where
    new :
        first.replayed ≡ false
        → parse_optional_wire_u64 first.lease_expires_ms (codes "lease_expires_ms")
          ≡ ok grant.lease_expires_ms
        → w1 ≡ w'
        → Confirmed key holder ttl_ms first grant w1 w'
    repeated :
        first.replayed ≡ true
        → Renews key holder grant.fencing_token ttl_ms grant.lease_expires_ms w1 w'
        → Confirmed key holder ttl_ms first grant w1 w'

  abbrev acquisition : L.LockKey → Text → Text → ℕ → LeaseRequest
  acquisition key holder request_id ttl_ms =
      acquire_request
        (record { key = L.as_str key; holder = holder; request_id = request_id; ttl_ms = ttl_ms })

  require_cloudflare_backend_ok :
      (backend : L.ManagedLeaseBackend)
      → require_cloudflare_backend L H backend ≡ ok tt
      → L.is_cloudflare_durable_object backend ≡ true
  unfolding require_cloudflare_backend
  require_cloudflare_backend_ok backend h = ground arith

  pub record IsFresh (backend : L.ManagedLeaseBackend) (key : L.LockKey) (holder request_id : Text)
      (ttl_ms : ℕ) (grant : ManagedGrant) (w w' : H.World) : Type 0 where
    pub for_this_backend : L.is_cloudflare_durable_object backend ≡ true
    pub first : AcquireResponse
    pub w1 : H.World
    pub exchanged :
        Exchanged H.acquire_response acquire_path
          (acquisition key holder request_id ttl_ms)
          w
          w1
          first
    pub acquired : first.acquired ≡ true
    pub fence :
        parse_wire_u64 first.fencing_token (codes "fencing_token") true ≡ ok grant.fencing_token
    pub safe_fence : (0 < grant.fencing_token) × (grant.fencing_token ≤ max_json_safe_u64)
    pub safe_expiry : IsSafe grant.lease_expires_ms
    pub confirmed : Confirmed (L.as_str key) holder ttl_ms first grant w1 w'

  replayed_grant_ok :
      (g grant : ManagedGrant) (m : ManagedRenewResult)
      → replayed_grant L H t g m ≡ ok (granted grant)
      → (m ≡ extended grant.lease_expires_ms) × (g.fencing_token ≡ grant.fencing_token)
  unfolding replayed_grant
  replayed_grant_ok g grant (extended expires) h = (ground arith, ground arith)
  replayed_grant_ok g grant lost h = cc

  record Finished (key : L.LockKey) (holder : Text) (ttl_ms : ℕ) (g grant : ManagedGrant)
      (replayed : Bool) (w1 w' : H.World) : Type 0 where
    same_fence : g.fencing_token ≡ grant.fencing_token
    ended :
        ((replayed ≡ false) × (g ≡ grant) × (w1 ≡ w'))
        ⊎ ((replayed ≡ true)
            × Renews (L.as_str key) holder grant.fencing_token ttl_ms grant.lease_expires_ms w1 w')

  finish_acquire-Finished :
      (key : L.LockKey) (holder : Text) (ttl_ms : ℕ) (result : ManagedAcquireResult)
      (replayed : Bool) (grant : ManagedGrant) (w1 w' : H.World)
      → finish_acquire L H t key holder ttl_ms (result, replayed) w1 ≡ (ok (granted grant), w')
      → (g : ManagedGrant) × (result ≡ granted g)
        × Finished key holder ttl_ms g grant replayed w1 w'
  unfolding finish_acquire
  finish_acquire-Finished key holder ttl_ms (granted g) false grant w1 w' h =
      (g, refl, record { same_fence = ground arith; ended = inl (refl, ground arith, cc) })
  finish_acquire-Finished key holder ttl_ms contended false grant w1 w' h = cc
  finish_acquire-Finished key holder ttl_ms contended true grant w1 w' h = cc
  finish_acquire-Finished key holder ttl_ms (granted g) true grant w1 w' h =
      let (m, w2, renewed, rest) =
        and_then_ok (renew_wire L H t (L.as_str key) holder g.fencing_token ttl_ms)
          (λ m. lift (replayed_grant L H t g m)) w1 w' (granted grant) h in
      let (result, same) = lift_ok (replayed_grant L H t g m) w2 w' (granted grant) rest in
      let (expires, fence) = replayed_grant_ok g grant m result in
      let done =
        renew_wire-Renews (L.as_str key) holder g.fencing_token ttl_ms grant.lease_expires_ms w1 w'
          (cc) in
      (g, refl, record { same_fence = fence; ended = inr (refl, rw (← fence) done) })

  Finished-Confirmed :
      (key : L.LockKey) (holder : Text) (ttl_ms : ℕ) (first : AcquireResponse)
      (g grant : ManagedGrant) (replayed : Bool) (w1 w' : H.World)
      → Grants first g replayed
      → Finished key holder ttl_ms g grant replayed w1 w'
      → Confirmed (L.as_str key) holder ttl_ms first grant w1 w'
  Finished-Confirmed key holder ttl_ms first g grant replayed w1 w' said done = elim done.ended [
    | inl (fresh, same, still) ↦
        new (said.replay ∙ fresh)
          (said.expires ∙ ap (λ (x : ManagedGrant). ok x.lease_expires_ms) same) still
    | inr (again, renewed) ↦ repeated (said.replay ∙ again) renewed
  ]

  Confirmed-IsSafe :
      (key holder : Text) (ttl_ms : ℕ) (first : AcquireResponse) (grant : ManagedGrant)
      (w1 w' : H.World)
      → Confirmed key holder ttl_ms first grant w1 w'
      → IsSafe grant.lease_expires_ms
  Confirmed-IsSafe key holder ttl_ms first grant w1 w' (new fresh until same) =
      parse_optional_wire_u64_ok first.lease_expires_ms (codes "lease_expires_ms")
        grant.lease_expires_ms until
  Confirmed-IsSafe key holder ttl_ms first grant w1 w' (repeated replay done) =
      parse_optional_wire_u64_ok done.answer.lease_expires_ms (codes "lease_expires_ms")
        grant.lease_expires_ms done.until

  -- Whatever the authority answers, a lease that is reported as acquired was requested of this
  -- backend's authority for the key's own text, and answered with a success of at most 64 KiB that
  -- grants the reported fence, which is positive and, as the expiry, a number that JSON carries
  -- exactly. If the answer repeats an earlier one, the authority has then renewed the lease under
  -- that fence, and the reported expiry is the renewal's.
  pub acquire-IsFresh :
      (backend : L.ManagedLeaseBackend) (key : L.LockKey) (holder request_id : Text) (ttl_ms : ℕ)
      (grant : ManagedGrant) (w w' : H.World)
      → acquire L H t backend key holder request_id ttl_ms w ≡ (ok (granted grant), w')
      → IsFresh backend key holder request_id ttl_ms grant w w'
  unfolding acquire
  acquire-IsFresh backend key holder request_id ttl_ms grant w w' h =
      let (_, w0, checked, more) =
        and_then_ok (lift (require_cloudflare_backend L H backend)) _ w w' (granted grant) h in
      let (passed, start) = lift_ok (require_cloudflare_backend L H backend) w w0 tt checked in
      let (first, w1, posted, rest) =
        and_then_ok
          (post_json L H t H.acquire_response acquire_path
            (acquisition key holder request_id ttl_ms))
          _ w0 w' (granted grant) more in
      let (parsed, w2, read, last) =
        and_then_ok (lift (parse_acquire_response first)) _ w1 w' (granted grant) rest in
      let (said, same) = lift_ok (parse_acquire_response first) w1 w2 parsed read in
      let (g, is_grant, done) =
        finish_acquire-Finished key holder ttl_ms parsed.0 parsed.1 grant w1 w' (rw same last) in
      let says =
        parse_acquire_response_ok first g parsed.1 (said ∙ ap (λ r. ok (r, parsed.1)) is_grant) in
      let fence : parse_wire_u64 first.fencing_token (codes "fencing_token") true
          ≡ ok grant.fencing_token =
        says.fence ∙ ap ok done.same_fence in
      let (_, small, positive) =
        parse_wire_u64_ok first.fencing_token (codes "fencing_token") true grant.fencing_token
          fence in
      let confirmed = Finished-Confirmed key holder ttl_ms first g grant parsed.1 w1 w' says done in
      record {
        for_this_backend = require_cloudflare_backend_ok backend passed;
        first = first;
        w1 = w1;
        exchanged =
            post_json-Exchanged H.acquire_response acquire_path
              (acquisition key holder request_id ttl_ms) w w1 first (rw start posted);
        acquired = says.acquired;
        fence = fence;
        safe_fence = (positive refl, small);
        safe_expiry = Confirmed-IsSafe (L.as_str key) holder ttl_ms first grant w1 w' confirmed;
        confirmed = confirmed;
      }
