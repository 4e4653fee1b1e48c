-- ===== src/CloudflareLease/Sent.antt =====
-- What src/adapters/process_lifecycle_cloudflare_do.rs sends of a grant.
use ores_otel_sidecar_rs.Actions.{continue, lift, ◌>>=◌}
use ores_otel_sidecar_rs.Prelude.{
  ℕ, ◌≤◌, ◌<◌, ◌≡◌, refl, sym, ◌∙◌, true, Option, none, some, List, ◌++◌, Result, ok, err, Text,
  codes,
}
use ores_otel_sidecar_rs.Strings.Decode.{decimal}
use ores_otel_sidecar_rs.Lease.Grant.{LockLibrary}
use ores_otel_sidecar_rs.CloudflareLease.Wire.{
  RenewRequest, ReleaseRequest, LeaseRequest, renew_request, release_request, string,
  parse_wire_u64, parse_renew_response, max_json_safe_u64,
}
use ores_otel_sidecar_rs.CloudflareLease.{
  HttpResponse, LeaseHttp, CloudflareDoLeaseTransport, renew, release, renew_wire, post_json,
  answered, require_cloudflare_backend,
}
use ores_otel_sidecar_rs.CloudflareLease.Answers.{parse_wire_u64-decimal}

module _ (L : LockLibrary) (H : LeaseHttp) (t : CloudflareDoLeaseTransport L H)
    (grant : L.LeaseGrant) where
  -- The one call that leads from a world to the next.
  abbrev pub Posts : Text → LeaseRequest → H.World → H.World → Type 0
  Posts path request w after = (H.post t.client (t.base_url ++ path) t.bearer request w).1 ≡ after

  -- A text that this transport, too, reads as the grant's fence.
  abbrev pub Fences : Text → Type 0
  Fences text =
      parse_wire_u64 (some (string text)) (codes "fencing_token") true ≡ ok (L.fencing_token grant)

  pub record Renews (ttl_ms : ℕ) (w after : H.World) : Type 0 where
    pub request : RenewRequest
    pub key : request.key ≡ L.as_str (L.key grant)
    pub holder : request.holder ≡ L.holder grant
    pub fence : Fences request.fencing_token
    pub ttl : request.ttl_ms ≡ ttl_ms
    pub posted : Posts (codes "/v1/leases/renew") (renew_request request) w after

  pub record Releases (w after : H.World) : Type 0 where
    pub request : ReleaseRequest
    pub key : request.key ≡ L.as_str (L.key grant)
    pub holder : request.holder ≡ L.holder grant
    pub fence : Fences request.fencing_token
    pub posted : Posts (codes "/v1/leases/release") (release_request request) w after

  answered_same :
      {R : Type 0} (from_slice : List ℕ → Option R) (r : Option HttpResponse × H.World)
      → (answered L H t from_slice r).1 ≡ r.1
  answered_same from_slice (none, w) = refl
  answered_same from_slice (some response, w) = refl

  -- What follows an answer makes no call.
  posted_then :
      {R A : Type 0} (from_slice : List ℕ → Option R) (path : Text) (request : LeaseRequest)
      (f : R → Result Text A) (w : H.World)
      → Posts path request w ((post_json L H t from_slice path request >>= λ x. lift (f x)) w).1
  unfolding post_json
  posted_then {R} {A} from_slice path request f w =
      sym (answered_same from_slice sent) ∙ sym (stays (answered L H t from_slice sent))
    where
      sent : Option HttpResponse × H.World
      sent = H.post t.client (t.base_url ++ path) t.bearer request w

      stays : (r : Result Text R × H.World) → (continue r.0 (λ x. lift (f x)) r.1).1 ≡ r.1
      stays (ok x, w') = refl
      stays (err e, w') = refl

  accepted :
      (backend : L.ManagedLeaseBackend)
      → L.is_cloudflare_durable_object backend ≡ true
      → require_cloudflare_backend L H backend ≡ ok tt
  unfolding require_cloudflare_backend
  accepted backend h = rw h refl

  renew-Renews :
      (backend : L.ManagedLeaseBackend) (ttl_ms : ℕ) (w : H.World)
      → L.is_cloudflare_durable_object backend ≡ true
      → Fences (decimal (L.fencing_token grant))
      → Renews ttl_ms w (renew L H t backend grant ttl_ms w).1
  unfolding renew renew_wire
  renew-Renews backend ttl_ms w h fence = record {
    request = record {
      key = L.as_str (L.key grant);
      holder = L.holder grant;
      fencing_token = decimal (L.fencing_token grant);
      ttl_ms = ttl_ms;
    };
    key = refl;
    holder = refl;
    fence = fence;
    ttl = refl;
    posted =
        rw (accepted backend h)
          (posted_then H.renew_response (codes "/v1/leases/renew") _ parse_renew_response w);
  }

  release-Releases :
      (backend : L.ManagedLeaseBackend) (w : H.World)
      → L.is_cloudflare_durable_object backend ≡ true
      → Fences (decimal (L.fencing_token grant))
      → Releases w (release L H t backend grant w).1
  unfolding release
  release-Releases backend w h fence = record {
    request = record {
      key = L.as_str (L.key grant);
      holder = L.holder grant;
      fencing_token = decimal (L.fencing_token grant);
    };
    key = refl;
    holder = refl;
    fence = fence;
    posted =
        rw (accepted backend h)
          (posted_then H.release_response (codes "/v1/leases/release") _ (λ r. ok r.released) w);
  }

  -- If the backend is this transport's kind and the grant's fence is positive and a number that JSON
  -- carries exactly, a renewal and a release each make one request, to their path, of the grant's
  -- key and holder, with a text that the transport's own parser of fences reads back as the grant's
  -- fence.
  pub renew_release-Sent :
      (backend : L.ManagedLeaseBackend) (ttl_ms : ℕ) (w : H.World)
      → L.is_cloudflare_durable_object backend ≡ true
      → 0 < L.fencing_token grant
      → L.fencing_token grant ≤ max_json_safe_u64
      → Renews ttl_ms w (renew L H t backend grant ttl_ms w).1
        × Releases w (release L H t backend grant w).1
  renew_release-Sent backend ttl_ms w h above small =
      let fence =
        parse_wire_u64-decimal (L.fencing_token grant) (codes "fencing_token") true above small in
      (renew-Renews backend ttl_ms w h fence, release-Releases backend w h fence)
