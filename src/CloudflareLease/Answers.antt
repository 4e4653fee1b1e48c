-- ===== src/CloudflareLease/Answers.antt =====
-- What an accepted answer of the authority of src/adapters/process_lifecycle_cloudflare_do.rs is.
use ores_otel_sidecar_rs.Prelude.{
  ℕ, ◌≤◌, ◌<◌, ◌≡◌, refl, ◌∙◌, Bool, true, false, Option, none, some, List, [], ◌∷◌, ◌++◌,
  append_assoc, append-nil, length, length-append, ok, err, Text, codes, arith,
}
use ores_otel_sidecar_rs.Strings.Decode.{decimal}
use ores_otel_sidecar_rs.Strings.Digits.{parse_u64-decimal}
use ores_otel_sidecar_rs.CloudflareLease.Wire.{
  AcquireResponse, RenewResponse, WireU64, string, granted, ManagedGrant, extended, Wired,
  wire_value, parse_wire_u64, parse_optional_wire_u64, parse_acquire_response, parse_renew_response,
  max_json_safe_u64,
}
use ores_otel_sidecar_rs.CloudflareLease.{
  Chunk, received, body_failed, HttpResponse, max_response_bytes, append_bounded_response_chunk,
  read_chunks, read_response,
}

-- All the bytes of a response, none of whose chunks fails.
pub data Streams : List Chunk → List ℕ → Type 0 where
  finished : Streams [] []
  next :
      (bs rest : List ℕ) (more : List Chunk)
      → Streams more rest
      → Streams (received bs ∷ more) (bs ++ rest)

record Read (acc : List ℕ) (chunks : List Chunk) (body : List ℕ) : Type 0 where
  rest : List ℕ
  streams : Streams chunks rest
  joins : body ≡ acc ++ rest
  bounded : length body ≤ max_response_bytes

append_bounded_response_chunk_ok :
    (body chunk body' : List ℕ)
    → append_bounded_response_chunk body chunk ≡ ok body'
    → (body' ≡ body ++ chunk) × (length body' ≤ max_response_bytes)
unfolding append_bounded_response_chunk
append_bounded_response_chunk_ok body chunk body' h = ground (arith, length-append body chunk)

read_chunks-Read :
    (acc : List ℕ) (chunks : List Chunk) (body : List ℕ)
    → length acc ≤ max_response_bytes
    → read_chunks acc chunks ≡ ok body
    → Read acc chunks body
unfolding read_chunks
read_chunks-Read acc [] body small h = record {
  rest = [];
  streams = finished;
  joins = ground (arith, append-nil acc);
  bounded = ground arith;
}
read_chunks-Read acc (body_failed ∷ more) body small h = cc
read_chunks-Read acc (received bs ∷ more) body small h =
    go (append_bounded_response_chunk acc bs) refl (read_chunks-Read (acc ++ bs) more body)
  where
    go :
        (r : Wired (List ℕ))
        → append_bounded_response_chunk acc bs ≡ r
        → (length (acc ++ bs) ≤ max_response_bytes
            → read_chunks (acc ++ bs) more ≡ ok body
            → Read (acc ++ bs) more body)
        → Read acc (received bs ∷ more) body
    go (err e) eq ih = ground (arith, eq)
    go (ok acc') eq ih =
        let (same, fits) = append_bounded_response_chunk_ok acc bs acc' eq in
        let tail = ih (rw (← same) fits) (ground (arith, eq)) in
        record {
          rest = bs ++ tail.rest;
          streams = next bs tail.rest more tail.streams;
          joins = tail.joins ∙ append_assoc acc bs tail.rest;
          bounded = tail.bounded;
        }

-- The value of a response that succeeded and is within the bound.
pub record Decodes {R : Type 0} (from_slice : List ℕ → Option R) (response : HttpResponse) (r : R)
    : Type 0 where
  pub succeeded : (200 ≤ response.status) × (response.status < 300)
  pub body : List ℕ
  pub streams : Streams response.body body
  pub bounded : length body ≤ max_response_bytes
  pub parses : from_slice body ≡ some r

read_body_ok :
    {R : Type 0} (from_slice : List ℕ → Option R) (response : HttpResponse) (r : R)
    → read_response from_slice response ≡ ok r
    → ((200 ≤ response.status) × (response.status < 300))
      × ((body : List ℕ) × (read_chunks [] response.body ≡ ok body) × (from_slice body ≡ some r))
unfolding read_response
read_body_ok from_slice response r h = (ground arith, go (read_chunks [] response.body) refl)
  where
    go :
        (read : Wired (List ℕ))
        → read_chunks [] response.body ≡ read
        → (body : List ℕ) × (read_chunks [] response.body ≡ ok body) × (from_slice body ≡ some r)
    go (err e) eq = ground (arith, eq)
    go (ok body) eq = (body, eq, ground (arith, eq))

pub read_response-Decodes :
    {R : Type 0} (from_slice : List ℕ → Option R) (response : HttpResponse) (r : R)
    → read_response from_slice response ≡ ok r
    → Decodes from_slice response r
read_response-Decodes from_slice response r h =
    let (status, (body, read, parsed)) = read_body_ok from_slice response r h in
    let all = read_chunks-Read [] response.body body (omega arith) read in
    record {
      succeeded = status;
      body = body;
      streams = rw all.joins all.streams;
      bounded = all.bounded;
      parses = parsed;
    }

-- A number of the authority that JSON carries exactly.
abbrev pub IsSafe : Option ℕ → Type 0
IsSafe none = Unit
IsSafe (some n) = n ≤ max_json_safe_u64

pub parse_wire_u64_ok :
    (value : Option WireU64) (field : Text) (positive : Bool) (n : ℕ)
    → parse_wire_u64 value field positive ≡ ok n
    → (wire_value field value ≡ ok n) × (n ≤ max_json_safe_u64) × (positive ≡ true → 0 < n)
unfolding parse_wire_u64
parse_wire_u64_ok value field positive n h = (ground arith, ground arith, λ p. ground arith)

pub parse_optional_wire_u64_ok :
    (value : Option WireU64) (field : Text) (n : Option ℕ)
    → parse_optional_wire_u64 value field ≡ ok n
    → IsSafe n
unfolding parse_optional_wire_u64
parse_optional_wire_u64_ok none field none h = tt
parse_optional_wire_u64_ok none field (some n) h = cc
parse_optional_wire_u64_ok (some value) field none h = tt
parse_optional_wire_u64_ok (some value) field (some n) h =
    (parse_wire_u64_ok (some value) field false n (ground arith)).1

-- What an acquired response says.
pub record Grants (r : AcquireResponse) (grant : ManagedGrant) (replayed : Bool) : Type 0 where
  pub acquired : r.acquired ≡ true
  pub fence : parse_wire_u64 r.fencing_token (codes "fencing_token") true ≡ ok grant.fencing_token
  pub expires :
      parse_optional_wire_u64 r.lease_expires_ms (codes "lease_expires_ms")
      ≡ ok grant.lease_expires_ms
  pub replay : r.replayed ≡ replayed

pub parse_acquire_response_ok :
    (r : AcquireResponse) (grant : ManagedGrant) (replayed : Bool)
    → parse_acquire_response r ≡ ok (granted grant, replayed)
    → Grants r grant replayed
unfolding parse_acquire_response
parse_acquire_response_ok r grant replayed h = ground arith

pub parse_renew_response_ok :
    (r : RenewResponse) (expires : Option ℕ)
    → parse_renew_response r ≡ ok (extended expires)
    → (r.renewed ≡ true)
      × (parse_optional_wire_u64 r.lease_expires_ms (codes "lease_expires_ms") ≡ ok expires)
unfolding parse_renew_response
parse_renew_response_ok r expires h = (ground arith, ground arith)

-- Every positive number that JSON carries exactly is read back from its decimal text.
pub parse_wire_u64-decimal :
    (n : ℕ) (field : Text) (positive : Bool)
    → 0 < n
    → n ≤ max_json_safe_u64
    → parse_wire_u64 (some (string (decimal n))) field positive ≡ ok n
unfolding parse_wire_u64 wire_value
parse_wire_u64-decimal n field positive above small =
    ground (arith, parse_u64-decimal n (omega arith))
