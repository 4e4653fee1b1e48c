-- ===== src/Http.antt =====
-- src/http.rs: what the probe listener makes of a request, and the status that it answers. The
-- stream is the sequence of results of `read_line`; at its end `read_line` returns no byte.
pub mod Admission
pub mod Response
use ores_otel_sidecar_rs.Prelude.{
  ℕ, ◌+◌, Bool, true, false, not, ◌&&◌, ◌||◌, Option, none, some, List, [], ◌∷◌, ltb, ◌==◌, ◌≟◌,
  if◌then◌else◌, u64_max, Result, ok, err, ◌>>=◌, ◌>>◌, reject_if, Text, text_eq, codes, byte_len,
  is_empty, strip_prefix,
}
use ores_otel_sidecar_rs.Strings.{
  trim, trim_end, contains_char, contains_text, starts_with, split_on, split_once,
  to_ascii_lowercase, parse_u64,
}

abbrev pub max_request_line : ℕ
max_request_line = 2048

abbrev pub max_headers : ℕ
max_headers = 32

abbrev pub max_header_line : ℕ
max_header_line = 1024

pub data Method : Type 0 where
  get head : Method

pub data Route : Type 0 where
  healthz readyz metrics : Route

pub data Reject : Type 0 where
  method_not_allowed not_found line_too_long header_too_large body_not_allowed invalid : Reject

pub data Request : Type 0 where
  accepted : Method → Route → Request
  rejected : Reject → Request

-- The first token.
unfoldable parse_method : List Text → Result Reject Method
parse_method [] = err invalid
parse_method (m ∷ parts) =
    if m ≟ codes "GET"
    then ok get
    else if m ≟ codes "HEAD"
    then ok head
    else if is_empty m
    then err invalid
    else err method_not_allowed

-- `let [_, path, version] = parts.as_slice()`
unfoldable three_parts : List Text → Result Reject (Text × Text)
three_parts (m ∷ path ∷ version ∷ []) = ok (path, version)
three_parts _ = err invalid

abbrev first_part : List Text → Text
first_part [] = []
first_part (p ∷ ps) = p

unfoldable route_of : Text → Result Reject Route
route_of path =
    if path ≟ codes "/healthz" || path ≟ codes "/health"
    then ok healthz
    else if path ≟ codes "/readyz" || path ≟ codes "/ready"
    then ok readyz
    else if path ≟ codes "/metrics"
    then ok metrics
    else err not_found

abbrev is_line_end : ℕ → Bool
is_line_end c = c == b'\r' || c == b'\n'

unfoldable path_refused : Text → Bool
unfolding contains_char contains_text starts_with
path_refused path =
    contains_char b'%' path
    || contains_text (codes "..") path
    || contains_char b'\\' path
    || contains_char b'\t' path
    || not (starts_with (codes "/") path)

-- From the tokens on, in `classify_request_line`.
unfoldable classify_parts : List Text → Result Reject (Method × Route)
unfolding parse_method three_parts path_refused split_on route_of
classify_parts parts = do
  method ← parse_method parts
  path_version ← three_parts parts
  let path = path_version.0
  let version = path_version.1
  reject_if (is_empty path || not (version ≟ codes "HTTP/1.1") && not (version ≟ codes "HTTP/1.0"))
      invalid
  reject_if (path_refused path) not_found
  route ← route_of (first_part (split_on b'?' path))
  ok (method, route)

unfoldable classify_trimmed : Text → Result Reject (Method × Route)
unfolding classify_parts contains_char split_on
classify_trimmed line = do
  reject_if (ltb max_request_line (byte_len line)) line_too_long
  reject_if (contains_char 0 line || contains_char b'\r' line) invalid
  classify_parts (split_on b' ' line)

abbrev as_request : Result Reject (Method × Route) → Request
as_request (err e) = rejected e
as_request (ok (m, r)) = accepted m r

unfoldable pub classify_request_line : Text → Request
unfolding classify_trimmed trim_end
classify_request_line line = as_request (classify_trimmed (trim_end is_line_end line))

pub record Headers : Type 0 where
  pub count : ℕ
  pub content_length : Option ℕ
  pub saw_host : Bool

abbrev pub default_headers : Headers
default_headers = record { count = 0; content_length = none; saw_host = false }

abbrev after_colon : Option (Text × Text) → Text
after_colon none = []
after_colon (some (name, rest)) = rest

-- `saw_host` of `Headers::with`
unfoldable pub host_of : Bool → Text → Result Reject Bool
unfolding trim split_once starts_with to_ascii_lowercase
host_of saw_host line =
    if starts_with (codes "host:") (to_ascii_lowercase line)
    then (if is_empty (trim (after_colon (split_once b':' line))) then err invalid else ok true)
    else ok saw_host

abbrev or_max : Option ℕ → ℕ
or_max none = u64_max
or_max (some n) = n

abbrev differs : Option ℕ → ℕ → Bool
differs none parsed = false
differs (some previous) parsed = not (previous == parsed)

-- `content_length` of `Headers::with`
unfoldable pub content_length_of : Option ℕ → Option Text → Result Reject (Option ℕ)
unfolding trim
content_length_of previous none = ok previous
content_length_of previous (some rest) =
    let parsed = or_max (parse_u64 (trim rest)) in
    if differs previous parsed then err invalid else ok (some parsed)

unfoldable pub with_line : Headers → Text → Result Reject Headers
with_line h line = do
  reject_if (contains_char 0 line || not (contains_char b':' line)) invalid
  reject_if (ltb max_headers (h.count + 1)) header_too_large
  saw_host ← host_of h.saw_host line
  let lower = to_ascii_lowercase line
  reject_if (starts_with (codes "expect:") lower || starts_with (codes "transfer-encoding:") lower)
      body_not_allowed
  content_length ← content_length_of h.content_length (strip_prefix (codes "content-length:") lower)
  ok (record { count = h.count + 1; content_length = content_length; saw_host = saw_host })

abbrev pub Lines : Type 0
Lines = List (Result Text Text)

abbrev pub is_blank : Text → Bool
is_blank line = line ≟ codes "\r\n" || line ≟ codes "\n"

-- `header_lines` under `try_fold`
unfoldable pub read_headers : Headers → Lines → Result Reject Headers
read_headers h [] = ok h
read_headers h (err e ∷ lines) = err invalid
read_headers h (ok line ∷ lines) =
    let next = with_line h line >>= λ h'. read_headers h' lines in
    if is_empty line
    then ok h
    else if ltb max_header_line (byte_len line)
    then err header_too_large
    else if is_blank line
    then ok h
    else next

abbrev or_zero : Option ℕ → ℕ
or_zero none = 0
or_zero (some n) = n

abbrev is_accepted : Request → Bool
is_accepted (accepted m r) = true
is_accepted (rejected e) = false

-- From the headers on, in `read_request`.
unfoldable pub with_headers : Bool → Request → Result Reject Headers → Request
with_headers http11 classified (err e) = rejected e
with_headers http11 classified (ok h) =
    if is_accepted classified && http11 && not h.saw_host
    then rejected invalid
    else if ltb 0 (or_zero h.content_length)
    then rejected body_not_allowed
    else classified

unfoldable pub read_request : Lines → Request
read_request [] = rejected invalid
read_request (err e ∷ lines) = rejected invalid
read_request (ok line ∷ lines) =
    if is_empty line
    then rejected invalid
    else if ltb max_request_line (byte_len line)
    then rejected line_too_long
    else with_headers (contains_text (codes "HTTP/1.1") line) (classify_request_line line)
        (read_headers default_headers lines)
