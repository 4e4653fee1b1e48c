-- ===== src/Scenarios/Requests.antt =====
-- A probe's request, and texts in bytes.
use ores_otel_sidecar_rs.Prelude.{
  ◌≡◌, refl, true, false, none, ok, some, [], ◌∷◌, Text-discrete, bytes, codes, strip_prefix,
}
use ores_otel_sidecar_rs.Strings.Decode.{from_utf8, decimal}
use ores_otel_sidecar_rs.Strings.{parse_unsigned, starts_with}
use ores_otel_sidecar_rs.Http.Response.{Probe, handle_connection}
use ores_otel_sidecar_rs.Http.{
  accepted, rejected, get, readyz, invalid, Lines, read_request, read_headers, with_headers,
  classify_request_line, with_line, host_of, content_length_of,
}
use ores_otel_sidecar_rs.Http.Admission.{IsAdmitted, read_request-IsAdmitted}

from_utf8_run : from_utf8 (0xE2 ∷ 0x82 ∷ 0xAC ∷ 0x41 ∷ []) ≡ some (0x20AC ∷ 0x41 ∷ [])
unfolding from_utf8
from_utf8_run = refl

decimal_run : decimal 300000 ≡ codes "300000"
unfolding decimal
decimal_run = refl

abbrev sample_headers : Lines
sample_headers =
    ok (codes "Host: probe\r\n") ∷ ok (codes "Content-Length: 0\r\n") ∷ ok (codes "\r\n") ∷ []

request_run :
    read_request (ok (codes "GET /ready HTTP/1.1\r\n") ∷ sample_headers) ≡ accepted get readyz
unfolding read_request read_headers with_headers classify_request_line with_line host_of
    content_length_of bytes Text-discrete strip_prefix parse_unsigned
request_run = refl

hostless_run :
    read_request (ok (codes "GET /ready HTTP/1.1\r\n") ∷ ok (codes "\r\n") ∷ []) ≡ rejected invalid
unfolding read_request read_headers with_headers classify_request_line bytes Text-discrete
hostless_run = refl

read_request-IsAdmitted_example :
    IsAdmitted (codes "GET /ready HTTP/1.1\r\n") sample_headers get readyz
read_request-IsAdmitted_example =
    read_request-IsAdmitted (codes "GET /ready HTTP/1.1\r\n") sample_headers get readyz request_run

abbrev sample_probe : Probe
sample_probe = record {
  ready = false;
  service = codes "s";
  health_json = none;
  readiness_json = none;
  prometheus_text = [];
}

head_run :
    starts_with
      (codes
        "HTTP/1.1 503 Service Unavailable\r\ncontent-type: application/json\r\ncontent-length: 0\r\n")
      (handle_connection (ok (codes "HEAD /ready HTTP/1.0\r\n") ∷ []) sample_probe)
    ≡ true
unfolding handle_connection starts_with read_headers with_headers classify_request_line bytes
    Text-discrete
head_run = refl
