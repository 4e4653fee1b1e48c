-- ===== src/Http/Response.antt =====
-- The responses of src/http.rs. What the probe, the serializer and the metrics collectors answer is
-- a parameter.
use ores_otel_sidecar_rs.Prelude.{
  ℕ, Bool, true, false, Option, none, some, ◌++◌, ◌==◌, if◌then◌else◌, Text, codes, byte_len,
}
use ores_otel_sidecar_rs.Strings.Decode.{decimal}
use ores_otel_sidecar_rs.Http.{
  get, head, healthz, readyz, metrics, method_not_allowed, not_found, line_too_long,
  header_too_large, body_not_allowed, invalid, Request, accepted, rejected, Lines, read_request,
}

-- The texts are `none` where `serde_json::to_string` fails.
pub record Probe : Type 0 where
  pub ready : Bool
  pub service : Text
  pub health_json : Option Text
  pub readiness_json : Option Text
  pub prometheus_text : Text

unfoldable status_line : ℕ → Text
status_line code =
    if code == 200
    then codes "200 OK"
    else if code == 405
    then codes "405 Method Not Allowed"
    else if code == 404
    then codes "404 Not Found"
    else if code == 400
    then codes "400 Bad Request"
    else if code == 413
    then codes "413 Payload Too Large"
    else if code == 431
    then codes "431 Request Header Fields Too Large"
    else if code == 503
    then codes "503 Service Unavailable"
    else codes "500 Internal Server Error"

pub record Response : Type 0 where
  pub code : ℕ
  pub content_type : Text
  pub body : Text

abbrev plain : ℕ → Text → Response
plain code body = record {
  code = code;
  content_type = codes "text/plain; charset=utf-8";
  body = body;
}

abbrev or_not_ok : Option Text → Text
or_not_ok none = codes "{\"ok\":false}"
or_not_ok (some text) = text

abbrev json : ℕ → Option Text → Response
json code text = record {
  code = code;
  content_type = codes "application/json";
  body = or_not_ok text ++ codes "\n";
}

unfoldable metrics_body : Probe → Text
metrics_body p =
    codes "# HELP ores_otel_sidecar_up Whether the sidecar probe listener is serving.\n"
    ++ codes "# TYPE ores_otel_sidecar_up gauge\n"
    ++ codes "ores_otel_sidecar_up{service=\""
    ++ p.service
    ++ codes "\"} 1\n"
    ++ p.prometheus_text

unfoldable response_for : Request → Probe → Response
unfolding metrics_body
response_for (rejected method_not_allowed) p = plain 405 (codes "method not allowed\n")
response_for (rejected not_found) p = plain 404 (codes "not found\n")
response_for (rejected line_too_long) p = plain 431 (codes "request too large\n")
response_for (rejected header_too_large) p = plain 431 (codes "request too large\n")
response_for (rejected body_not_allowed) p = plain 400 (codes "request body not allowed\n")
response_for (rejected invalid) p = plain 400 (codes "bad request\n")
response_for (accepted m healthz) p = json 200 p.health_json
response_for (accepted m readyz) p = json (if p.ready then 200 else 503) p.readiness_json
response_for (accepted m metrics) p = record {
  code = 200;
  content_type = codes "text/plain; version=0.0.4";
  body = metrics_body p;
}

-- The text that is written.
unfoldable write_http : Response → Bool → Text
unfolding status_line decimal
write_http r head_only =
    codes "HTTP/1.1 "
    ++ status_line r.code
    ++ codes "\r\ncontent-type: "
    ++ r.content_type
    ++ codes "\r\ncontent-length: "
    ++ decimal (if head_only then 0 else byte_len r.body)
    ++ codes "\r\nconnection: close\r\ncache-control: no-store\r\nx-content-type-options: nosniff"
    ++ codes "\r\nx-frame-options: DENY"
    ++ codes "\r\ncontent-security-policy: default-src 'none'; connect-src 'self'\r\n\r\n"
    ++ (if head_only then codes "" else r.body)

abbrev is_head : Request → Bool
is_head (accepted head r) = true
is_head (accepted get r) = false
is_head (rejected e) = false

unfoldable pub handle_connection : Lines → Probe → Text
unfolding read_request response_for write_http
handle_connection lines p =
    let request = read_request lines in write_http (response_for request p) (is_head request)
