-- ===== src/ProductControl.antt =====
-- src/process_lifecycle_runtime/product_control.rs and
-- src/adapters/process_lifecycle_product_control.rs: the client of the product's socket. Each
-- method is given the kernel's answers to its calls.
use ores_otel_sidecar_rs.Prelude.{
  ℕ, not, ◌||◌, Option, none, some, List, [], ◌∷◌, ◌++◌, ltb, ◌≟◌, if◌then◌else◌, Result, ok, err,
  ◌>>=◌, ◌>>◌, reject_if, map_err, Text, text_eq, codes, bytes,
}
use ores_otel_sidecar_rs.Strings.{split_ascii_whitespace, parse_u64}
use ores_otel_sidecar_rs.Strings.Decode.{decimal}
use ores_otel_sidecar_rs.Services.{ProductQuiesceOutcome, drained, demand_returned}
use ores_otel_sidecar_rs.RuntimeError.{
  product_control_unavailable, control_response_too_large, invalid_control_response,
  invalid_control_request, product_drain_timeout, product_demand_returned, product_lifecycle_busy,
  message,
}
use ores_otel_sidecar_rs.Control.{Socket, Terms, Answer, exchange}

abbrev max_control_response_bytes : ℕ
max_control_response_bytes = 1024

pub data CooperativeAdmission : Type 0 where
  accepting quiescing sealed unavailable : CooperativeAdmission

pub record CooperativeProductStatus : Type 0 where
  pub admission : CooperativeAdmission
  pub in_flight : ℕ
  pub queue_depth : ℕ
  pub idle_for_ms : ℕ

abbrev pub terms : Terms
terms = record {
  unavailable = product_control_unavailable;
  too_large = control_response_too_large;
  invalid_response = invalid_control_response;
  maximum = max_control_response_bytes;
}

unfoldable pub request : Socket → List ℕ → Answer Text
unfolding exchange
request s bytes = exchange terms s bytes

unfoldable parse_admission : Text → Answer CooperativeAdmission
parse_admission value =
    if value ≟ codes "accepting"
    then ok accepting
    else if value ≟ codes "quiescing"
    then ok quiescing
    else if value ≟ codes "sealed"
    then ok sealed
    else if value ≟ codes "unavailable"
    then ok unavailable
    else err invalid_control_response

-- The greatest `i64`
abbrev pub i64_max : ℕ
i64_max = 9223372036854775807

abbrev counter_of : Option ℕ → Answer ℕ
counter_of none = err invalid_control_response
counter_of (some parsed) = if ltb i64_max parsed then err invalid_control_response else ok parsed

unfoldable parse_bounded_counter : Text → Answer ℕ
parse_bounded_counter value = counter_of (parse_u64 value)

-- From the words of the response on, in `parse_status_response`.
unfoldable parse_status_words : List Text → Answer CooperativeProductStatus
unfolding parse_admission parse_bounded_counter
parse_status_words (a ∷ b ∷ c ∷ d ∷ e ∷ f ∷ []) = do
  reject_if (not (a ≟ codes "ok") || not (b ≟ codes "status")) invalid_control_response
  admission ← parse_admission c
  in_flight ← parse_bounded_counter d
  queue_depth ← parse_bounded_counter e
  idle_for_ms ← parse_bounded_counter f
  ok (record {
    admission = admission;
    in_flight = in_flight;
    queue_depth = queue_depth;
    idle_for_ms = idle_for_ms;
  })
parse_status_words _ = err invalid_control_response

unfoldable parse_status_response : Text → Answer CooperativeProductStatus
unfolding parse_status_words split_ascii_whitespace
parse_status_response response = parse_status_words (split_ascii_whitespace response)

unfoldable pub status : Socket → Answer CooperativeProductStatus
unfolding request parse_status_response
status s = request s (bytes (codes "v1 status\n")) >>= parse_status_response

abbrev max_quiesce_ms : ℕ
max_quiesce_ms = 300000

-- From the response on, in `quiesce`.
unfoldable quiesce_answer : Text → Answer (Unit {0})
quiesce_answer response =
    if response ≟ codes "ok sealed"
    then ok tt
    else if response ≟ codes "error drain_timeout"
    then err product_drain_timeout
    else if response ≟ codes "error demand_returned"
    then err product_demand_returned
    else if response ≟ codes "error lifecycle_busy"
    then err product_lifecycle_busy
    else err invalid_control_response

unfoldable pub quiesce : Socket → ℕ → Answer (Unit {0})
unfolding request quiesce_answer decimal
quiesce s timeout_ms = do
  reject_if (ltb max_quiesce_ms timeout_ms) invalid_control_request
  response ← request s (bytes (codes "v1 quiesce " ++ decimal timeout_ms ++ codes "\n"))
  quiesce_answer response

unfoldable resume_answer : Text → Answer (Unit {0})
resume_answer response =
    if response ≟ codes "ok running" then ok tt else err invalid_control_response

unfoldable resume : Socket → Answer (Unit {0})
unfolding request resume_answer
resume s = request s (bytes (codes "v1 resume\n")) >>= resume_answer

abbrev quiesce_timeout_ms : ℕ
quiesce_timeout_ms = 30000

unfoldable map_quiesce_result : Answer (Unit {0}) → Result Text ProductQuiesceOutcome
unfolding message
map_quiesce_result (ok _) = ok drained
map_quiesce_result (err product_demand_returned) = ok demand_returned
map_quiesce_result (err e) = err (message e)

-- The methods of `ProductLifecycleControl`.
unfoldable pub product_quiesce : Socket → Result Text ProductQuiesceOutcome
unfolding map_quiesce_result quiesce
product_quiesce s = map_quiesce_result (quiesce s quiesce_timeout_ms)

unfoldable product_cancel_quiesce : Socket → Result Text (Unit {0})
unfolding resume message
product_cancel_quiesce s = map_err message (resume s)
