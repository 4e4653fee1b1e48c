-- ===== src/Control.antt =====
-- One request on a Unix socket, as src/process_lifecycle_runtime/product_control.rs and
-- src/process_lifecycle_runtime/host_control.rs make it: the two differ in their errors and in the
-- bound of the response. The kernel's answers to the calls on a socket are a parameter.
pub mod Frames
use ores_otel_sidecar_rs.Prelude.{
  ℕ, Bool, true, false, not, ◌||◌, Option, none, some, List, [], ◌∷◌, ◌++◌, ltb, ◌==◌, ◌≟◌,
  if◌then◌else◌, Result, ok, err, ◌>>=◌, ◌>>◌, reject_if, map_err, Text, text_eq, is_empty, length,
  any,
}
use ores_otel_sidecar_rs.Strings.{trim}
use ores_otel_sidecar_rs.Strings.Decode.{from_utf8}
use ores_otel_sidecar_rs.RuntimeError.{LifecycleRuntimeError}

-- What the calls answer: `reads` are the results of `read`, of which one with no byte is the end,
-- as is the end of the list.
pub record Socket : Type 0 where
  pub connect : Result Text (Unit {0})
  pub set_read_timeout : Result Text (Unit {0})
  pub set_write_timeout : Result Text (Unit {0})
  pub write_all : List ℕ → Result Text (Unit {0})
  pub shutdown : Result Text (Unit {0})
  pub reads : List (Result Text (List ℕ))

-- The errors and the bound of one client.
pub record Terms : Type 0 where
  pub unavailable : LifecycleRuntimeError
  pub too_large : LifecycleRuntimeError
  pub invalid_response : LifecycleRuntimeError
  pub maximum : ℕ

abbrev pub Answer : Type 0 → Type 0
Answer = Result LifecycleRuntimeError

-- `bytes.last() == Some(&b'\n')`
unfoldable pub ends_in_newline : List ℕ → Bool
ends_in_newline [] = false
ends_in_newline (b ∷ []) = b == b'\n'
ends_in_newline (b ∷ c ∷ bs) = ends_in_newline (c ∷ bs)

-- `&bytes[..bytes.len() - 1]`
unfoldable pub without_last_byte : List ℕ → List ℕ
without_last_byte [] = []
without_last_byte (b ∷ []) = []
without_last_byte (b ∷ c ∷ bs) = b ∷ without_last_byte (c ∷ bs)

abbrev pub is_line_break : ℕ → Bool
is_line_break b = b == b'\n' || b == b'\r'

abbrev utf8_or : LifecycleRuntimeError → Option Text → Answer Text
utf8_or e none = err e
utf8_or e (some text) = ok text

module _ (t : Terms) where
  unfoldable pub finish_response : List ℕ → Answer Text
  unfolding ends_in_newline without_last_byte from_utf8 trim
  finish_response bytes = do
    reject_if (is_empty bytes || not (ends_in_newline bytes)) t.invalid_response
    let line = without_last_byte bytes
    reject_if (is_empty line || any is_line_break line) t.invalid_response
    text ← utf8_or t.invalid_response (from_utf8 line)
    reject_if (not (trim text ≟ text)) t.invalid_response
    ok text

  unfoldable pub read_response : List (Result Text (List ℕ)) → List ℕ → Answer Text
  unfolding finish_response
  read_response [] bytes = finish_response bytes
  read_response (err e ∷ reads) bytes = err t.unavailable
  read_response (ok chunk ∷ reads) bytes =
      let rest = read_response reads (bytes ++ chunk) in
      if is_empty chunk
      then finish_response bytes
      else if ltb t.maximum (length (bytes ++ chunk))
      then err t.too_large
      else rest

  abbrev lost : Result Text (Unit {0}) → Answer (Unit {0})
  lost = map_err (λ _. t.unavailable)

  unfoldable pub configure_timeouts : Socket → Answer (Unit {0})
  configure_timeouts s = do lost s.set_read_timeout; lost s.set_write_timeout; ok tt

  unfoldable pub write_request : Socket → List ℕ → Answer Text
  unfolding read_response
  write_request s request = do lost (s.write_all request); lost s.shutdown; read_response s.reads []

  -- From the connection on, in `request`.
  unfoldable pub exchange : Socket → List ℕ → Answer Text
  unfolding configure_timeouts write_request
  exchange s request = do lost s.connect; configure_timeouts s; write_request s request
