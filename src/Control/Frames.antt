-- ===== src/Control/Frames.antt =====
-- The responses that are accepted from a socket.
use ores_otel_sidecar_rs.Prelude.{
  ℕ, ◌≤◌, ◌≡◌, ◌≢◌, refl, sym, subst, arith, true, false, Option, none, some, List, [], ◌∷◌, ◌++◌,
  append_assoc, append-nil, inl, inr, Bool-cases, Result, ok, err, Text, is_empty, length, any, ltb,
}
use ores_otel_sidecar_rs.Strings.{trim}
use ores_otel_sidecar_rs.Strings.Decode.{from_utf8}
use ores_otel_sidecar_rs.Control.{
  Terms, Socket, ends_in_newline, without_last_byte, is_line_break, finish_response, read_response,
  exchange, write_request, configure_timeouts,
}

abbrev before : List ℕ → Option (List ℕ) → Option (List ℕ)
before chunk none = none
before chunk (some rest) = some (chunk ++ rest)

-- The reference: all that is read up to the end of the stream, if no read fails.
unfoldable pub received : List (Result Text (List ℕ)) → Option (List ℕ)
received [] = some []
received (err e ∷ reads) = none
received (ok [] ∷ reads) = some []
received (ok (b ∷ bs) ∷ reads) = before (b ∷ bs) (received reads)

-- One line with its newline, which is the text.
pub record IsLine (bytes : List ℕ) (text : Text) : Type 0 where
  pub line : List ℕ
  pub ended : bytes ≡ line ++ b'\n' ∷ []
  pub full : line ≢ []
  pub single : any is_line_break line ≡ false
  pub decoded : from_utf8 line ≡ some text
  pub trimmed : trim text ≡ text

newline_last : (bs : List ℕ) → ends_in_newline bs ≡ true → bs ≡ without_last_byte bs ++ b'\n' ∷ []
unfolding ends_in_newline without_last_byte
newline_last [] h = cc
newline_last (b ∷ []) h = ground arith
newline_last (b ∷ c ∷ bs) h = ground (arith, newline_last (c ∷ bs))

module _ (t : Terms) where
  record Fields (bytes : List ℕ) (text : Text) : Type 0 where
    ended : ends_in_newline bytes ≡ true
    full : is_empty (without_last_byte bytes) ≡ false
    single : any is_line_break (without_last_byte bytes) ≡ false
    decoded : from_utf8 (without_last_byte bytes) ≡ some text
    trimmed : trim text ≡ text

  finish_response-Fields :
      (bytes : List ℕ) (text : Text) → finish_response t bytes ≡ ok text → Fields bytes text
  unfolding finish_response
  finish_response-Fields bytes text h = ground arith

  finish_response-IsLine :
      (bytes : List ℕ) (text : Text) → finish_response t bytes ≡ ok text → IsLine bytes text
  finish_response-IsLine bytes text h =
      let fields = finish_response-Fields bytes text h in
      record {
        line = without_last_byte bytes;
        ended = newline_last bytes fields.ended;
        full = λ e. ground (arith, e, fields.full);
        single = fields.single;
        decoded = fields.decoded;
        trimmed = fields.trimmed;
      }

  record Finishes (bytes : List ℕ) (text : Text) : Type 0 where
    small : length bytes ≤ t.maximum
    finished : finish_response t bytes ≡ ok text

  abbrev Completes : List (Result Text (List ℕ)) → List ℕ → Text → Type 0
  Completes reads bytes text =
      (rest : List ℕ) × (received reads ≡ some rest) × Finishes (bytes ++ rest) text

  at_end : (bytes : List ℕ) (text : Text) → Finishes bytes text → Finishes (bytes ++ []) text
  at_end bytes text h = subst (λ bs. Finishes bs text) (sym (append-nil bytes)) h

  later :
      (b : ℕ) (bs : List ℕ) (reads : List (Result Text (List ℕ))) (bytes : List ℕ) (text : Text)
      → Completes reads (bytes ++ b ∷ bs) text
      → Completes (ok (b ∷ bs) ∷ reads) bytes text
  unfolding received
  later b bs reads bytes text (rest, all_read, h) = (
    b ∷ bs ++ rest,
    ground (arith, all_read),
    subst (λ all. Finishes all text) (append_assoc bytes (b ∷ bs) rest) h,
  )

  -- What was read before, and what the other reads bring.
  read_response-Completes :
      (reads : List (Result Text (List ℕ))) (bytes : List ℕ) (text : Text)
      → length bytes ≤ t.maximum
      → read_response t reads bytes ≡ ok text
      → Completes reads bytes text
  unfolding read_response received
  read_response-Completes [] bytes text small h =
      ([], refl, at_end bytes text (record { small = small; finished = h }))
  read_response-Completes (err e ∷ reads) bytes text small h = cc
  read_response-Completes (ok [] ∷ reads) bytes text small h =
      ([], refl, at_end bytes text (record { small = small; finished = h }))
  read_response-Completes (ok (b ∷ bs) ∷ reads) bytes text small h =
      elim (Bool-cases (ltb t.maximum (length (bytes ++ b ∷ bs)))) [
        | inl e ↦ ground (arith, e)
        | inr e ↦ later b bs reads bytes text (
            read_response-Completes reads (bytes ++ b ∷ bs) text (ground (arith, e))
              (ground (arith, e)))
      ]

  -- A response is accepted only if every read up to the end succeeds, and what they bring is within
  -- the bound and is one nonempty line with its newline, in UTF-8 and without blanks at its ends.
  pub exchange-IsLine :
      (s : Socket) (request : List ℕ) (text : Text)
      → exchange t s request ≡ ok text
      → (bytes : List ℕ) × (received s.reads ≡ some bytes)
        × (length bytes ≤ t.maximum)
        × IsLine bytes text
  unfolding exchange write_request configure_timeouts
  exchange-IsLine s request text h =
      let (bytes, all_read, done) =
        read_response-Completes s.reads [] text (ground arith) (ground (arith, h)) in
      (bytes, all_read, done.small, finish_response-IsLine bytes text done.finished)
