-- ===== src/Framing.antt =====
-- The two loops of src/receiver.rs over a stream: up to a bounded line, and for a number of bytes.
pub mod Lines
pub mod Chunks
pub mod Progress
use ores_otel_sidecar_rs.Prelude.{
  ℕ, zero, suc, ◌+◌, ◌-◌, Bool, ◌&&◌, ◌||◌, Option, none, some, List, [], ◌∷◌, ◌++◌, ltb, leb, ◌==◌,
  if◌then◌else◌, saturating_add, Result, ok, err, Text, length, is_empty, take, drop, position,
}
use ores_otel_sidecar_rs.Stream.{Fill, chunk, broken, Reader}

pub data ReceiverError : Type 0 where
  io : Text → ReceiverError
  metadata_too_large truncated_metadata invalid_metadata missing_schema_version
        invalid_byte_length :
      ReceiverError
  data_chunk_too_large : (requested maximum : ℕ) → ReceiverError
  truncated_data : (expected received : ℕ) → ReceiverError

abbrev pub is_newline : ℕ → Bool
is_newline b = b == b'\n'

-- Popping line ends from the back.
unfoldable pub trim_line : List ℕ → List ℕ
trim_line [] = []
trim_line (b ∷ bs) =
    let rest = trim_line bs in if is_empty rest && (b == b'\n' || b == b'\r') then [] else b ∷ rest

abbrev pub Line : Type 0
Line = Result ReceiverError (Option (List ℕ))

-- One turn of a loop on the bytes that are available: its result, with what is left of them, or
-- all of them are taken and it goes on.
pub data Turn (A B : Type 0) : Type 0 where
  done : A → List ℕ → Turn A B
  again : B → Turn A B

-- Where no byte is available.
unfoldable pub end_of_line : List ℕ → Line
end_of_line line = if is_empty line then ok none else err truncated_metadata

-- From `position` on, with `take` bytes to take.
unfoldable pub line_taken : ℕ → List ℕ → List ℕ → Option ℕ → Turn Line (List ℕ)
unfolding trim_line
line_taken maximum line available (some p) =
    if ltb maximum (saturating_add (length line) (suc p))
    then done (err metadata_too_large) available
    else done (ok (some (trim_line (line ++ take (suc p) available)))) (drop (suc p) available)
line_taken maximum line available none =
    if ltb maximum (saturating_add (length line) (length available))
    then done (err metadata_too_large) available
    else again (line ++ available)

-- The body of the loop of `read_bounded_line`.
unfoldable pub line_turn : ℕ → List ℕ → List ℕ → Turn Line (List ℕ)
unfolding line_taken end_of_line
line_turn maximum line [] = done (end_of_line line) []
line_turn maximum line (b ∷ bs) = line_taken maximum line (b ∷ bs) (position is_newline (b ∷ bs))

unfoldable pub line_loop : ℕ → List ℕ → List ℕ → List Fill → Line × Reader
unfolding line_turn end_of_line
line_loop maximum line available [] = elim (line_turn maximum line available) [
  | done r rest ↦ (r, record { buffer = rest; source = [] })
  | again l ↦ (end_of_line l, record { buffer = []; source = [] })
]
line_loop maximum line available (chunk bs ∷ src) =
    let next = λ (l : List ℕ). line_loop maximum l bs src in
    elim (line_turn maximum line available) [
      | done r rest ↦ (r, record { buffer = rest; source = chunk bs ∷ src })
      | again l ↦ next l
    ]
line_loop maximum line available (broken e ∷ src) = elim (line_turn maximum line available) [
  | done r rest ↦ (r, record { buffer = rest; source = broken e ∷ src })
  | again l ↦ (err (io e), record { buffer = []; source = src })
]

-- `fill_buf` reads the source only if the buffer is empty.
unfoldable pub start_line : ℕ → List ℕ → List Fill → Line × Reader
unfolding line_loop
start_line maximum (b ∷ bs) src = line_loop maximum [] (b ∷ bs) src
start_line maximum [] [] = line_loop maximum [] [] []
start_line maximum [] (chunk bs ∷ src) = line_loop maximum [] bs src
start_line maximum [] (broken e ∷ src) = (err (io e), record { buffer = []; source = src })

unfoldable pub read_bounded_line : Reader → ℕ → Line × Reader
unfolding start_line
read_bounded_line r maximum = start_line maximum r.buffer r.source

abbrev pub Data : Type 0
Data = Result ReceiverError (List ℕ)

-- The body of the loop of `receive_data`, with `need` bytes missing.
unfoldable pub data_turn : ℕ → List ℕ → ℕ → List ℕ → Turn Data (List ℕ × ℕ)
data_turn expected got need [] = done (err (truncated_data expected (length got))) []
data_turn expected got need (b ∷ bs) =
    if leb need (length (b ∷ bs))
    then done (ok (got ++ take need (b ∷ bs))) (drop need (b ∷ bs))
    else again (got ++ b ∷ bs, need - length (b ∷ bs))

unfoldable pub data_loop : ℕ → List ℕ → ℕ → List ℕ → List Fill → Data × Reader
unfolding data_turn
data_loop expected got need available [] = elim (data_turn expected got need available) [
  | done r rest ↦ (r, record { buffer = rest; source = [] })
  | again (d, n) ↦ (err (truncated_data expected (length d)), record { buffer = []; source = [] })
]
data_loop expected got need available (chunk bs ∷ src) =
    let next = λ (d : List ℕ) (n : ℕ). data_loop expected d n bs src in
    elim (data_turn expected got need available) [
      | done r rest ↦ (r, record { buffer = rest; source = chunk bs ∷ src })
      | again (d, n) ↦ next d n
    ]
data_loop expected got need available (broken e ∷ src) =
    elim (data_turn expected got need available) [
      | done r rest ↦ (r, record { buffer = rest; source = broken e ∷ src })
      | again dn ↦ (err (io e), record { buffer = []; source = src })
    ]

unfoldable pub start_data : ℕ → List ℕ → List Fill → Data × Reader
unfolding data_loop
start_data n (b ∷ bs) src = data_loop n [] n (b ∷ bs) src
start_data n [] [] = data_loop n [] n [] []
start_data n [] (chunk bs ∷ src) = data_loop n [] n bs src
start_data n [] (broken e ∷ src) = (err (io e), record { buffer = []; source = src })

-- From the allocation on, in `receive_data`. No read is made for no bytes.
unfoldable pub read_data : Reader → ℕ → Data × Reader
unfolding start_data
read_data r zero = (ok [], r)
read_data r (suc n) = start_data (suc n) r.buffer r.source
