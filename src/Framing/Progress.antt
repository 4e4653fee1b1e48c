-- ===== src/Framing/Progress.antt =====
-- What the loops of src/receiver.rs leave of a stream.
use ores_otel_sidecar_rs.Prelude.{
  ℕ, zero, suc, ◌+◌, ◌≤◌, ◌<◌, ◌≡◌, Option, none, some, List, [], ◌∷◌, length, drop, ok, err, arith,
  position,
}
use ores_otel_sidecar_rs.Stream.{Fill, chunk, broken, Reader, Flows, reads_left, to_come}
use ores_otel_sidecar_rs.Framing.{
  io, is_newline, Line, Data, Turn, done, again, end_of_line, line_taken, line_turn, line_loop,
  start_line, read_bounded_line, data_turn, data_loop, start_data, read_data,
}

length-drop_le : (n : ℕ) (xs : List ℕ) → length (drop n xs) ≤ length xs
length-drop_le zero xs = omega arith
length-drop_le (suc n) [] = omega arith
length-drop_le (suc n) (x ∷ xs) = omega (arith, length-drop_le n xs)

-- A turn that finds a line takes a byte at least.
abbrev Takes : List ℕ → Turn Line (List ℕ) → Type 0
Takes available (done r rest) = (l : List ℕ) → r ≡ ok (some l) → length rest < length available
Takes available (again l) = Unit

line_turn-Takes :
    (maximum : ℕ) (line available : List ℕ) → Takes available (line_turn maximum line available)
unfolding line_turn line_taken end_of_line
line_turn-Takes maximum line [] = ground arith
line_turn-Takes maximum line (b ∷ bs) = by_position (position is_newline (b ∷ bs))
  where
    by_position : (o : Option ℕ) → Takes (b ∷ bs) (line_taken maximum line (b ∷ bs) o)
    by_position none = ground arith
    by_position (some p) = ground (arith, length-drop_le p bs)

-- After a turn, whose `again` goes on with `next`.
abbrev turned : List Fill → (List ℕ → Line × Reader) → Turn Line (List ℕ) → Line × Reader
turned src next u = elim u as (λ _. Line × Reader) [
  | done r rest ↦ (r, record { buffer = rest; source = src })
  | again l ↦ next l
]

turned_shorter :
    (available : List ℕ) (src : List Fill) (next : List ℕ → Line × Reader) (l : List ℕ)
    (u : Turn Line (List ℕ))
    → Takes available u
    → ((k : List ℕ)
        → (next k).0 ≡ ok (some l)
        → to_come (next k).1 < length available + reads_left src)
    → (turned src next u).0 ≡ ok (some l)
    → to_come (turned src next u).1 < length available + reads_left src
unfolding to_come
turned_shorter available src next l (done r rest) takes later h = omega (arith, takes l h)
turned_shorter available src next l (again k) takes later h = later k h

end_of_line_none : {A : Type 0} (k l : List ℕ) → end_of_line k ≡ ok (some l) → A
unfolding end_of_line
end_of_line_none k l h = ground arith

line_loop_shorter :
    (maximum : ℕ) (line available : List ℕ) (src : List Fill) (l : List ℕ)
    → (line_loop maximum line available src).0 ≡ ok (some l)
    → to_come (line_loop maximum line available src).1 < length available + reads_left src
unfolding line_loop to_come reads_left
line_loop_shorter maximum line available [] l h =
    turned_shorter available [] (λ k. (end_of_line k, record { buffer = []; source = [] })) l
      (line_turn maximum line available) (line_turn-Takes maximum line available)
      (λ k. end_of_line_none k l) h
line_loop_shorter maximum line available (chunk bs ∷ src) l h =
    turned_shorter available (chunk bs ∷ src) (λ k. line_loop maximum k bs src) l
      (line_turn maximum line available) (line_turn-Takes maximum line available)
      (λ k e. omega (arith, line_loop_shorter maximum k bs src l e)) h
line_loop_shorter maximum line available (broken e ∷ src) l h =
    turned_shorter available (broken e ∷ src)
      (λ k. (err (io e), record { buffer = []; source = src })) l (line_turn maximum line available)
      (line_turn-Takes maximum line available) (λ k x. cc) h

start_line_shorter :
    (maximum : ℕ) (buffer : List ℕ) (src : List Fill) (l : List ℕ)
    → (start_line maximum buffer src).0 ≡ ok (some l)
    → to_come (start_line maximum buffer src).1 < length buffer + reads_left src
unfolding start_line reads_left
start_line_shorter maximum (b ∷ bs) src l h = line_loop_shorter maximum [] (b ∷ bs) src l h
start_line_shorter maximum [] [] l h = line_loop_shorter maximum [] [] [] l h
start_line_shorter maximum [] (chunk bs ∷ src) l h =
    omega (arith, line_loop_shorter maximum [] bs src l h)
start_line_shorter maximum [] (broken e ∷ src) l h = cc

-- From any stream, errors included, a line that is read leaves less of it to come.
pub to_come-read_bounded_line :
    (reader : Reader) (maximum : ℕ) (l : List ℕ)
    → (read_bounded_line reader maximum).0 ≡ ok (some l)
    → to_come (read_bounded_line reader maximum).1 < to_come reader
unfolding read_bounded_line to_come
to_come-read_bounded_line reader maximum l h =
    start_line_shorter maximum reader.buffer reader.source l h

turned-Flows :
    (src : List Fill) (next : List ℕ → Line × Reader) (u : Turn Line (List ℕ))
    → Flows src
    → ((k : List ℕ) → Flows (next k).1.source)
    → Flows (turned src next u).1.source
turned-Flows src next (done r rest) f later = f
turned-Flows src next (again k) f later = later k

line_loop-Flows :
    (maximum : ℕ) (line available : List ℕ) (src : List Fill)
    → Flows src
    → Flows (line_loop maximum line available src).1.source
unfolding line_loop
line_loop-Flows maximum line available [] f =
    turned-Flows [] (λ k. (end_of_line k, record { buffer = []; source = [] }))
      (line_turn maximum line available) f (λ k. tt)
line_loop-Flows maximum line available (chunk [] ∷ src) f = absurd f
line_loop-Flows maximum line available (chunk (c ∷ cs) ∷ src) f =
    turned-Flows (chunk (c ∷ cs) ∷ src) (λ k. line_loop maximum k (c ∷ cs) src)
      (line_turn maximum line available) f (λ k. line_loop-Flows maximum k (c ∷ cs) src f)
line_loop-Flows maximum line available (broken e ∷ src) f = absurd f

start_line-Flows :
    (maximum : ℕ) (buffer : List ℕ) (src : List Fill)
    → Flows src
    → Flows (start_line maximum buffer src).1.source
unfolding start_line
start_line-Flows maximum (b ∷ bs) src f = line_loop-Flows maximum [] (b ∷ bs) src f
start_line-Flows maximum [] [] f = line_loop-Flows maximum [] [] [] f
start_line-Flows maximum [] (chunk [] ∷ src) f = absurd f
start_line-Flows maximum [] (chunk (c ∷ cs) ∷ src) f = line_loop-Flows maximum [] (c ∷ cs) src f
start_line-Flows maximum [] (broken e ∷ src) f = absurd f

pub read_bounded_line-Flows :
    (reader : Reader) (maximum : ℕ)
    → Flows reader.source
    → Flows (read_bounded_line reader maximum).1.source
unfolding read_bounded_line
read_bounded_line-Flows reader maximum = start_line-Flows maximum reader.buffer reader.source

abbrev turned_data :
    List Fill → (List ℕ → ℕ → Data × Reader) → Turn Data (List ℕ × ℕ) → Data × Reader
turned_data src next u = elim u as (λ _. Data × Reader) [
  | done r rest ↦ (r, record { buffer = rest; source = src })
  | again (d, n) ↦ next d n
]

turned_data-Flows :
    (src : List Fill) (next : List ℕ → ℕ → Data × Reader) (u : Turn Data (List ℕ × ℕ))
    → Flows src
    → ((d : List ℕ) (n : ℕ) → Flows (next d n).1.source)
    → Flows (turned_data src next u).1.source
turned_data-Flows src next (done r rest) f later = f
turned_data-Flows src next (again (d, n)) f later = later d n

data_loop-Flows :
    (expected : ℕ) (src : List Fill) (got : List ℕ) (need : ℕ) (available : List ℕ)
    → Flows src
    → Flows (data_loop expected got need available src).1.source
unfolding data_loop
data_loop-Flows expected [] got need available f =
    turned_data-Flows [] _ (data_turn expected got need available) f (λ d n. tt)
data_loop-Flows expected (chunk [] ∷ src) got need available f = absurd f
data_loop-Flows expected (chunk (c ∷ cs) ∷ src) got need available f =
    turned_data-Flows (chunk (c ∷ cs) ∷ src) _ (data_turn expected got need available) f
      (λ d n. data_loop-Flows expected src d n (c ∷ cs) f)
data_loop-Flows expected (broken e ∷ src) got need available f = absurd f

start_data-Flows :
    (n : ℕ) (buffer : List ℕ) (src : List Fill)
    → Flows src
    → Flows (start_data n buffer src).1.source
unfolding start_data
start_data-Flows n (b ∷ bs) src f = data_loop-Flows n src [] n (b ∷ bs) f
start_data-Flows n [] [] f = data_loop-Flows n [] [] n [] f
start_data-Flows n [] (chunk [] ∷ src) f = absurd f
start_data-Flows n [] (chunk (c ∷ cs) ∷ src) f = data_loop-Flows n src [] n (c ∷ cs) f
start_data-Flows n [] (broken e ∷ src) f = absurd f

pub read_data-Flows :
    (reader : Reader) (n : ℕ) → Flows reader.source → Flows (read_data reader n).1.source
unfolding read_data
read_data-Flows reader zero f = f
read_data-Flows reader (suc n) f = start_data-Flows (suc n) reader.buffer reader.source f
