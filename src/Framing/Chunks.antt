-- ===== src/Framing/Chunks.antt =====
-- The bytes that `receive_data` of src/receiver.rs reads, whatever the chunks.
use ores_otel_sidecar_rs.Prelude.{
  ℕ, zero, suc, ◌+◌, ◌-◌, ◌≤◌, ◌<◌, ◌≡◌, refl, List, [], ◌∷◌, ◌++◌, ok, err, arith, length,
  length-append, append-nil, append_assoc, take, drop, ap,
}
use ores_otel_sidecar_rs.Stream.{Fill, chunk, broken, Reader, Flows, incoming, content}
use ores_otel_sidecar_rs.Framing.{truncated_data, Data, data_turn, data_loop, start_data, read_data}

module _ {A : Type 0} where
  take-append_le : (n : ℕ) (xs t : List A) → n ≤ length xs → take n (xs ++ t) ≡ take n xs
  take-append_le zero xs t h = refl
  take-append_le (suc n) [] t h = absurd (omega arith)
  take-append_le (suc n) (x ∷ xs) t h = ground (arith, take-append_le n xs t)

  drop-append_le : (n : ℕ) (xs t : List A) → n ≤ length xs → drop n (xs ++ t) ≡ drop n xs ++ t
  drop-append_le zero xs t h = refl
  drop-append_le (suc n) [] t h = absurd (omega arith)
  drop-append_le (suc n) (x ∷ xs) t h = drop-append_le n xs t (omega arith)

  take-append_ge :
      (n : ℕ) (xs t : List A) → length xs ≤ n → take n (xs ++ t) ≡ xs ++ take (n - length xs) t
  take-append_ge n [] t h = ground arith
  take-append_ge zero (x ∷ xs) t h = absurd (omega arith)
  take-append_ge (suc n) (x ∷ xs) t h = ground (arith, take-append_ge n xs t)

  drop-append_ge :
      (n : ℕ) (xs t : List A) → length xs ≤ n → drop n (xs ++ t) ≡ drop (n - length xs) t
  drop-append_ge n [] t h = ground arith
  drop-append_ge zero (x ∷ xs) t h = absurd (omega arith)
  drop-append_ge (suc n) (x ∷ xs) t h = ground (arith, drop-append_ge n xs t)

-- After `got`, with `need` bytes missing: they are read, and the stream goes on behind them; or the
-- stream ends before.
pub record IsDataRead (expected : ℕ) (got : List ℕ) (need : ℕ) (s : List ℕ) (r : Data)
    (after : Reader) : Type 0 where
  pub whole : need ≤ length s → (r ≡ ok (got ++ take need s)) × (content after ≡ drop need s)
  pub short : length s < need → r ≡ err (truncated_data expected (length got + length s))

module _ (expected : ℕ) where
  refilled :
      (got : List ℕ) (need b : ℕ) (bs : List ℕ) (c : ℕ) (cs : List ℕ) (src : List Fill)
      → ((g : List ℕ) (n : ℕ)
          → let (r, after) = data_loop expected g n (c ∷ cs) src in
            IsDataRead expected g n ((c ∷ cs) ++ incoming src) r after)
      → let (r, after) = data_loop expected got need (b ∷ bs) (chunk (c ∷ cs) ∷ src) in
        IsDataRead expected got need ((b ∷ bs) ++ ((c ∷ cs) ++ incoming src)) r after
  unfolding data_loop data_turn
  refilled got need b bs c cs src ih =
      let t = (c ∷ cs) ++ incoming src in
      let i = ih (got ++ (b ∷ bs)) (need - length (b ∷ bs)) in
      ground (
        arith,
        i.whole,
        i.short,
        length-append (b ∷ bs) t,
        length-append got (b ∷ bs),
        take-append_le need (b ∷ bs) t,
        drop-append_le need (b ∷ bs) t,
        take-append_ge need (b ∷ bs) t,
        drop-append_ge need (b ∷ bs) t,
        append_assoc got (b ∷ bs) (take (need - length (b ∷ bs)) t),
      )

  data_loop-IsDataRead :
      (src : List Fill) (got : List ℕ) (need b : ℕ) (bs : List ℕ)
      → Flows src
      → let (r, after) = data_loop expected got need (b ∷ bs) src in
        IsDataRead expected got need ((b ∷ bs) ++ incoming src) r after
  unfolding data_loop data_turn
  data_loop-IsDataRead [] got need b bs f =
      ground
        (arith, append-nil (b ∷ bs), append-nil (drop need (b ∷ bs)), length-append got (b ∷ bs))
  data_loop-IsDataRead (chunk [] ∷ src) got need b bs f = absurd f
  data_loop-IsDataRead (chunk (c ∷ cs) ∷ src) got need b bs f =
      refilled got need b bs c cs src λ g n. data_loop-IsDataRead src g n c cs f
  data_loop-IsDataRead (broken e ∷ src) got need b bs f = absurd f

start_data-IsDataRead :
    (n : ℕ) (buffer : List ℕ) (src : List Fill)
    → Flows src
    → let (r, after) = start_data (suc n) buffer src in
      IsDataRead (suc n) [] (suc n) (buffer ++ incoming src) r after
unfolding start_data data_loop data_turn
start_data-IsDataRead n (b ∷ bs) src f = data_loop-IsDataRead (suc n) src [] (suc n) b bs f
start_data-IsDataRead n [] [] f = ground arith
start_data-IsDataRead n [] (chunk [] ∷ src) f = absurd f
start_data-IsDataRead n [] (chunk (c ∷ cs) ∷ src) f =
    data_loop-IsDataRead (suc n) src [] (suc n) c cs f
start_data-IsDataRead n [] (broken e ∷ src) f = absurd f

-- From a stream without errors, whatever the sizes of its chunks: exactly the bytes asked for are
-- read, and the stream goes on right behind them; or, if the stream has fewer, the error counts
-- them.
pub read_data-IsDataRead :
    (reader : Reader) (n : ℕ)
    → Flows reader.source
    → let (r, after) = read_data reader n in IsDataRead n [] n (content reader) r after
unfolding read_data
read_data-IsDataRead reader zero f = ground arith
read_data-IsDataRead reader (suc n) f = start_data-IsDataRead n reader.buffer reader.source f

length-take : {A : Type 0} → (n : ℕ) (xs : List A) → n ≤ length xs → length (take n xs) ≡ n
length-take zero xs h = refl
length-take (suc n) [] h = absurd (omega arith)
length-take (suc n) (x ∷ xs) h = ap suc (length-take n xs (omega arith))

length-data_loop :
    (expected : ℕ) (src : List Fill) (got : List ℕ) (need : ℕ) (available raw : List ℕ)
    → (data_loop expected got need available src).0 ≡ ok raw
    → length raw ≡ length got + need
unfolding data_loop data_turn
length-data_loop expected [] got need [] raw h = ground arith
length-data_loop expected [] got need (b ∷ bs) raw h =
    ground (arith, length-append got (take need (b ∷ bs)), length-take need (b ∷ bs))
length-data_loop expected (broken e ∷ src) got need [] raw h = ground arith
length-data_loop expected (broken e ∷ src) got need (b ∷ bs) raw h =
    ground (arith, length-append got (take need (b ∷ bs)), length-take need (b ∷ bs))
length-data_loop expected (chunk c ∷ src) got need [] raw h = ground arith
length-data_loop expected (chunk c ∷ src) got need (b ∷ bs) raw h = ground (
  arith,
  length-append got (take need (b ∷ bs)),
  length-append got (b ∷ bs),
  length-take need (b ∷ bs),
  length-data_loop expected src (got ++ (b ∷ bs)) (need - length (b ∷ bs)) c raw,
)

length-start_data :
    (n : ℕ) (buffer : List ℕ) (src : List Fill) (raw : List ℕ)
    → (start_data n buffer src).0 ≡ ok raw
    → length raw ≡ n
unfolding start_data
length-start_data n (b ∷ bs) src raw h = omega (arith, length-data_loop n src [] n (b ∷ bs) raw h)
length-start_data n [] [] raw h = omega (arith, length-data_loop n [] [] n [] raw h)
length-start_data n [] (chunk c ∷ src) raw h = omega (arith, length-data_loop n src [] n c raw h)
length-start_data n [] (broken e ∷ src) raw h = cc

-- From any stream, errors included, data that is read has the length asked for.
pub length-read_data :
    (reader : Reader) (n : ℕ) (raw : List ℕ) → (read_data reader n).0 ≡ ok raw → length raw ≡ n
unfolding read_data
length-read_data reader zero raw h = ground arith
length-read_data reader (suc n) raw h = length-start_data (suc n) reader.buffer reader.source raw h
