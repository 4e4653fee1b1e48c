-- ===== src/Stream.antt =====
-- The readers that src/receiver.rs takes: what `BufRead` and `Read` give it of a byte stream that
-- arrives in chunks of any sizes, with errors in between.
use ores_otel_sidecar_rs.Prelude.{Text, List, [], ◌∷◌, ◌++◌, ℕ, suc, ◌+◌, length}

-- What one read of the source delivers. An empty chunk, like the end of the list, is its end.
pub data Fill : Type 0 where
  chunk : List ℕ → Fill
  broken : Text → Fill

pub record Reader : Type 0 where
  pub buffer : List ℕ
  pub source : List Fill

-- No error, and no end before the last chunk.
abbrev pub Flows : List Fill → Type 0
Flows [] = Unit
Flows (chunk [] ∷ src) = ⊥
Flows (chunk (b ∷ bs) ∷ src) = Flows src
Flows (broken e ∷ src) = ⊥

-- All the bytes to come.
abbrev pub incoming : List Fill → List ℕ
incoming [] = []
incoming (chunk bs ∷ src) = bs ++ incoming src
incoming (broken e ∷ src) = incoming src

abbrev pub content : Reader → List ℕ
content r = r.buffer ++ incoming r.source

unfoldable pub reads_left : List Fill → ℕ
reads_left [] = 0
reads_left (chunk bs ∷ src) = suc (length bs + reads_left src)
reads_left (broken e ∷ src) = suc (reads_left src)

-- The bytes and the reads to come.
unfoldable pub to_come : Reader → ℕ
unfolding reads_left
to_come r = length r.buffer + reads_left r.source
