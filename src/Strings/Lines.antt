-- ===== src/Strings/Lines.antt =====
-- Lines, and fields of a line.
use ores_otel_sidecar_rs.Prelude.{
  ℕ, ◌≡◌, ◌≢◌, refl, some, [], ◌∷◌, ◌++◌, arith, append_assoc, append-nil, sym, ap, Text, All,
}
use ores_otel_sidecar_rs.Strings.{split_once, strip_cr, lines_from}

-- The character stands nowhere in the text.
abbrev pub Lacks : ℕ → Text → Type 0
Lacks c s = All (λ d. d ≢ c) s

pub split_once_first :
    (sep : ℕ) (a b : Text) → Lacks sep a → split_once sep (a ++ sep ∷ b) ≡ some (a, b)
unfolding split_once
split_once_first sep [] b h = ground arith
split_once_first sep (c ∷ a) b h = ground (arith, split_once_first sep a b)

pub strip_cr-Lacks : (s : Text) → Lacks b'\r' s → strip_cr s ≡ s
unfolding strip_cr
strip_cr-Lacks [] h = refl
strip_cr-Lacks (c ∷ s) h = ground (arith, strip_cr-Lacks s)

pub lines_from_line :
    (line s rest : Text)
    → Lacks b'\n' s
    → lines_from line (s ++ b'\n' ∷ rest) ≡ strip_cr (line ++ s) ∷ lines_from [] rest
unfolding lines_from
lines_from_line line [] rest h = ap (λ l. strip_cr l ∷ lines_from [] rest) (sym (append-nil line))
lines_from_line line (c ∷ s) rest h =
    ground (arith, lines_from_line (line ++ c ∷ []) s rest, append_assoc line (c ∷ []) s)
