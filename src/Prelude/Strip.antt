-- ===== src/Prelude/Strip.antt =====
-- `strip_prefix` against concatenation.
use mathlib.Core.Path.{◌≡◌, refl}
use mathlib.Core.Logic.{◌↔◌}
use mathlib.Core.Option.{some}
use mathlib.Core.List.{[], ◌∷◌, ◌++◌}
use native.Mathlib.Omega.{arith}
use ores_otel_sidecar_rs.Prelude.Utf8.{Text, strip_prefix}

strip_prefix-append : (p raw : Text) → strip_prefix p (p ++ raw) ≡ some raw
unfolding strip_prefix
strip_prefix-append [] raw = refl
strip_prefix-append (c ∷ p) raw = ground (arith, strip_prefix-append p raw)

append_of_strip_prefix : (p s raw : Text) → strip_prefix p s ≡ some raw → s ≡ p ++ raw
unfolding strip_prefix
append_of_strip_prefix [] s raw h = ground arith
append_of_strip_prefix (c ∷ p) [] raw h = cc
append_of_strip_prefix (c ∷ p) (d ∷ s) raw h = ground (arith, append_of_strip_prefix p s raw)

pub strip_prefix_iff : (p s raw : Text) → (strip_prefix p s ≡ some raw) ↔ (s ≡ p ++ raw)
strip_prefix_iff p s raw =
    (append_of_strip_prefix p s raw, λ h. ground (arith, strip_prefix-append p raw))
