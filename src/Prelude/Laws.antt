-- ===== src/Prelude/Laws.antt =====
-- What the UTF-8 encoding says of a text of ASCII characters, and inversions of a chain of tests.
use Prim.Native.Nat.{ℕ, ◌+◌, ◌/◌, ◌<◌}
use mathlib.Core.Path.{◌≡◌, refl}
use mathlib.Core.Logic.{◌↔◌}
use mathlib.Core.Bool.{Bool, true, false}
use mathlib.Core.List.{List, [], ◌∷◌, ◌++◌}
use native.Mathlib.Omega.{arith}
use ores_otel_sidecar_rs.Prelude.Lists.{all}
use ores_otel_sidecar_rs.Prelude.Results.{Result, ok, err, ◌>>=◌, ◌>>◌, reject_if}
use ores_otel_sidecar_rs.Prelude.Utf8.{Text, utf8, bytes}

-- A predicate of every character.
abbrev pub All {ℓ κ} : {A : Type ℓ} → (A → Type κ) → List A → Type κ
All P [] = Unit
All P (x ∷ xs) = P x × All P xs

module _ {E : Type 0} {A : Type 0} where
  -- A chain of tests succeeds exactly when each passes.
  pub reject_if_iff :
      (b : Bool) (e : E) (k : Result E A) (a : A)
      → ((reject_if b e >> k) ≡ ok a) ↔ ((b ≡ false) × (k ≡ ok a))
  reject_if_iff true e k a = (λ h. cc, λ h. cc)
  reject_if_iff false e k a = (λ h. (refl, h), λ h. h.1)

  pub then_iff :
      (m : Result E (Unit {0})) (k : Result E A) (a : A)
      → ((m >> k) ≡ ok a) ↔ ((m ≡ ok tt) × (k ≡ ok a))
  then_iff (ok tt) k a = (λ h. (refl, h), λ h. h.1)
  then_iff (err e) k a = (λ h. cc, λ h. cc)

-- A chain of two steps succeeds exactly if each does.
module _ {E A B : Type 0} where
  pub bind_ok :
      {m : Result E A}
      → {f : A → Result E B} → {b : B} → (m >>= f) ≡ ok b
      → (a : A) × (m ≡ ok a) × (f a ≡ ok b)
  bind_ok {m = ok a} h = (a, refl, h)
  bind_ok {m = err e} h = cc

module _ (p : ℕ → Bool) (ascii : (b : ℕ) → p b ≡ true → b < 128) where
  utf8-all :
      (c : ℕ) (rest : List ℕ) → all p (utf8 c ++ rest) ≡ true → (p c ≡ true) × (all p rest ≡ true)
  unfolding utf8
  utf8-all c rest h =
      ground (arith, ascii (0xC0 + c / 64), ascii (0xE0 + c / 4096), ascii (0xF0 + c / 262144))

  utf8_ascii : (c : ℕ) → p c ≡ true → utf8 c ≡ c ∷ []
  unfolding utf8
  utf8_ascii c h = ground (arith, ascii c)

  -- A test that only ASCII bytes pass reads characters and bytes alike.
  pub all-bytes : (s : Text) → all p (bytes s) ≡ true → all p s ≡ true
  unfolding bytes
  all-bytes [] h = refl
  all-bytes (c ∷ s) h =
      let both = utf8-all c (bytes s) h in ground (arith, both, all-bytes s both.1)

  pub bytes_ascii : (s : Text) → all p s ≡ true → bytes s ≡ s
  unfolding bytes
  bytes_ascii [] h = refl
  bytes_ascii (c ∷ s) h = ground (arith, utf8_ascii c, bytes_ascii s)
