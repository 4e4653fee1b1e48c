-- ===== src/Actions.antt =====
-- Calls that change a world and may fail: what an operation of an outside library returns, and the
-- world after it.
use ores_otel_sidecar_rs.Prelude.{◌≡◌, refl, Result, ok, err, map_err}

abbrev pub Act : Type 0 → Type 0 → Type 0 → Type 0
Act W E A = W → Result E A × W

module _ {W E : Type 0} where
  -- `return`, and `?` on a result that no call made
  abbrev pub lift : {A : Type 0} → Result E A → Act W E A
  lift r w = (r, w)

  abbrev mapped : {A F : Type 0} → (F → E) → Act W F A → Act W E A
  mapped f m w = let (r, w') = m w in (map_err f r, w')

  module _ {A B : Type 0} where
    abbrev pub continue : Result E A → (A → Act W E B) → Act W E B
    continue (ok a) f w = f a w
    continue (err e) f w = (err e, w)

    infixl 5 ◌>>=◌ ◌>>◌
    abbrev pub ◌>>=◌ : Act W E A → (A → Act W E B) → Act W E B
    ◌>>=◌ m f w = let (r, w') = m w in continue r f w'

    abbrev pub ◌>>◌ : Act W E A → Act W E B → Act W E B
    m >> k = m >>= λ _. k

    -- A chain that succeeds did its first step, and then the rest.
    continue_ok :
        (r : Result E A) (f : A → Act W E B) (w w' : W) (b : B)
        → continue r f w ≡ (ok b, w')
        → (a : A) × (r ≡ ok a) × (f a w ≡ (ok b, w'))
    continue_ok (ok a) f w w' b h = (a, refl, h)
    continue_ok (err e) f w w' b h = cc

    pub and_then_ok :
        (m : Act W E A) (f : A → Act W E B) (w w' : W) (b : B)
        → (m >>= f) w ≡ (ok b, w')
        → (a : A) × (w1 : W) × (m w ≡ (ok a, w1)) × (f a w1 ≡ (ok b, w'))
    and_then_ok m f w w' b h =
        let (a, done, rest) = continue_ok (m w).0 f (m w).1 w' b h in (a, (m w).1, cc, rest)

  pub lift_ok :
      {A : Type 0} (r : Result E A) (w w' : W) (a : A)
      → lift r w ≡ (ok a, w')
      → (r ≡ ok a) × (w ≡ w')
  lift_ok r w w' a h = (cc, cc)
