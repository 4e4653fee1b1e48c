-- ===== src/Strings/Trim.antt =====
-- What `trim_end_matches` takes off.
use ores_otel_sidecar_rs.Prelude.{
  ℕ, ◌≡◌, refl, ap, ◌∙◌, arith, ◌&&◌, if◌then◌else◌, Bool, true, false, [], ◌∷◌, ◌++◌, Text, All,
  is_empty, Bool-cases, inl, inr,
}
use ores_otel_sidecar_rs.Strings.{trim, trim_start, trim_end, is_whitespace}

-- The rest of a text behind its end, which has only such characters.
pub record IsTrimmed (p : ℕ → Bool) (s trimmed : Text) : Type 0 where
  pub rest : Text
  pub splits : s ≡ trimmed ++ rest
  pub only : All (λ c. p c ≡ true) rest
  pub ends : (front : Text) (c : ℕ) → trimmed ≡ front ++ c ∷ [] → p c ≡ false

module _ (p : ℕ → Bool) where
  not_nil : (front : Text) (c : ℕ) → [] ≡ front ++ c ∷ [] → ⊥
  not_nil [] c e = cc
  not_nil (f ∷ front) c e = cc

  ends_cons :
      (c : ℕ) (t : Text)
      → (is_empty t ≡ true → p c ≡ false)
      → ((front : Text) (d : ℕ) → t ≡ front ++ d ∷ [] → p d ≡ false)
      → (front : Text) (d : ℕ) → c ∷ t ≡ front ++ d ∷ []
      → p d ≡ false
  ends_cons c [] head tail [] d e = ground (arith, head refl, e)
  ends_cons c (x ∷ t) head tail [] d e = cc
  ends_cons c t head tail (f ∷ front) d e = tail front d (cc)

  IsTrimmed-cons :
      (c : ℕ) (s trimmed : Text) (stop : Bool)
      → (is_empty trimmed && p c) ≡ stop
      → IsTrimmed p s trimmed
      → IsTrimmed p (c ∷ s) (if stop then [] else c ∷ trimmed)
  IsTrimmed-cons c s [] true e t = record {
    rest = c ∷ t.rest;
    splits = ap (λ r. c ∷ r) t.splits;
    only = (e, t.only);
    ends = λ front d h. absurd (not_nil front d h);
  }
  IsTrimmed-cons c s (x ∷ xs) true e t = cc
  IsTrimmed-cons c s trimmed false e t = record {
    rest = t.rest;
    splits = ap (λ r. c ∷ r) t.splits;
    only = t.only;
    ends = ends_cons c trimmed (λ h. ground arith) t.ends;
  }

  pub trim_end-IsTrimmed : (s : Text) → IsTrimmed p s (trim_end p s)
  unfolding trim_end
  trim_end-IsTrimmed [] = record {
    rest = [];
    splits = refl;
    only = tt;
    ends = λ front c e. absurd (not_nil front c e);
  }
  trim_end-IsTrimmed (c ∷ s) =
      IsTrimmed-cons c s (trim_end p s) (is_empty (trim_end p s) && p c) refl (trim_end-IsTrimmed s)

  -- It takes nothing off a text that it left.
  trim_end_idempotent : (s : Text) → trim_end p (trim_end p s) ≡ trim_end p s
  unfolding trim_end
  trim_end_idempotent [] = refl
  trim_end_idempotent (c ∷ s) = ground (arith, trim_end_idempotent s)

  -- A text that starts with no such character.
  abbrev Starts : Text → Type 0
  Starts [] = Unit
  Starts (c ∷ s) = p c ≡ false

  trim_start-Starts : (s : Text) → Starts (trim_start p s)
  unfolding trim_start
  trim_start-Starts [] = tt
  trim_start-Starts (c ∷ s) = elim (Bool-cases (p c)) [
    | inl blank ↦ rw blank (trim_start-Starts s)
    | inr letter ↦ rw letter letter
  ]

  trim_end-Starts : (s : Text) → Starts s → Starts (trim_end p s)
  unfolding trim_end
  trim_end-Starts [] h = tt
  trim_end-Starts (c ∷ s) h = rw h (ground arith)

  trim_start-id : (s : Text) → Starts s → trim_start p s ≡ s
  unfolding trim_start
  trim_start-id [] h = refl
  trim_start-id (c ∷ s) h = rw h

pub trim_idempotent : (s : Text) → trim (trim s) ≡ trim s
unfolding trim
trim_idempotent s =
    let start = trim_start is_whitespace s in
    ap (trim_end is_whitespace) (
      trim_start-id is_whitespace (trim_end is_whitespace start)
        (trim_end-Starts is_whitespace start (trim_start-Starts is_whitespace s)))
    ∙ trim_end_idempotent is_whitespace start
