-- ===== src/Strings/Digits.antt =====
-- Reading a decimal text gives the number that was written.
use ores_otel_sidecar_rs.Prelude.{
  ℕ, zero, suc, ◌+◌, ◌-◌, ◌*◌, ◌/◌, ◌%◌, ◌≤◌, ◌<◌, ◌≡◌, ◌≢◌, refl, ap, ◌∙◌, arith, true, some, [],
  ◌∷◌, ◌++◌, ltb, Text, is_ascii_digit, inl, inr, Bool-cases, u64_max,
}
use ores_otel_sidecar_rs.Strings.{digits_value, parse_unsigned, parse_u64}
use ores_otel_sidecar_rs.Strings.Decode.{decimal_on, decimal}

-- 10 ^ f
power : ℕ → ℕ
power zero = 1
power (suc f) = 10 * power f

digits_value-snoc :
    (acc n c : ℕ) (s : Text)
    → digits_value acc s ≡ some n
    → is_ascii_digit c ≡ true
    → digits_value acc (s ++ c ∷ []) ≡ some (n * 10 + (c - b'0'))
unfolding digits_value
digits_value-snoc acc n c [] h d = ground arith
digits_value-snoc acc n c (x ∷ s) h d =
    ground (arith, digits_value-snoc (acc * 10 + (x - b'0')) n c s)

digit_text : (n : ℕ) → n < 10 → is_ascii_digit (n + b'0') ≡ true
unfolding is_ascii_digit
digit_text n h = ground arith

digits_value-one : (n : ℕ) → n < 10 → digits_value 0 ((n + b'0') ∷ []) ≡ some n
unfolding digits_value
digits_value-one n h = ground (arith, digit_text n)

digits_value-decimal_on : (f n : ℕ) → n < power f → digits_value 0 (decimal_on f n) ≡ some n
unfolding power decimal_on
digits_value-decimal_on zero n h = unfold digits_value in ground arith
digits_value-decimal_on (suc f) n h = elim (Bool-cases (ltb n 10)) [
  | inl small ↦ rw small (digits_value-one n (ground arith))
  | inr large ↦ rw large (
      digits_value-snoc 0 (n / 10) (n % 10 + b'0') (decimal_on f (n / 10))
        (digits_value-decimal_on f (n / 10) (omega arith)) (digit_text (n % 10) (omega arith))
      ∙ ap some (omega arith))
]

snoc-ne-nil : (s : Text) (c : ℕ) → s ++ c ∷ [] ≢ []
snoc-ne-nil [] c e = cc
snoc-ne-nil (x ∷ s) c e = cc

decimal_on-ne-nil : (f n : ℕ) → decimal_on (suc f) n ≢ []
unfolding decimal_on
decimal_on-ne-nil f n e = ground (arith, snoc-ne-nil (decimal_on f (n / 10)) (n % 10 + b'0'))

parse_unsigned_digits :
    (maximum n : ℕ) (s : Text)
    → s ≢ []
    → digits_value 0 s ≡ some n
    → n ≤ maximum
    → parse_unsigned maximum s ≡ some n
unfolding parse_unsigned digits_value is_ascii_digit
parse_unsigned_digits maximum n [] full h small = absurd (full refl)
parse_unsigned_digits maximum n (c ∷ s) full h small = ground arith

-- `parse` reads what `to_string` wrote.
pub parse_u64-decimal : (n : ℕ) → n ≤ u64_max → parse_u64 (decimal n) ≡ some n
unfolding decimal
parse_u64-decimal n h =
    parse_unsigned_digits u64_max n (decimal_on 20 n) (decimal_on-ne-nil 19 n)
      (digits_value-decimal_on 20 n (unfold power in omega arith)) h
