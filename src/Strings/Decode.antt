-- ===== src/Strings/Decode.antt =====
-- `str::from_utf8`, and the decimal text of a number.
use ores_otel_sidecar_rs.Prelude.{
  ℕ, zero, suc, ◌+◌, ◌*◌, ◌/◌, ◌%◌, Bool, ◌&&◌, Option, none, some, List, [], ◌∷◌, ◌++◌, ltb, leb,
  ◌==◌, if◌then◌else◌, Text,
}

abbrev cons_some : ℕ → Option Text → Option Text
cons_some c none = none
cons_some c (some s) = some (c ∷ s)

abbrev within : ℕ → ℕ → ℕ → Bool
within lo hi b = leb lo b && leb b hi

-- `need` bytes of a character are to come, the next of them from `lo` to `hi`.
unfoldable decode : ℕ → ℕ → ℕ → ℕ → List ℕ → Option Text
decode need acc lo hi [] = if need == 0 then some [] else none
decode zero acc lo hi (b ∷ bs) =
    let one = cons_some b (decode 0 0 0 0 bs) in
    let two = decode 1 (b % 32) 0x80 0xBF bs in
    let low_three = decode 2 0 0xA0 0xBF bs in
    let three = decode 2 (b % 16) 0x80 0xBF bs in
    let before_surrogates = decode 2 (b % 16) 0x80 0x9F bs in
    let low_four = decode 3 0 0x90 0xBF bs in
    let four = decode 3 (b % 8) 0x80 0xBF bs in
    let last_four = decode 3 4 0x80 0x8F bs in
    if ltb b 0x80
    then one
    else if within 0xC2 0xDF b
    then two
    else if b == 0xE0
    then low_three
    else if b == 0xED
    then before_surrogates
    else if within 0xE1 0xEF b
    then three
    else if b == 0xF0
    then low_four
    else if within 0xF1 0xF3 b
    then four
    else if b == 0xF4
    then last_four
    else none
decode (suc n) acc lo hi (b ∷ bs) =
    let next = acc * 64 + b % 64 in
    let last = cons_some next (decode 0 0 0 0 bs) in
    let more = decode n next 0x80 0xBF bs in
    if within lo hi b then (if n == 0 then last else more) else none

unfoldable pub from_utf8 : List ℕ → Option Text
unfolding decode
from_utf8 bs = decode 0 0 0 0 bs

-- `to_string` of a `u64`, which has at most 20 digits.
unfoldable pub decimal_on : ℕ → ℕ → Text
decimal_on zero n = []
decimal_on (suc fuel) n =
    let rest = decimal_on fuel (n / 10) in
    if ltb n 10 then (n + b'0') ∷ [] else rest ++ (n % 10 + b'0') ∷ []

unfoldable pub decimal : ℕ → Text
unfolding decimal_on
decimal n = decimal_on 20 n
