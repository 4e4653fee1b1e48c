-- ===== src/Record/Segment.antt =====
-- The identity segments of src/process_lifecycle_record.rs.
use ores_otel_sidecar_rs.Prelude.{
  ℕ, ◌≤◌, ◌<◌, ◌≡◌, refl, ◌↔◌, ◌⊎◌, true, arith, [], ◌∷◌, Text, all, All, all-bytes, bytes_ascii,
  length,
}
use ores_otel_sidecar_rs.Record.{is_segment_byte, valid_identity_segment, max_identity_bytes}

-- A letter, a digit, `-`, `_`, `.` or `:`.
abbrev pub IsSegmentChar : ℕ → Type 0
IsSegmentChar c =
    ((b'0' ≤ c) × (c ≤ b'9'))
    ⊎ ((b'A' ≤ c) × (c ≤ b'Z'))
    ⊎ ((b'a' ≤ c) × (c ≤ b'z'))
    ⊎ (c ≡ b'-')
    ⊎ (c ≡ b'_')
    ⊎ (c ≡ b'.')
    ⊎ (c ≡ b':')

-- Between 1 and 96 characters, each of the identity alphabet.
pub record IsSegment (s : Text) : Type 0 where
  pub nonempty : 0 < length s
  pub bounded : length s ≤ max_identity_bytes
  pub chars : All IsSegmentChar s

segment_byte_ascii : (b : ℕ) → is_segment_byte b ≡ true → b < 128
unfolding is_segment_byte
segment_byte_ascii b h = ground arith

is_segment_byte_iff : (c : ℕ) → (is_segment_byte c ≡ true) ↔ IsSegmentChar c
unfolding is_segment_byte
is_segment_byte_iff c = (λ h. ground arith, λ h. ground arith)

all-iff-All : (s : Text) → (all is_segment_byte s ≡ true) ↔ All IsSegmentChar s
all-iff-All [] = (λ h. tt, λ h. refl)
all-iff-All (c ∷ s) = ground (arith, is_segment_byte_iff c, all-iff-All s)

-- The byte-wise test accepts exactly the segments, whatever the text's encoding.
pub valid_identity_segment_iff : (s : Text) → (valid_identity_segment s ≡ true) ↔ IsSegment s
unfolding valid_identity_segment
valid_identity_segment_iff [] = (λ h. cc, λ h. absurd (omega arith))
valid_identity_segment_iff (c ∷ s) = (
  λ h. ground (
    arith,
    all-bytes is_segment_byte segment_byte_ascii (c ∷ s),
    bytes_ascii is_segment_byte segment_byte_ascii (c ∷ s),
    all-iff-All (c ∷ s),
  ),
  λ h. ground (arith, bytes_ascii is_segment_byte segment_byte_ascii (c ∷ s), all-iff-All (c ∷ s)),
)
