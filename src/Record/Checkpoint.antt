-- ===== src/Record/Checkpoint.antt =====
-- The checkpoint metadata that src/process_lifecycle_record.rs accepts.
use ores_otel_sidecar_rs.Prelude.{
  ℕ, ◌≤◌, ◌<◌, ◌≡◌, refl, ◌≢◌, ◌↔◌, ◌⊎◌, true, false, Option, none, some, arith, [], ◌∷◌, ok, Text,
  all, All, all-bytes, bytes_ascii, length, is_empty, any, is_control, byte_len, codes,
  strip_prefix, strip_prefix_iff, ◌++◌,
}
use ores_otel_sidecar_rs.Record.{
  LifecycleCheckpoint, checkpoint_texts_invalid, valid_checkpoint_digest, is_digest_byte,
  valid_raw_digest, validate_checkpoint,
}

-- A digit, or a letter from `a` to `f`.
abbrev IsLowerHex : ℕ → Type 0
IsLowerHex c = ((b'0' ≤ c) × (c ≤ b'9')) ⊎ ((b'a' ≤ c) × (c ≤ b'f'))

-- `sha256:` and 64 lower-case hexadecimal digits.
abbrev IsDigest : Text → Type 0
IsDigest d = (raw : Text) × (d ≡ codes "sha256:" ++ raw) × (length raw ≡ 64) × All IsLowerHex raw

hex_ascii : (b : ℕ) → is_digest_byte b ≡ true → b < 128
unfolding is_digest_byte
hex_ascii b h = ground arith

is_digest_byte_iff : (c : ℕ) → (is_digest_byte c ≡ true) ↔ IsLowerHex c
unfolding is_digest_byte
is_digest_byte_iff c = (λ h. ground arith, λ h. ground arith)

all-iff-IsLowerHex : (s : Text) → (all is_digest_byte s ≡ true) ↔ All IsLowerHex s
all-iff-IsLowerHex [] = (λ h. tt, λ h. refl)
all-iff-IsLowerHex (c ∷ s) = ground (arith, is_digest_byte_iff c, all-iff-IsLowerHex s)

valid_raw_digest_iff :
    (raw : Text) → (valid_raw_digest (some raw) ≡ true) ↔ ((length raw ≡ 64) × All IsLowerHex raw)
unfolding valid_raw_digest
valid_raw_digest_iff raw = (
  λ h. ground (
    arith,
    all-bytes is_digest_byte hex_ascii raw,
    bytes_ascii is_digest_byte hex_ascii raw,
    all-iff-IsLowerHex raw,
  ),
  λ h. ground (arith, bytes_ascii is_digest_byte hex_ascii raw, all-iff-IsLowerHex raw),
)

-- The digest test accepts exactly the canonical SHA-256 digests.
valid_checkpoint_digest_iff : (d : Text) → (valid_checkpoint_digest d ≡ true) ↔ IsDigest d
unfolding valid_checkpoint_digest
valid_checkpoint_digest_iff d = (sound, complete)
  where
    sound_of :
        (o : Option Text)
        → strip_prefix (codes "sha256:") d ≡ o
        → valid_raw_digest o ≡ true
        → IsDigest d
    sound_of none e h = cc
    sound_of (some raw) e h =
        let both = (valid_raw_digest_iff raw).0 h in
        (raw, (strip_prefix_iff (codes "sha256:") d raw).0 e, both.0, both.1)

    sound : valid_raw_digest (strip_prefix (codes "sha256:") d) ≡ true → IsDigest d
    sound h = sound_of (strip_prefix (codes "sha256:") d) refl h

    complete : IsDigest d → valid_raw_digest (strip_prefix (codes "sha256:") d) ≡ true
    complete (raw, e, n, hex) =
        rw ((strip_prefix_iff (codes "sha256:") d raw).1 e) ((valid_raw_digest_iff raw).1 (n, hex))

-- Texts that are there, are short enough in bytes, and hold no control character.
abbrev IsPrintable : ℕ → Text → Type 0
IsPrintable limit s =
    (s ≢ []) × (byte_len s ≤ limit) × All (λ c. (0x20 ≤ c) × ((c < 0x7F) ⊎ (0x9F < c))) s

pub record IsCheckpoint (c : LifecycleCheckpoint) : Type 0 where
  pub artifact_ref : IsPrintable 2048 c.artifact_ref
  pub format : IsPrintable 128 c.format
  pub digest : IsDigest c.digest

not-any-is_control_iff :
    (s : Text) → (any is_control s ≡ false) ↔ All (λ c. (0x20 ≤ c) × ((c < 0x7F) ⊎ (0x9F < c))) s
unfolding is_control
not-any-is_control_iff [] = (λ h. tt, λ h. refl)
not-any-is_control_iff (c ∷ s) = ground (arith, not-any-is_control_iff s)

is_empty_iff : (s : Text) → (is_empty s ≡ false) ↔ (s ≢ [])
is_empty_iff [] = (λ h. cc, λ h. absurd (h refl))
is_empty_iff (c ∷ s) = (λ h. λ e. cc, λ h. refl)

checkpoint_texts_iff :
    (c : LifecycleCheckpoint)
    → (checkpoint_texts_invalid c ≡ false)
      ↔ (IsPrintable 2048 c.artifact_ref × IsPrintable 128 c.format)
unfolding checkpoint_texts_invalid
checkpoint_texts_iff c = (
  λ h. ground (
    arith,
    is_empty_iff c.artifact_ref,
    is_empty_iff c.format,
    not-any-is_control_iff c.artifact_ref,
    not-any-is_control_iff c.format,
  ),
  λ h. ground (
    arith,
    is_empty_iff c.artifact_ref,
    is_empty_iff c.format,
    not-any-is_control_iff c.artifact_ref,
    not-any-is_control_iff c.format,
  ),
)

pub validate_checkpoint_iff :
    (c : LifecycleCheckpoint) → (validate_checkpoint (some c) ≡ ok tt) ↔ IsCheckpoint c
unfolding validate_checkpoint
validate_checkpoint_iff c = (
  λ h.
      let texts = (checkpoint_texts_iff c).0 (ground arith) in
      record {
        artifact_ref = texts.0;
        format = texts.1;
        digest = (valid_checkpoint_digest_iff c.digest).0 (ground arith);
      },
  λ h. ground (
    arith,
    (checkpoint_texts_iff c).1 (h.artifact_ref, h.format),
    (valid_checkpoint_digest_iff c.digest).1 h.digest,
  ),
)
