-- ===== src/Values.antt =====
-- src/runtime_values.rs: allow-listed runtime values, an immutable baseline under replaceable
-- overrides. A method that takes the write lock returns the new value; a poisoned lock is a flag.
pub mod Patch
pub mod Governed
pub mod Initial
use ores_otel_sidecar_rs.Prelude.{
  ℕ, zero, Bool, true, false, not, ◌&&◌, ◌||◌, Option, none, some, List, [], ◌∷◌, ◌++◌, ltb, leb,
  ◌==◌, ◌≟◌, if◌then◌else◌, Result, ok, err, ◌>>=◌, ◌>>◌, reject_if, Text, codes, text_eq, bytes,
  byte_len, all, any, length, is_ascii_uppercase, is_ascii_digit,
}
use ores_otel_sidecar_rs.SidecarError.{
  SidecarError, invalid_config, runtime_update_rejected, runtime_state_unavailable,
}
use ores_otel_sidecar_rs.Maps.{Map, KeySet, lookup, collect, contains, contains_key, collect_keys}

abbrev pub max_runtime_keys : ℕ
max_runtime_keys = 64

abbrev max_runtime_key_bytes : ℕ
max_runtime_key_bytes = 128

abbrev pub max_runtime_value_bytes : ℕ
max_runtime_value_bytes = 16384

pub record RuntimeValueUpdate : Type 0 where
  pub key : Text
  pub value : Option Text

pub record RuntimeValues : Type 0 where
  pub mutable : KeySet
  pub baseline : Map
  pub overrides : Map
  pub poisoned : Bool

abbrev pub Checked : Type 0
Checked = Result SidecarError (Unit {0})

-- `key.split('_')`: the part being read, and the rest.
unfoldable split_into : Text → Text → List Text
split_into part [] = part ∷ []
split_into part (c ∷ s) =
    if c == b'_' then part ∷ split_into [] s else split_into (part ++ c ∷ []) s

unfoldable pub split : Text → List Text
unfolding split_into
split s = split_into [] s

unfoldable pub ends_with : Text → Text → Bool
ends_with [] suffix = [] ≟ suffix
ends_with (c ∷ s) suffix = (c ∷ s) ≟ suffix || ends_with s suffix

unfoldable is_sensitive_part : Text → Bool
is_sensitive_part part =
    part ≟ codes "PASSWORD"
    || part ≟ codes "PASS"
    || part ≟ codes "TOKEN"
    || part ≟ codes "SECRET"
    || part ≟ codes "CREDENTIAL"
    || part ≟ codes "CREDENTIALS"
    || part ≟ codes "COOKIE"
    || part ≟ codes "PRIVATE"
    || part ≟ codes "AUTHORIZATION"

unfoldable pub is_sensitive_runtime_key : Text → Bool
unfolding is_sensitive_part split ends_with
is_sensitive_runtime_key key =
    if key ≟ codes "REDIS_URL"
      || key ≟ codes "DATABASE_URL"
      || ends_with key (codes "_DSN")
      || ends_with key (codes "_KEY")
    then true
    else any is_sensitive_part (split key)

abbrev is_key_byte : ℕ → Bool
is_key_byte b = is_ascii_uppercase b || is_ascii_digit b || b == b'_'

unfoldable key_head_valid : List ℕ → Bool
unfolding is_ascii_uppercase
key_head_valid [] = false
key_head_valid (b ∷ bs) = is_ascii_uppercase b || b == b'_'

-- `valid_shape`
unfoldable pub valid_shape : Text → Bool
unfolding key_head_valid is_ascii_digit
valid_shape key =
    key_head_valid (bytes key)
    && leb (length (bytes key)) max_runtime_key_bytes
    && all is_key_byte (bytes key)

unfoldable validate_runtime_key : Text → Checked
unfolding valid_shape is_sensitive_runtime_key
validate_runtime_key key =
    reject_if (not (valid_shape key) || is_sensitive_runtime_key key) (runtime_update_rejected key)

abbrev value_too_long : Option Text → Bool
value_too_long none = false
value_too_long (some value) = ltb max_runtime_value_bytes (byte_len value)

unfoldable pub validate_update : KeySet → Text → Option Text → Checked
unfolding validate_runtime_key
validate_update mutable key value = do
  validate_runtime_key key
  reject_if (not (contains mutable key)) (runtime_update_rejected key)
  reject_if (value_too_long value) (runtime_update_rejected key)
  ok tt

-- The folds of `RuntimeValues::new`.
unfoldable pub allow_keys : KeySet → List Text → Result SidecarError KeySet
unfolding validate_runtime_key
allow_keys allowed [] = ok allowed
allow_keys allowed (key ∷ rest) =
    let more = allow_keys (collect_keys allowed (key ∷ [])) rest in
    do
      validate_runtime_key key
      reject_if (leb max_runtime_keys (length allowed) || contains allowed key)
          (invalid_config (codes "runtime mutable keys must be unique and bounded"))
      more

unfoldable pub add_baseline : KeySet → Map → List (Text × Text) → Result SidecarError Map
unfolding validate_update
add_baseline allowed baseline [] = ok baseline
add_baseline allowed baseline ((key, value) ∷ rest) =
    let more = add_baseline allowed (collect (baseline ++ (key, value) ∷ [])) rest in
    do
      validate_update allowed key (some value)
      reject_if (leb max_runtime_keys (length baseline) || contains_key baseline key)
          (invalid_config (codes "runtime baseline values must be unique and bounded"))
      more

unfoldable pub new : List Text → List (Text × Text) → Result SidecarError RuntimeValues
unfolding allow_keys add_baseline
new mutable initial = do
  allowed ← allow_keys [] mutable
  baseline ← add_baseline allowed [] initial
  ok (record { mutable = allowed; baseline = baseline; overrides = []; poisoned = false })

abbrev pub or_else : Option Text → Option Text → Option Text
or_else none o = o
or_else (some v) o = some v

unfoldable pub get : RuntimeValues → Text → Result SidecarError (Option Text)
get values key =
    if values.poisoned
    then err runtime_state_unavailable
    else ok (or_else (lookup key values.overrides) (lookup key values.baseline))

-- The entries whose key `drop` does not hold.
unfoldable pub filter_keys : (Text → Bool) → Map → Map
filter_keys drop [] = []
filter_keys drop ((k, v) ∷ m) =
    let rest = filter_keys drop m in if drop k then rest else (k, v) ∷ rest

unfoldable layered : Map → Map → Map
unfolding filter_keys
layered base overlay = collect (filter_keys (contains_key overlay) base ++ overlay)

unfoldable pub snapshot : RuntimeValues → Result SidecarError Map
unfolding layered
snapshot values =
    if values.poisoned
    then err runtime_state_unavailable
    else ok (layered values.baseline values.overrides)

-- The fold of `validate_patch`.
unfoldable pub validate_entries : KeySet → KeySet → List RuntimeValueUpdate → Checked
unfolding validate_update
validate_entries mutable seen [] = ok tt
validate_entries mutable seen (u ∷ rest) =
    let more = validate_entries mutable (collect_keys seen (u.key ∷ [])) rest in
    do
      reject_if (contains seen u.key) (runtime_update_rejected u.key)
      validate_update mutable u.key u.value
      more

unfoldable pub validate_patch : RuntimeValues → List RuntimeValueUpdate → Checked
unfolding validate_entries
validate_patch values updates = do
  reject_if (ltb max_runtime_keys (length updates))
      (invalid_config (codes "runtime patch exceeds the bounded key count"))
  validate_entries values.mutable [] updates

-- The entries that a patch sets.
unfoldable pub set_entries : List RuntimeValueUpdate → List (Text × Text)
set_entries [] = []
set_entries (u ∷ rest) = elim u.value [
  | none ↦ set_entries rest
  | some v ↦ (u.key, v) ∷ set_entries rest
]

unfoldable pub patched : Map → List RuntimeValueUpdate → Map
unfolding filter_keys set_entries
patched current updates =
    collect (filter_keys (λ key. any (λ u. u.key ≟ key) updates) current ++ set_entries updates)

unfoldable pub apply_patch : RuntimeValues → List RuntimeValueUpdate → Checked × RuntimeValues
unfolding validate_patch patched
apply_patch values updates = elim (validate_patch values updates) [
  | err e ↦ (err e, values)
  | ok _ ↦
      if values.poisoned
      then (err runtime_state_unavailable, values)
      else (ok tt, record values { overrides = patched values.overrides updates })
]

-- The loop of `replace_overrides`.
unfoldable pub validate_all : KeySet → Map → Checked
unfolding validate_update
validate_all mutable [] = ok tt
validate_all mutable ((key, value) ∷ rest) = do
  validate_update mutable key (some value)
  validate_all mutable rest

unfoldable pub replace_overrides : RuntimeValues → Map → Checked × RuntimeValues
unfolding validate_all
replace_overrides values next =
    elim (do
      reject_if (ltb max_runtime_keys (length next))
          (invalid_config (codes "runtime override set exceeds the bounded key count"))
      validate_all values.mutable next) [
        | err e ↦ (err e, values)
        | ok _ ↦
            if values.poisoned
            then (err runtime_state_unavailable, values)
            else (ok tt, record values { overrides = next })
      ]
