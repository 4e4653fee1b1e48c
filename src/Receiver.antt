-- ===== src/Receiver.antt =====
-- src/receiver.rs: frames of a metadata line and raw data, read from two streams.
pub mod Frames
pub mod All
pub mod Delivered
use ores_otel_sidecar_rs.Strings.{is_whitespace}
use ores_otel_sidecar_rs.Prelude.{
  ℕ, ◌>>=◌, Bool, false, not, ◌&&◌, ◌||◌, Option, none, some, List, ltb, leb, ◌==◌, if◌then◌else◌,
  Result, ok, err, Text, codes, byte_len, all,
}
use ores_otel_sidecar_rs.Stream.{Reader}
use ores_otel_sidecar_rs.Framing.{
  ReceiverError, invalid_metadata, missing_schema_version, invalid_byte_length,
  data_chunk_too_large, Line, Data, read_bounded_line, read_data,
}

-- serde_json's values: parsing and the views that the receiver takes of a value.
pub record Json : Type 1 where
  pub Value : Type 0
  pub Object : Type 0
  pub from_slice : List ℕ → Option Value
  pub as_object : Value → Option Object
  pub object_get : Object → Text → Option Value
  pub get : Value → Text → Option Value
  pub as_str : Value → Option Text
  pub as_u64 : Value → Option ℕ

pub record ReceiverLimits : Type 0 where
  pub max_metadata_line_bytes : ℕ
  pub max_data_chunk_bytes : ℕ

abbrev pub default_limits : ReceiverLimits
default_limits = record { max_metadata_line_bytes = 65536; max_data_chunk_bytes = 1048576 }

-- The test on `schemaVersion`; a text is blank after `trim` if it is all whitespace.
unfoldable valid_schema_version : Option Text → Bool
unfolding is_whitespace
valid_schema_version none = false
valid_schema_version (some v) = not (all is_whitespace v) && leb (byte_len v) 128

module _ (J : Json) where
  abbrev option_then : {A B : Type 0} → Option A → (A → Option B) → Option B
  option_then none f = none
  option_then (some a) f = f a

  -- A `usize` holds every `u64`.
  unfoldable pub bounded_length : ℕ → Option ℕ → Result ReceiverError ℕ
  bounded_length maximum none = err invalid_byte_length
  bounded_length maximum (some requested) =
      if ltb maximum requested then err (data_chunk_too_large requested maximum) else ok requested

  unfoldable pub parse_byte_length : J.Value → ℕ → Result ReceiverError ℕ
  unfolding bounded_length
  parse_byte_length metadata maximum =
      bounded_length maximum (option_then (J.get metadata (codes "byteLength")) J.as_u64)

  -- From `metadata.as_object` on, in `receive_metadata`.
  unfoldable pub admit_metadata :
      ReceiverLimits → J.Value → Option J.Object → Result ReceiverError J.Value
  unfolding valid_schema_version parse_byte_length
  admit_metadata limits metadata none = err invalid_metadata
  admit_metadata limits metadata (some object) =
      if not
        (valid_schema_version (option_then (J.object_get object (codes "schemaVersion")) J.as_str))
      then err missing_schema_version
      else parse_byte_length metadata limits.max_data_chunk_bytes >>= λ _. ok metadata

  unfoldable pub parse_metadata : ReceiverLimits → Option J.Value → Result ReceiverError J.Value
  unfolding admit_metadata
  parse_metadata limits none = err invalid_metadata
  parse_metadata limits (some metadata) = admit_metadata limits metadata (J.as_object metadata)

  -- From the line on, in `receive_metadata`.
  unfoldable pub metadata_of : ReceiverLimits → Line → Result ReceiverError (Option J.Value)
  unfolding parse_metadata
  metadata_of limits (err e) = err e
  metadata_of limits (ok none) = ok none
  metadata_of limits (ok (some line)) =
      parse_metadata limits (J.from_slice line) >>= λ metadata. ok (some metadata)

  unfoldable pub receive_metadata :
      Reader → ReceiverLimits → Result ReceiverError (Option J.Value) × Reader
  unfolding metadata_of read_bounded_line
  receive_metadata reader limits =
      let (line, reader') = read_bounded_line reader limits.max_metadata_line_bytes in
      (metadata_of limits line, reader')

  unfoldable pub data_of : Reader → Result ReceiverError ℕ → Data × Reader
  unfolding read_data
  data_of reader (err e) = (err e, reader)
  data_of reader (ok byte_length) = read_data reader byte_length

  unfoldable pub receive_data : Reader → J.Value → ReceiverLimits → Data × Reader
  unfolding data_of parse_byte_length
  receive_data reader metadata limits =
      data_of reader (parse_byte_length metadata limits.max_data_chunk_bytes)

  pub record ReceiverFrame : Type 0 where
    pub metadata : J.Value
    pub data_bytes : List ℕ

  abbrev pub Received : Type 0
  Received = Result ReceiverError (Option ReceiverFrame) × (Reader × Reader)

  abbrev pub framed : J.Value → Data → Result ReceiverError (Option ReceiverFrame)
  framed metadata (err e) = err e
  framed metadata (ok raw) = ok (some (record { metadata = metadata; data_bytes = raw }))

  -- From the metadata on, in `receive_one`; the readers are the metadata's and the data's.
  unfoldable pub receive_frame :
      Reader → ReceiverLimits → Result ReceiverError (Option J.Value) × Reader → Received
  unfolding receive_data
  receive_frame data_reader limits (err e, reader) = (err e, (reader, data_reader))
  receive_frame data_reader limits (ok none, reader) = (ok none, (reader, data_reader))
  receive_frame data_reader limits (ok (some metadata), reader) =
      let (raw, data_reader') = receive_data data_reader metadata limits in
      (framed metadata raw, (reader, data_reader'))

  unfoldable pub receive_one : Reader → Reader → ReceiverLimits → Received
  unfolding receive_frame receive_metadata
  receive_one metadata_reader data_reader limits =
      receive_frame data_reader limits (receive_metadata metadata_reader limits)
