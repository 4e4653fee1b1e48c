-- ===== src/Receiver/Frames.antt =====
-- The frames that `receive_one` of src/receiver.rs reads.
use ores_otel_sidecar_rs.Prelude.{
  ℕ, ◌≤◌, ◌<◌, ◌≡◌, List, none, some, Option, u64_max, ok, err, Result, arith, length, take, drop,
}
use ores_otel_sidecar_rs.Stream.{Reader, Flows, content}
use ores_otel_sidecar_rs.Framing.{ReceiverError, trim_line}
use ores_otel_sidecar_rs.Framing.Lines.{split_line, read_bounded_line-IsLineRead}
use ores_otel_sidecar_rs.Framing.Chunks.{read_data-IsDataRead}
use ores_otel_sidecar_rs.Receiver.{
  Json, ReceiverLimits, ReceiverFrame, parse_byte_length, parse_metadata, metadata_of, framed,
  receive_metadata, receive_data, data_of, receive_frame, receive_one,
}

-- Two streams that hold a frame and what follows it: a metadata line within the bound, which parses
-- to admissible metadata, and at least the bytes that the metadata declares.
pub record IsEncoded (J : Json) (limits : ReceiverLimits) (metadata_bytes data_bytes : List ℕ)
    (metadata : J.Value) (n : ℕ) (line rest : List ℕ) : Type 0 where
  pub framed : split_line metadata_bytes ≡ some (line, rest)
  pub fits : length line ≤ limits.max_metadata_line_bytes
  pub parsed : J.from_slice (trim_line line) ≡ some metadata
  pub admitted : parse_metadata J limits (some metadata) ≡ ok metadata
  pub declared : parse_byte_length J metadata limits.max_data_chunk_bytes ≡ ok n
  pub enough : n ≤ length data_bytes

module _ (J : Json) (limits : ReceiverLimits) where
  -- A frame on two streams without errors, whatever the sizes of their chunks, is received: its
  -- metadata, and exactly the bytes that they declare. Both streams go on right behind it.
  pub receive_one-IsEncoded :
      (m d : Reader) (metadata : J.Value) (n : ℕ) (line rest : List ℕ)
      → limits.max_metadata_line_bytes < u64_max
      → Flows m.source
      → Flows d.source
      → IsEncoded J limits (content m) (content d) metadata n line rest
      → let (r, after) = receive_one J m d limits in
        (r ≡ ok (some (record { metadata = metadata; data_bytes = take n (content d) })))
        × (content after.0 ≡ rest)
        × (content after.1 ≡ drop n (content d))
  unfolding receive_one receive_frame receive_metadata receive_data data_of metadata_of
  receive_one-IsEncoded m d metadata n line rest small fm fd e =
      let l = read_bounded_line-IsLineRead m limits.max_metadata_line_bytes small fm in
      let b = read_data-IsDataRead d n fd in
      ground (arith, l.line, l.behind (trim_line line), b.whole, e)

  -- What holds of a frame that is received: its line parsed to its metadata, these passed the
  -- receiver's tests, and the data is as long as they declare, which is within the bound.
  pub record IsAdmitted (frame : ReceiverFrame J) : Type 0 where
    pub tested : parse_metadata J limits (some frame.metadata) ≡ ok frame.metadata
    pub declared :
        parse_byte_length J frame.metadata limits.max_data_chunk_bytes
        ≡ ok (length frame.data_bytes)
    pub bounded : length frame.data_bytes ≤ limits.max_data_chunk_bytes

  -- A frame was admitted; at the end of the metadata, the data stream is as it was.
  abbrev pub Step : Reader → Result ReceiverError (Option (ReceiverFrame J)) → Reader → Type 0
  Step d (ok none) after = after ≡ d
  Step d (ok (some frame)) after = IsAdmitted frame
  Step d (err e) after = Unit
