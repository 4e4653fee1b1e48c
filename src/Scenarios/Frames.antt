-- ===== src/Scenarios/Frames.antt =====
-- A frame that arrives in pieces.
use ores_otel_sidecar_rs.Prelude.{
  Result, ◌+◌, ℕ, ◌<◌, ◌≡◌, refl, List, [], ◌∷◌, some, ok, arith, codes, length, u64_max, bytes,
}
use ores_otel_sidecar_rs.Stream.{Reader, chunk, broken, content}
use ores_otel_sidecar_rs.Framing.{ReceiverError, read_bounded_line, trim_line}
use ores_otel_sidecar_rs.Framing.Lines.{split_line, IsLineRead, read_bounded_line-IsLineRead}
use ores_otel_sidecar_rs.Receiver.{
  Json, ReceiverFrame, default_limits, parse_metadata, parse_byte_length,
}
use ores_otel_sidecar_rs.Receiver.All.{receive_all, receive_all-Ends}
use ores_otel_sidecar_rs.Receiver.Delivered.{HoldsFrames, deliver, receive_all-deliver}
use ores_otel_sidecar_rs.Receiver.Frames.{IsEncoded}

-- Values are numbers, and a line stands for its length.
abbrev lengths : Json
lengths = record {
  Value = ℕ;
  Object = ℕ;
  from_slice = λ line. some (length line);
  as_object = λ v. some v;
  object_get = λ o k. some o;
  get = λ v k. some v;
  as_str = λ v. some (codes "v1");
  as_u64 = λ v. some v;
}

abbrev metadata_reader : Reader
metadata_reader = record {
  buffer = [];
  source = chunk (codes "ab") ∷ chunk (b'c' ∷ b'\r' ∷ b'\n' ∷ b'd' ∷ []) ∷ [];
}

abbrev data_reader : Reader
data_reader = record { buffer = 1 ∷ 2 ∷ []; source = chunk (3 ∷ 4 ∷ []) ∷ [] }

small : 65536 < u64_max
small = omega arith

read_bounded_line-IsLineRead_example :
    let (r, after) = read_bounded_line metadata_reader 65536 in
    IsLineRead 65536 (content metadata_reader) r after
read_bounded_line-IsLineRead_example = read_bounded_line-IsLineRead metadata_reader 65536 small tt

-- Two frames, of one byte and of two.
abbrev two_lines : Reader
two_lines = record {
  buffer = [];
  source = chunk (b'a' ∷ b'\n' ∷ b'b' ∷ []) ∷ chunk (b'c' ∷ b'\n' ∷ []) ∷ [];
}

abbrev three_bytes : Reader
three_bytes = record { buffer = []; source = chunk (7 ∷ []) ∷ chunk (8 ∷ 9 ∷ []) ∷ [] }

abbrev two_frames : List (ReceiverFrame lengths)
two_frames =
    record { metadata = 1; data_bytes = 7 ∷ [] }
    ∷ record { metadata = 2; data_bytes = 8 ∷ 9 ∷ [] }
    ∷ []

-- The sink adds the lengths up.
abbrev add_length : ReceiverFrame lengths → ℕ → Result ReceiverError (Unit {0}) × ℕ
add_length frame total = (ok tt, total + length frame.data_bytes)

first-IsEncoded :
    IsEncoded lengths default_limits
      (content two_lines)
      (content three_bytes)
      1
      1
      (b'a' ∷ b'\n' ∷ [])
      (b'b' ∷ b'c' ∷ b'\n' ∷ [])
unfolding split_line trim_line parse_metadata parse_byte_length bytes
first-IsEncoded = record {
  framed = refl;
  fits = omega arith;
  parsed = refl;
  admitted = refl;
  declared = refl;
  enough = omega arith;
}

second-IsEncoded :
    IsEncoded lengths default_limits
      (b'b' ∷ b'c' ∷ b'\n' ∷ [])
      (8 ∷ 9 ∷ [])
      2
      2
      (b'b' ∷ b'c' ∷ b'\n' ∷ [])
      []
unfolding split_line trim_line parse_metadata parse_byte_length bytes
second-IsEncoded = record {
  framed = refl;
  fits = omega arith;
  parsed = refl;
  admitted = refl;
  declared = refl;
  enough = omega arith;
}

both_held : HoldsFrames lengths default_limits (content two_lines) (content three_bytes) two_frames
both_held = (
  1,
  b'a' ∷ b'\n' ∷ [],
  b'b' ∷ b'c' ∷ b'\n' ∷ [],
  first-IsEncoded,
  refl,
  (2, b'b' ∷ b'c' ∷ b'\n' ∷ [], [], second-IsEncoded, refl, refl),
)

receive_all-deliver_example :
    receive_all lengths add_length default_limits two_lines three_bytes 0 ≡ (
      some (deliver lengths add_length default_limits two_frames 0 0).0,
      (deliver lengths add_length default_limits two_frames 0 0).1,
    )
receive_all-deliver_example =
    receive_all-deliver lengths add_length default_limits two_lines three_bytes 0 two_frames small
      tt tt both_held

deliver_run : deliver lengths add_length default_limits two_frames 0 0 ≡ (ok 2, 3)
unfolding deliver
deliver_run = refl

abbrev broken_lines : Reader
broken_lines = record {
  buffer = b'a' ∷ b'\n' ∷ [];
  source = broken (codes "reset") ∷ chunk (b'b' ∷ []) ∷ [];
}

receive_all-Ends_example :
    (r : Result ReceiverError ℕ) × ((receive_all lengths add_length default_limits broken_lines
        three_bytes 0).0
      ≡ some r)
receive_all-Ends_example =
    receive_all-Ends lengths add_length default_limits broken_lines three_bytes 0
