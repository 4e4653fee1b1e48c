-- ===== src/Receiver/All.antt =====
-- `receive_all` of src/receiver.rs: frames are received and given to a sink until the metadata
-- stream ends or something fails.
use ores_otel_sidecar_rs.Prelude.{
  ℕ, zero, suc, ◌<◌, ◌≡◌, refl, subst, sym, Option, none, some, List, Result, ok, err, arith,
  saturating_add,
}
use ores_otel_sidecar_rs.Stream.{Reader, to_come}
use ores_otel_sidecar_rs.Framing.{ReceiverError, Line, read_bounded_line}
use ores_otel_sidecar_rs.Framing.Progress.{to_come-read_bounded_line}
use ores_otel_sidecar_rs.Receiver.{
  Json, ReceiverLimits, ReceiverFrame, Received, metadata_of, receive_metadata, receive_frame,
  receive_one,
}

module _ (J : Json) {S : Type 0} (sink : ReceiverFrame J → S → Result ReceiverError (Unit {0}) × S)
    (limits : ReceiverLimits) where
  -- The sink is a closure with a state `S`. No result means that the fuel ran out.
  abbrev pub Counted : Type 0
  Counted = Option (Result ReceiverError ℕ) × S

  -- The closure of `try_fold`, after a frame was given to the sink.
  abbrev pub sunk : (ℕ → S → Counted) → ℕ → Result ReceiverError (Unit {0}) × S → Counted
  sunk next count (ok _, s) = next (saturating_add count 1) s
  sunk next count (err e, s) = (some (err e), s)

  abbrev pub folded : (Reader → Reader → ℕ → S → Counted) → ℕ → S → Received J → Counted
  folded next count s (err e, rest) = (some (err e), s)
  folded next count s (ok none, rest) = (some (ok count), s)
  folded next count s (ok (some frame), (m, d)) = sunk (next m d) count (sink frame s)

  unfoldable pub receive_frames : ℕ → Reader → Reader → ℕ → S → Counted
  unfolding receive_one
  receive_frames zero m d count s = (none, s)
  receive_frames (suc fuel) m d count s =
      folded (λ m' d' c t. receive_frames fuel m' d' c t) count s (receive_one J m d limits)

  -- A frame takes a byte of the metadata at least.
  unfoldable pub receive_all : Reader → Reader → S → Counted
  unfolding receive_frames to_come
  receive_all m d s = receive_frames (suc (to_come m)) m d 0 s

  line_of_metadata :
      (line : Line) (v : J.Value)
      → metadata_of J limits line ≡ ok (some v)
      → (l : List ℕ) × (line ≡ ok (some l))
  unfolding metadata_of
  line_of_metadata (err e) v h = cc
  line_of_metadata (ok none) v h = ground arith
  line_of_metadata (ok (some l)) v h = (l, refl)

  metadata_of_frame :
      (d m : Reader) (r : Result ReceiverError (Option J.Value)) (frame : ReceiverFrame J)
      → (receive_frame J d limits (r, m)).0 ≡ ok (some frame)
      → ((v : J.Value) × (r ≡ ok (some v))) × ((receive_frame J d limits (r, m)).1.0 ≡ m)
  unfolding receive_frame
  metadata_of_frame d m (err e) frame h = cc
  metadata_of_frame d m (ok none) frame h = ground arith
  metadata_of_frame d m (ok (some v)) frame h = ((v, refl), refl)

  pub receive_one_shorter :
      (m d : Reader) (frame : ReceiverFrame J)
      → (receive_one J m d limits).0 ≡ ok (some frame)
      → to_come (receive_one J m d limits).1.0 < to_come m
  unfolding receive_one receive_metadata
  receive_one_shorter m d frame h =
      let (r, after) = read_bounded_line m limits.max_metadata_line_bytes in
      let ((v, is_some), same) = metadata_of_frame d after (metadata_of J limits r) frame h in
      let (l, is_line) = line_of_metadata r v is_some in
      subst (λ x. to_come x < to_come m) (sym same)
        (to_come-read_bounded_line m limits.max_metadata_line_bytes l is_line)

  abbrev Ends : Counted → Type 0
  Ends c = (r : Result ReceiverError ℕ) × (c.0 ≡ some r)

  sunk-Ends :
      (next : ℕ → S → Counted) (count : ℕ) (r : Result ReceiverError (Unit {0}) × S)
      → ((c : ℕ) (s : S) → Ends (next c s))
      → Ends (sunk next count r)
  sunk-Ends next count (ok _, s) h = h (saturating_add count 1) s
  sunk-Ends next count (err e, s) h = (err e, refl)

  folded-Ends :
      (next : Reader → Reader → ℕ → S → Counted) (count : ℕ) (s : S) (r : Received J)
      → ((frame : ReceiverFrame J) (c : ℕ) (t : S)
          → r.0 ≡ ok (some frame)
          → Ends (next r.1.0 r.1.1 c t))
      → Ends (folded next count s r)
  folded-Ends next count s (err e, rest) h = (err e, refl)
  folded-Ends next count s (ok none, rest) h = (ok count, refl)
  folded-Ends next count s (ok (some frame), (m, d)) h =
      sunk-Ends (next m d) count (sink frame s) (λ c t. h frame c t refl)

  receive_frames-Ends :
      (fuel : ℕ) (m d : Reader) (count : ℕ) (s : S)
      → to_come m < fuel
      → Ends (receive_frames fuel m d count s)
  unfolding receive_frames
  receive_frames-Ends zero m d count s h = absurd (omega arith)
  receive_frames-Ends (suc fuel) m d count s h =
      folded-Ends (λ m' d' c t. receive_frames fuel m' d' c t) count s (receive_one J m d limits)
        λ frame c t e.
          receive_frames-Ends fuel (receive_one J m d limits).1.0 (receive_one J m d limits).1.1 c t
            (omega (arith, receive_one_shorter m d frame e))

  -- From any two streams, errors included, and with any sink, the receiver comes to an end.
  pub receive_all-Ends :
      (m d : Reader) (s : S) → (r : Result ReceiverError ℕ) × ((receive_all m d s).0 ≡ some r)
  unfolding receive_all
  receive_all-Ends m d s = receive_frames-Ends (suc (to_come m)) m d 0 s (omega arith)
