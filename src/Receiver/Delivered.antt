-- ===== src/Receiver/Delivered.antt =====
-- The frames that `receive_all` of src/receiver.rs gives to its sink.
use ores_otel_sidecar_rs.Prelude.{
  ℕ, zero, suc, ◌<◌, ◌≡◌, refl, ap, subst, sym, ◌∙◌, Option, none, some, List, [], ◌∷◌, Result, ok,
  err, arith, saturating_add, u64_max, take, drop,
}
use ores_otel_sidecar_rs.Stream.{Reader, Flows, content, to_come}
use ores_otel_sidecar_rs.Framing.{ReceiverError, read_bounded_line, end_of_line}
use ores_otel_sidecar_rs.Framing.Lines.{split_line, read_bounded_line-IsLineRead}
use ores_otel_sidecar_rs.Framing.Progress.{read_bounded_line-Flows, read_data-Flows}
use ores_otel_sidecar_rs.Receiver.{
  Json, ReceiverLimits, ReceiverFrame, Received, metadata_of, receive_metadata, receive_data,
  data_of, receive_frame, receive_one, parse_byte_length,
}
use ores_otel_sidecar_rs.Receiver.Frames.{IsEncoded, receive_one-IsEncoded}
use ores_otel_sidecar_rs.Receiver.All.{
  Counted, sunk, folded, receive_frames, receive_all, receive_one_shorter,
}

module _ (J : Json) (limits : ReceiverLimits) where
  -- The streams are these frames, one after the other, and the metadata ends behind the last.
  abbrev pub HoldsFrames : List ℕ → List ℕ → List (ReceiverFrame J) → Type 0
  HoldsFrames metadata_bytes data_bytes [] = metadata_bytes ≡ []
  HoldsFrames metadata_bytes data_bytes (frame ∷ frames) =
      (n : ℕ) × (line : List ℕ) × (rest : List ℕ) × IsEncoded J limits metadata_bytes data_bytes
        frame.metadata n line rest
      × (frame.data_bytes ≡ take n data_bytes)
      × HoldsFrames rest (drop n data_bytes) frames

module _ (J : Json) {S : Type 0} (sink : ReceiverFrame J → S → Result ReceiverError (Unit {0}) × S)
    (limits : ReceiverLimits) where
  -- The reference: the sink takes a list of frames, up to the first that it refuses.
  abbrev pub given :
      (ℕ → S → Result ReceiverError ℕ × S)
      → ℕ
      → Result ReceiverError (Unit {0}) × S
      → Result ReceiverError ℕ × S
  given next count (ok _, s) = next (saturating_add count 1) s
  given next count (err e, s) = (err e, s)

  unfoldable pub deliver : List (ReceiverFrame J) → ℕ → S → Result ReceiverError ℕ × S
  deliver [] count s = (ok count, s)
  deliver (frame ∷ frames) count s = given (λ c t. deliver frames c t) count (sink frame s)

  data_of-Flows :
      (d : Reader) (n : Result ReceiverError ℕ) → Flows d.source → Flows (data_of J d n).1.source
  unfolding data_of
  data_of-Flows d (err e) f = f
  data_of-Flows d (ok n) f = read_data-Flows d n f

  receive_frame-Flows :
      (m d : Reader) (r : Result ReceiverError (Option J.Value))
      → Flows m.source
      → Flows d.source
      → let (_, after) = receive_frame J d limits (r, m) in
        Flows after.0.source × Flows after.1.source
  unfolding receive_frame receive_data
  receive_frame-Flows m d (err e) fm fd = (fm, fd)
  receive_frame-Flows m d (ok none) fm fd = (fm, fd)
  receive_frame-Flows m d (ok (some v)) fm fd =
      (fm, data_of-Flows d (parse_byte_length J v limits.max_data_chunk_bytes) fd)

  receive_one-Flows :
      (m d : Reader)
      → Flows m.source
      → Flows d.source
      → let (_, after) = receive_one J m d limits in Flows after.0.source × Flows after.1.source
  unfolding receive_one receive_metadata
  receive_one-Flows m d fm fd =
      receive_frame-Flows (read_bounded_line m limits.max_metadata_line_bytes).1 d _
        (read_bounded_line-Flows m limits.max_metadata_line_bytes fm) fd

  at_the_end :
      (m d : Reader)
      → limits.max_metadata_line_bytes < u64_max
      → Flows m.source
      → content m ≡ []
      → (receive_one J m d limits).0 ≡ ok none
  unfolding receive_one receive_frame receive_metadata metadata_of split_line end_of_line
  at_the_end m d small fm empty =
      let l = (read_bounded_line-IsLineRead m limits.max_metadata_line_bytes small fm).line in
      ground (arith, l, empty)

  folded-ended :
      (next : Reader → Reader → ℕ → S → Counted J sink limits) (count : ℕ) (s : S) (r : Received J)
      → r.0 ≡ ok none
      → folded J sink limits next count s r ≡ (some (ok count), s)
  folded-ended next count s (err e, rest) h = cc
  folded-ended next count s (ok none, rest) h = refl
  folded-ended next count s (ok (some frame), rest) h = cc

  abbrev result_of : Result ReceiverError ℕ × S → Counted J sink limits
  result_of r = (some r.0, r.1)

  sunk-given :
      (next : ℕ → S → Counted J sink limits) (later : ℕ → S → Result ReceiverError ℕ × S)
      (count : ℕ) (r : Result ReceiverError (Unit {0}) × S)
      → ((c : ℕ) (t : S) → next c t ≡ result_of (later c t))
      → sunk J sink limits next count r ≡ result_of (given later count r)
  sunk-given next later count (ok _, s) h = h (saturating_add count 1) s
  sunk-given next later count (err e, s) h = refl

  folded-sunk :
      (next : Reader → Reader → ℕ → S → Counted J sink limits) (count : ℕ) (s : S) (r : Received J)
      (frame : ReceiverFrame J)
      → r.0 ≡ ok (some frame)
      → folded J sink limits next count s r
        ≡ sunk J sink limits (next r.1.0 r.1.1) count (sink frame s)
  folded-sunk next count s (err e, rest) frame h = cc
  folded-sunk next count s (ok none, rest) frame h = ground arith
  folded-sunk next count s (ok (some f), (m, d)) frame h =
      ap (λ x. sunk J sink limits (next m d) count (sink x s)) (some_frame f frame h)
    where
      some_frame :
          (f g : ReceiverFrame J)
          → ◌≡◌ {A = Result ReceiverError (Option (ReceiverFrame J))} (ok (some f)) (ok (some g))
          → f ≡ g
      some_frame f g h = cc

  receive_frames-deliver :
      (fuel : ℕ) (m d : Reader) (count : ℕ) (s : S) (frames : List (ReceiverFrame J))
      → limits.max_metadata_line_bytes < u64_max
      → to_come m < fuel
      → Flows m.source
      → Flows d.source
      → HoldsFrames J limits (content m) (content d) frames
      → receive_frames J sink limits fuel m d count s ≡ result_of (deliver frames count s)
  unfolding receive_frames deliver
  receive_frames-deliver zero m d count s frames small h fm fd holds = absurd (omega arith)
  receive_frames-deliver (suc fuel) m d count s [] small h fm fd holds =
      folded-ended (λ m' d' c t. receive_frames J sink limits fuel m' d' c t) count s
        (receive_one J m d limits) (at_the_end m d small fm holds)
  receive_frames-deliver (suc fuel) m d count s (frame ∷ frames) small h fm fd
        (n, line, rest, e, taken, holds) =
      let (is_frame, at_rest, behind) =
        receive_one-IsEncoded J limits m d frame.metadata n line rest small fm fd e in
      let received : (receive_one J m d limits).0 ≡ ok (some frame) =
        is_frame
        ∙ ap (λ b. ok (some (record { metadata = frame.metadata; data_bytes = b }))) (sym taken) in
      let after = (receive_one J m d limits).1 in
      let (fm', fd') = receive_one-Flows m d fm fd in
      folded-sunk (λ m' d' c t. receive_frames J sink limits fuel m' d' c t) count s
        (receive_one J m d limits) frame received
      ∙ sunk-given (receive_frames J sink limits fuel after.0 after.1) (deliver frames) count
          (sink frame s)
          λ c t.
            receive_frames-deliver fuel after.0 after.1 c t frames small
              (omega (arith, receive_one_shorter J sink limits m d frame received)) fm' fd'
              (subst (λ x. HoldsFrames J limits x (content after.1) frames) (sym at_rest)
                (subst (λ x. HoldsFrames J limits rest x frames) (sym behind) holds))

  -- From two streams without errors that are a list of frames, whatever the sizes of their chunks
  -- and if the bound of a line is below the greatest size, the receiver ends, and its count or
  -- error and what it leaves of the sink are those of giving the sink these frames in order, up to
  -- the first that it refuses.
  pub receive_all-deliver :
      (m d : Reader) (s : S) (frames : List (ReceiverFrame J))
      → limits.max_metadata_line_bytes < u64_max
      → Flows m.source
      → Flows d.source
      → HoldsFrames J limits (content m) (content d) frames
      → receive_all J sink limits m d s ≡ (some (deliver frames 0 s).0, (deliver frames 0 s).1)
  unfolding receive_all
  receive_all-deliver m d s frames small fm fd holds =
      receive_frames-deliver (suc (to_come m)) m d 0 s frames small (omega arith) fm fd holds
