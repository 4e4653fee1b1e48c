-- ===== src/Framing/Lines.antt =====
-- The line that `read_bounded_line` of src/receiver.rs returns, whatever the chunks.
use ores_otel_sidecar_rs.Prelude.{
  ℕ, suc, ◌≤◌, ◌<◌, ◌≡◌, refl, Option, none, some, List, [], ◌∷◌, ◌++◌, ltb, if◌then◌else◌, u64_max,
  ok, err, arith, subst, sym, ap, ◌∙◌, append_assoc, append-nil, length, length-append, take, drop,
  position, is_empty, ◌==◌, ◌||◌,
}
use mathlib.Core.Option
use ores_otel_sidecar_rs.Strings.{trim_end}
use ores_otel_sidecar_rs.Strings.Trim.{IsTrimmed, trim_end-IsTrimmed}
use ores_otel_sidecar_rs.Stream.{Fill, chunk, broken, Reader, Flows, incoming, content}
use ores_otel_sidecar_rs.Framing.{
  metadata_too_large, truncated_metadata, is_newline, trim_line, Line, Turn, done, again,
  end_of_line, line_taken, line_turn, line_loop, start_line, read_bounded_line,
}

abbrev before : List ℕ → Option (List ℕ × List ℕ) → Option (List ℕ × List ℕ)
before line none = none
before line (some (l, rest)) = some (line ++ l, rest)

-- The first line with its newline, and the bytes after it.
unfoldable pub split_line : List ℕ → Option (List ℕ × List ℕ)
split_line [] = none
split_line (b ∷ bs) =
    let rest = before (b ∷ []) (split_line bs) in if is_newline b then some (b ∷ [], bs) else rest

-- The reference, on the bytes of the stream: the first line without its end, if it fits.
abbrev first_line : ℕ → List ℕ → Option (List ℕ × List ℕ) → Line
first_line maximum s none =
    if ltb maximum (length s)
    then err metadata_too_large
    else if is_empty s
    then ok none
    else err truncated_metadata
first_line maximum s (some (l, rest)) =
    if ltb maximum (length l) then err metadata_too_large else ok (some (trim_line l))

abbrev rest_of : Option (List ℕ × List ℕ) → List ℕ
rest_of none = []
rest_of (some (l, rest)) = rest

-- What a line holds: it without the line ends behind it.
abbrev pub IsContent : Option (List ℕ × List ℕ) → List ℕ → Type 0
IsContent none l = ⊥
IsContent (some (line, rest)) l = IsTrimmed (λ b. b == b'\n' || b == b'\r') line l

-- The line is the reference's without its line ends, and after a line the stream goes on behind its
-- newline.
pub record IsLineRead (maximum : ℕ) (s : List ℕ) (r : Line) (after : Reader) : Type 0 where
  pub line : r ≡ first_line maximum s (split_line s)
  pub trimmed : (l : List ℕ) → r ≡ ok (some l) → IsContent (split_line s) l
  pub behind : (l : List ℕ) → r ≡ ok (some l) → content after ≡ rest_of (split_line s)

trim_line-trim_end : (l : List ℕ) → trim_line l ≡ trim_end (λ b. b == b'\n' || b == b'\r') l
unfolding trim_line trim_end
trim_line-trim_end [] = refl
trim_line-trim_end (b ∷ l) = rw (trim_line-trim_end l) refl

first_line-IsContent :
    (maximum : ℕ) (s : List ℕ) (o : Option (List ℕ × List ℕ)) (l : List ℕ)
    → first_line maximum s o ≡ ok (some l)
    → IsContent o l
first_line-IsContent maximum s none l h = ground arith
first_line-IsContent maximum s (some (line, rest)) l h =
    let same : trim_line line ≡ l = ground arith in
    subst (IsTrimmed (λ b. b == b'\n' || b == b'\r') line) (sym (trim_line-trim_end line) ∙ same)
      (trim_end-IsTrimmed (λ b. b == b'\n' || b == b'\r') line)

-- How the loop leaves it: what it returns, and what follows it.
record IsCut (maximum : ℕ) (s : List ℕ) (r : Line) (after : Reader) : Type 0 where
  line : r ≡ first_line maximum s (split_line s)
  behind : (l : List ℕ) → r ≡ ok (some l) → content after ≡ rest_of (split_line s)

before-before :
    (l m : List ℕ) (o : Option (List ℕ × List ℕ)) → before l (before m o) ≡ before (l ++ m) o
before-before l m none = refl
before-before l m (some (x, rest)) = ap (λ y. some (y, rest)) (sym (append_assoc l m x))

split_line-append :
    (line t : List ℕ) → split_line line ≡ none → split_line (line ++ t) ≡ before line (split_line t)
unfolding split_line
split_line-append [] t h = ground arith
split_line-append (b ∷ line) t h =
    ground (arith, split_line-append line t, before-before (b ∷ []) line (split_line t))

-- The split, by the position of the newline.
abbrev cut : List ℕ → List ℕ → Option ℕ → Option (List ℕ × List ℕ)
cut bs t none = before bs (split_line t)
cut bs t (some p) = some (take (suc p) bs, drop (suc p) bs ++ t)

cut-suc :
    (b : ℕ) (bs t : List ℕ) (o : Option ℕ)
    → cut (b ∷ bs) t (Option.map suc o) ≡ before (b ∷ []) (cut bs t o)
cut-suc b bs t none = sym (before-before (b ∷ []) bs (split_line t))
cut-suc b bs t (some p) = refl

split_line-position : (bs t : List ℕ) → split_line (bs ++ t) ≡ cut bs t (position is_newline bs)
unfolding split_line
split_line-position [] t = ground arith
split_line-position (b ∷ bs) t =
    ground (arith, split_line-position bs t, cut-suc b bs t (position is_newline bs))

position-none : (bs : List ℕ) → position is_newline bs ≡ none → split_line bs ≡ none
unfolding split_line
position-none [] h = refl
position-none (b ∷ bs) h = ground (arith, position-none bs)

abbrev IsTaken : List ℕ → Option ℕ → Type 0
IsTaken bs none = Unit
IsTaken bs (some p) = length (take (suc p) bs) ≡ suc p

IsTaken-suc :
    (b : ℕ) (bs : List ℕ) (o : Option ℕ) → IsTaken bs o → IsTaken (b ∷ bs) (Option.map suc o)
IsTaken-suc b bs none h = tt
IsTaken-suc b bs (some p) h = ap suc h

position-IsTaken : (bs : List ℕ) → IsTaken bs (position is_newline bs)
position-IsTaken [] = tt
position-IsTaken (b ∷ bs) =
    ground (arith, IsTaken-suc b bs (position is_newline bs) (position-IsTaken bs))

before-none : (l : List ℕ) (o : Option (List ℕ × List ℕ)) → before l o ≡ none → o ≡ none
before-none l none h = refl
before-none l (some (x, rest)) h = cc

-- More bytes than the bound without a newline are too many, whatever follows.
first_line_overlong :
    (maximum : ℕ) (line t : List ℕ)
    → split_line line ≡ none
    → maximum < length line
    → first_line maximum (line ++ t) (split_line (line ++ t)) ≡ err metadata_too_large
first_line_overlong maximum line t h over = go (split_line t) (split_line-append line t h)
  where
    go :
        (o : Option (List ℕ × List ℕ))
        → split_line (line ++ t) ≡ before line o
        → first_line maximum (line ++ t) (split_line (line ++ t)) ≡ err metadata_too_large
    go none e = ground (arith, e, length-append line t)
    go (some (l, rest)) e = ground (arith, e, length-append line l)

module _ (maximum : ℕ) (fits : maximum < u64_max) where
  -- One turn: the line is found or known to be too long, or the bytes are added to it.
  abbrev IsTurn : List ℕ → List ℕ → List ℕ → Turn Line (List ℕ) → Type 0
  IsTurn line available t (done r rest) =
      let s = line ++ (available ++ t) in
      (r ≡ first_line maximum s (split_line s))
      × ((l : List ℕ) → r ≡ ok (some l) → rest ++ t ≡ rest_of (split_line s))
  IsTurn line available t (again l) =
      (l ≡ line ++ available) × (split_line l ≡ none) × (length l ≤ maximum)

  line_taken-IsTurn :
      (line available t : List ℕ) (o : Option ℕ)
      → position is_newline available ≡ o
      → split_line line ≡ none
      → IsTurn line available t (line_taken maximum line available o)
  unfolding line_taken
  line_taken-IsTurn line available t (some p) e h =
      let found : split_line (line ++ (available ++ t))
          ≡ some (line ++ take (suc p) available, drop (suc p) available ++ t) =
        split_line-append line (available ++ t) h
        ∙ ap (before line) (split_line-position available t ∙ ap (cut available t) e) in
      let taken : length (take (suc p) available) ≡ suc p =
        subst (IsTaken available) e (position-IsTaken available) in
      ground (arith, found, taken, length-append line (take (suc p) available))
  line_taken-IsTurn line available t none e h =
      let unended : split_line (line ++ available) ≡ none =
        split_line-append line available h ∙ ap (before line) (position-none available e) in
      ground (
        arith,
        length-append line available,
        unended,
        append_assoc line available t,
        first_line_overlong maximum (line ++ available) t unended,
      )

  end_of_line-IsCut :
      (l : List ℕ)
      → split_line l ≡ none
      → length l ≤ maximum
      → IsCut maximum l (end_of_line l) (record { buffer = []; source = [] })
  unfolding end_of_line
  end_of_line-IsCut l h b = ground (arith, h)

  moved-IsCut :
      (line available t l : List ℕ) (r : Line) (after : Reader)
      → l ≡ line ++ available
      → IsCut maximum (l ++ t) r after
      → IsCut maximum (line ++ (available ++ t)) r after
  moved-IsCut line available t l r after e =
      subst (λ s. IsCut maximum s r after) (ap (λ k. k ++ t) e ∙ append_assoc line available t)

  line_turn-IsTurn :
      (line : List ℕ) (b : ℕ) (bs t : List ℕ)
      → split_line line ≡ none
      → IsTurn line (b ∷ bs) t (line_turn maximum line (b ∷ bs))
  unfolding line_turn
  line_turn-IsTurn line b bs t =
      line_taken-IsTurn line (b ∷ bs) t (position is_newline (b ∷ bs)) refl

  refilled :
      (line : List ℕ) (b : ℕ) (bs : List ℕ) (c : ℕ) (cs : List ℕ) (src : List Fill)
      (u : Turn Line (List ℕ))
      → IsTurn line (b ∷ bs) ((c ∷ cs) ++ incoming src) u
      → ((l : List ℕ)
          → split_line l ≡ none
          → let (r, after) = line_loop maximum l (c ∷ cs) src in
            IsCut maximum (l ++ ((c ∷ cs) ++ incoming src)) r after)
      → let (r, after) = elim u as (λ _. Line × Reader) [
        | done r rest ↦ (r, record { buffer = rest; source = chunk (c ∷ cs) ∷ src })
        | again l ↦ line_loop maximum l (c ∷ cs) src
      ] in
        IsCut maximum (line ++ ((b ∷ bs) ++ ((c ∷ cs) ++ incoming src))) r after
  refilled line b bs c cs src (done r rest) h ih = record { line = h.0; behind = h.1 }
  refilled line b bs c cs src (again l) h ih =
      moved-IsCut line (b ∷ bs) ((c ∷ cs) ++ incoming src) l _ _ h.0 (ih l h.1)

  line_loop-IsCut :
      (line : List ℕ) (b : ℕ) (bs : List ℕ) (src : List Fill)
      → split_line line ≡ none
      → Flows src
      → let (r, after) = line_loop maximum line (b ∷ bs) src in
        IsCut maximum (line ++ ((b ∷ bs) ++ incoming src)) r after
  unfolding line_loop
  line_loop-IsCut line b bs [] h f = ground (
    arith,
    line_turn-IsTurn line b bs [] h,
    append-nil (b ∷ bs),
    λ (l : List ℕ). end_of_line-IsCut l,
  )
  line_loop-IsCut line b bs (chunk [] ∷ src) h f = absurd f
  line_loop-IsCut line b bs (chunk (c ∷ cs) ∷ src) h f =
      refilled line b bs c cs src (line_turn maximum line (b ∷ bs))
        (line_turn-IsTurn line b bs ((c ∷ cs) ++ incoming src) h)
        λ l e. line_loop-IsCut l c cs src e f
  line_loop-IsCut line b bs (broken e ∷ src) h f = absurd f

  start_line-IsCut :
      (buffer : List ℕ) (src : List Fill)
      → Flows src
      → let (r, after) = start_line maximum buffer src in
        IsCut maximum (buffer ++ incoming src) r after
  unfolding start_line split_line line_loop line_turn
  start_line-IsCut (b ∷ bs) src f = line_loop-IsCut [] b bs src refl f
  start_line-IsCut [] [] f = end_of_line-IsCut [] refl (omega arith)
  start_line-IsCut [] (chunk [] ∷ src) f = absurd f
  start_line-IsCut [] (chunk (c ∷ cs) ∷ src) f = line_loop-IsCut [] c cs src refl f
  start_line-IsCut [] (broken e ∷ src) f = absurd f

-- From a stream without errors, whatever the sizes of its chunks, and if the bound is below the
-- greatest size: the line read is the first line of the stream without the `\n` and `\r` at its end,
-- or that it is too long, or that the stream ends within it, or that the stream is at its end; and
-- after a line the stream goes on right behind its newline.
pub read_bounded_line-IsLineRead :
    (reader : Reader) (maximum : ℕ)
    → maximum < u64_max
    → Flows reader.source
    → let (r, after) = read_bounded_line reader maximum in
      IsLineRead maximum (content reader) r after
unfolding read_bounded_line
read_bounded_line-IsLineRead reader maximum fits f =
    let cut_ = start_line-IsCut maximum fits reader.buffer reader.source f in
    record {
      line = cut_.line;
      trimmed = λ l h.
          first_line-IsContent maximum (content reader) (split_line (content reader)) l
            (sym cut_.line ∙ h);
      behind = cut_.behind;
    }
