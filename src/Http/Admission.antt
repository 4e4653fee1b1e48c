-- ===== src/Http/Admission.antt =====
-- The requests that `read_request` of src/http.rs accepts.
use ores_otel_sidecar_rs.Prelude.{
  inl, inr, ℕ, ◌+◌, ◌≤◌, ◌≡◌, refl, Bool, true, false, ◌||◌, Option, none, some, List, [], ◌∷◌, ltb,
  if◌then◌else◌, arith, Result, ok, err, ◌>>=◌, Bool-cases, bind_ok, Text, codes, byte_len,
  is_empty, strip_prefix, length, any, All,
}
use ores_otel_sidecar_rs.Strings.{
  trim, contains_char, contains_text, starts_with, to_ascii_lowercase, parse_u64,
}
use ores_otel_sidecar_rs.Http.{
  Method, Route, Reject, Request, accepted, or_zero, Lines, max_headers, max_header_line,
  max_request_line, is_blank, Headers, with_line, content_length_of, host_of, read_headers,
  read_request, classify_request_line, with_headers, default_headers, rejected,
}

abbrev before_lines : Text → Option (List Text) → Option (List Text)
before_lines line none = none
before_lines line (some hs) = some (line ∷ hs)

-- The reference: the header lines up to a blank line or the end, if each of them is short.
unfoldable pub header_block : Lines → Option (List Text)
header_block [] = some []
header_block (err e ∷ lines) = none
header_block (ok line ∷ lines) =
    let rest = before_lines line (header_block lines) in
    if is_empty line
    then some []
    else if ltb max_header_line (byte_len line)
    then none
    else if is_blank line
    then some []
    else rest

abbrev is_host : Text → Bool
is_host h = starts_with (codes "host:") (to_ascii_lowercase h)

abbrev ZeroLength : Option Text → Type 0
ZeroLength none = Unit
ZeroLength (some rest) = parse_u64 (trim rest) ≡ some 0

-- A header that announces no body.
pub record IsPlain (h : Text) : Type 0 where
  pub no_nul : contains_char 0 h ≡ false
  pub named : contains_char b':' h ≡ true
  pub no_expect : starts_with (codes "expect:") (to_ascii_lowercase h) ≡ false
  pub no_chunks : starts_with (codes "transfer-encoding:") (to_ascii_lowercase h) ≡ false
  pub no_length : ZeroLength (strip_prefix (codes "content-length:") (to_ascii_lowercase h))

abbrev NoBody : Option ℕ → Type 0
NoBody o = or_zero o ≡ 0

content_length_of-NoBody :
    (old new : Option ℕ) (o : Option Text)
    → content_length_of old o ≡ ok new
    → NoBody new
    → NoBody old × ZeroLength o
unfolding content_length_of
content_length_of-NoBody old new o h z = ground arith

record IsNext (s : Headers) (h : Text) (s' : Headers) : Type 0 where
  counted : s'.count ≡ s.count + 1
  few : s'.count ≤ max_headers
  hosted : s'.saw_host ≡ (is_host h || s.saw_host)
  bodiless : NoBody s'.content_length → NoBody s.content_length × IsPlain h

host_of-eq : (old new : Bool) (h : Text) → host_of old h ≡ ok new → new ≡ (is_host h || old)
unfolding host_of
host_of-eq old new h e = ground arith

with_line-IsNext : (s s' : Headers) (h : Text) → with_line s h ≡ ok s' → IsNext s h s'
unfolding with_line
with_line-IsNext s s' h e = ground (
  arith,
  host_of-eq s.saw_host s'.saw_host h,
  content_length_of-NoBody s.content_length s'.content_length
      (strip_prefix (codes "content-length:") (to_ascii_lowercase h)),
)

-- What the header lines are, after which the headers are known.
record IsRead (s : Headers) (lines : Lines) (final : Headers) (hs : List Text) : Type 0 where
  block : header_block lines ≡ some hs
  counted : final.count ≡ s.count + length hs
  few : s.count ≤ max_headers → final.count ≤ max_headers
  hosted : final.saw_host ≡ (any is_host hs || s.saw_host)
  bodiless : NoBody final.content_length → NoBody s.content_length × All IsPlain hs

next_line :
    (line : Text) (lines : Lines) (s final : Headers)
    → is_empty line ≡ false
    → is_blank line ≡ false
    → read_headers s (ok line ∷ lines) ≡ ok final
    → (ltb max_header_line (byte_len line) ≡ false)
      × ((with_line s line >>= λ s'. read_headers s' lines) ≡ ok final)
unfolding read_headers
next_line line lines s final full more e = ground arith

IsRead-cons :
    (line : Text) (lines : Lines) (s s' final : Headers) (hs : List Text)
    → is_empty line ≡ false
    → is_blank line ≡ false
    → ltb max_header_line (byte_len line) ≡ false
    → IsNext s line s'
    → IsRead s' lines final hs
    → IsRead s (ok line ∷ lines) final (line ∷ hs)
unfolding header_block
IsRead-cons line lines s s' final hs full more short next rest = ground arith

read_headers-IsRead :
    (lines : Lines) (s final : Headers)
    → read_headers s lines ≡ ok final
    → (hs : List Text) × IsRead s lines final hs
unfolding read_headers header_block
read_headers-IsRead [] s final e = ([], ground arith)
read_headers-IsRead (err x ∷ lines) s final e = cc
read_headers-IsRead (ok line ∷ lines) s final e = elim (Bool-cases (is_empty line)) [
  | inl h ↦ ([], ground arith)
  | inr h ↦ elim (Bool-cases (is_blank line)) [
    | inl b ↦ ([], ground arith)
    | inr b ↦
        let more = next_line line lines s final h b e in
        let (s', step, run) = bind_ok more.1 in
        let (hs, rest) = read_headers-IsRead lines s' final run in
        (
          line ∷ hs,
          IsRead-cons line lines s s' final hs h b more.0 (with_line-IsNext s s' line step) rest,
        )
  ]
]

-- A request that is answered, from its first line and its other lines.
pub record IsAdmitted (line : Text) (rest : Lines) (m : Method) (r : Route) : Type 0 where
  pub headers : List Text
  pub short : byte_len line ≤ max_request_line
  pub classified : classify_request_line line ≡ accepted m r
  pub block : header_block rest ≡ some headers
  pub few : length headers ≤ max_headers
  pub plain : All IsPlain headers
  pub hosted : contains_text (codes "HTTP/1.1") line ≡ true → any is_host headers ≡ true

with_headers-accepted :
    (http11 : Bool) (c : Request) (res : Result Reject Headers) (m : Method) (r : Route)
    → with_headers http11 c res ≡ accepted m r
    → (h : Headers) × (res ≡ ok h)
      × (c ≡ accepted m r)
      × (http11 ≡ true → h.saw_host ≡ true)
      × NoBody h.content_length
unfolding with_headers
with_headers-accepted http11 c (err x) m r e = cc
with_headers-accepted http11 (rejected x) (ok h) m r e = ground arith
with_headers-accepted http11 (accepted m' r') (ok h) m r e =
    (h, refl, ground arith, ground arith, ground arith)

read_request-lines :
    (line : Text) (rest : Lines) (m : Method) (r : Route)
    → read_request (ok line ∷ rest) ≡ accepted m r
    → (byte_len line ≤ max_request_line)
      × (with_headers
            (contains_text (codes "HTTP/1.1") line)
            (classify_request_line line)
            (read_headers default_headers rest)
          ≡ accepted m r)
unfolding read_request
read_request-lines line rest m r e = ground arith

-- A request that is answered has a first line of at most 2048 bytes and a block of at most 32
-- header lines, each of at most 1024 bytes and with a colon, none of which announces a body, an
-- encoding of one or an expectation; a request that names HTTP/1.1 has a host line.
pub read_request-IsAdmitted :
    (line : Text) (rest : Lines) (m : Method) (r : Route)
    → read_request (ok line ∷ rest) ≡ accepted m r
    → IsAdmitted line rest m r
read_request-IsAdmitted line rest m r e =
    let (short, more) = read_request-lines line rest m r e in
    let (h, run, classified, hosted, empty) =
      with_headers-accepted (contains_text (codes "HTTP/1.1") line) (classify_request_line line)
        (read_headers default_headers rest) m r more in
    let (hs, read) = read_headers-IsRead rest default_headers h run in
    record {
      headers = hs;
      short = short;
      classified = classified;
      block = read.block;
      few = ground (arith, read.counted, read.few);
      plain = (read.bodiless empty).1;
      hosted = ground (arith, read.hosted, hosted);
    }
