-- ===== src/Tests/LineCodec.antt =====
-- A line codec: lines end with a line feed, an overlong one is reported once and then discarded.
use hyper_ruby.Common.{
  ℕ, ◌+◌, [], ◌∷◌, ◌≢◌, ◌∙◌, Bool, true, false, Option, none, some, ◌≡◌, refl, arith, ltb,
  if◌then◌else◌, length, take, drop, Bytes, ok, err,
}
use hyper_ruby.Rust.Utf8.{from_utf8}
use hyper_ruby.Syslog.Framing.{position}
use hyper_ruby.Http.Request.{is_nil}
use hyper_ruby.Syslog.Framing.Lines.{
  LinesCodec, IsLinesCodec, max_line_length_exceeded, io, LineResult, without_carriage_return,
}

-- The maximum, and whether an overlong line is being discarded.
abbrev pub Codec : Type 0
Codec = ℕ × Bool

unfoldable pub text : Bytes → LineResult
text line = if from_utf8 line then ok (some line) else err io

-- Where no line is being discarded.
unfoldable pub read_line : ℕ → Bytes → Option ℕ → Codec × Bytes × LineResult
unfolding text without_carriage_return
read_line m src (some n) =
    if ltb m n
    then ((m, true), src, err max_line_length_exceeded)
    else ((m, false), drop (n + 1) src, text (without_carriage_return (take n src)))
read_line m src none =
    if ltb m (length src)
    then ((m, true), src, err max_line_length_exceeded)
    else ((m, false), src, ok none)

-- Behind the end of a line that is being discarded, the next line is read.
unfoldable pub at_newline : Codec → Bytes → Option ℕ → Codec × Bytes × LineResult
unfolding read_line
at_newline (m, true) src (some n) =
    let rest = drop (n + 1) src in read_line m rest (position b'\n' rest)
at_newline (m, true) src none = ((m, true), [], ok none)
at_newline (m, false) src n = read_line m src n

unfoldable pub decode_line : Codec → Bytes → Codec × Bytes × LineResult
unfolding at_newline
decode_line c [] = (c, [], ok none)
decode_line c (b ∷ bs) = at_newline c (b ∷ bs) (position b'\n' (b ∷ bs))

-- What is left, unless it is nothing or a carriage return.
unfoldable pub remainder : Codec → Bytes → Codec × Bytes × LineResult
unfolding text without_carriage_return
remainder c src =
    if is_nil (without_carriage_return src)
    then (c, src, ok none)
    else (c, [], text (without_carriage_return src))

unfoldable pub left_over : Codec × Bytes × LineResult → Codec × Bytes × LineResult
unfolding remainder
left_over (c, src, ok none) = remainder c src
left_over (c, src, ok (some line)) = (c, src, ok (some line))
left_over (c, src, err e) = (c, src, err e)

unfoldable pub decode_last : Codec → Bytes → Codec × Bytes × LineResult
unfolding decode_line left_over
decode_last c src = left_over (decode_line c src)

pub is_nil-cons : (src : Bytes) → src ≢ [] → is_nil src ≡ false
is_nil-cons [] ne = absurd (ne refl)
is_nil-cons (b ∷ bs) ne = refl

abbrev pub test_lines : LinesCodec
test_lines = record {
  Codec = Codec;
  new_with_max_length = λ n. (n, false);
  max_length = λ c. c.0;
  decode = decode_line;
  decode_eof = decode_last;
}

text-string : (src line : Bytes) → text src ≡ ok (some line) → from_utf8 line ≡ true
unfolding text
text-string src line h = ground arith

max_length-read_line : (m : ℕ) (src : Bytes) (n : Option ℕ) → (read_line m src n).0.0 ≡ m
unfolding read_line
max_length-read_line m src (some n) = ground arith
max_length-read_line m src none = ground arith

max_length-at_newline : (c : Codec) (src : Bytes) (n : Option ℕ) → (at_newline c src n).0.0 ≡ c.0
unfolding at_newline
max_length-at_newline (m, true) src (some n) = max_length-read_line m _ _
max_length-at_newline (m, true) src none = refl
max_length-at_newline (m, false) src n = max_length-read_line m src n

read_line-string :
    (m : ℕ) (src line : Bytes) (n : Option ℕ)
    → (read_line m src n).2 ≡ ok (some line)
    → from_utf8 line ≡ true
unfolding read_line
read_line-string m src line (some n) h =
    ground (arith, text-string (without_carriage_return (take n src)) line)
read_line-string m src line none h = ground arith

at_newline-string :
    (c : Codec) (src line : Bytes) (n : Option ℕ)
    → (at_newline c src n).2 ≡ ok (some line)
    → from_utf8 line ≡ true
unfolding at_newline
at_newline-string (m, true) src line (some n) h = read_line-string m _ line _ h
at_newline-string (m, true) src line none h = cc
at_newline-string (m, false) src line n h = read_line-string m src line n h

max_length-decode_line : (c : Codec) (src : Bytes) → (decode_line c src).0.0 ≡ c.0
unfolding decode_line
max_length-decode_line c [] = refl
max_length-decode_line c (b ∷ bs) = max_length-at_newline c (b ∷ bs) (position b'\n' (b ∷ bs))

decode_line-string :
    (c : Codec) (src line : Bytes) → (decode_line c src).2 ≡ ok (some line) → from_utf8 line ≡ true
unfolding decode_line
decode_line-string c [] line h = cc
decode_line-string c (b ∷ bs) line h = at_newline-string c (b ∷ bs) line (position b'\n' (b ∷ bs)) h

max_length-left_over : (r : Codec × Bytes × LineResult) → (left_over r).0.0 ≡ r.0.0
unfolding left_over remainder
max_length-left_over (c, src, ok none) = ground arith
max_length-left_over (c, src, ok (some line)) = refl
max_length-left_over (c, src, err e) = refl

left_over-string :
    (r : Codec × Bytes × LineResult) (line : Bytes)
    → ((found : Bytes) → r.2 ≡ ok (some found) → from_utf8 found ≡ true)
    → (left_over r).2 ≡ ok (some line)
    → from_utf8 line ≡ true
unfolding left_over remainder
left_over-string (c, src, ok none) line f h =
    ground (arith, text-string (without_carriage_return src) line)
left_over-string (c, src, ok (some found)) line f h = f line h
left_over-string (c, src, err e) line f h = cc

max_length-decode_last : (c : Codec) (src : Bytes) → (decode_last c src).0.0 ≡ c.0
unfolding decode_last
max_length-decode_last c src =
    max_length-left_over (decode_line c src) ∙ max_length-decode_line c src

decode_last-string :
    (c : Codec) (src line : Bytes) → (decode_last c src).2 ≡ ok (some line) → from_utf8 line ≡ true
unfolding decode_last
decode_last-string c src line h =
    left_over-string (decode_line c src) line (decode_line-string c src) h

pub test_lines-IsLinesCodec : IsLinesCodec test_lines
unfolding decode_line decode_last
test_lines-IsLinesCodec = record {
  max_length-new = λ n. refl;
  max_length-decode = max_length-decode_line;
  max_length-decode_eof = max_length-decode_last;
  decode_nil = λ c. refl;
  decode_eof_nil = λ c. refl;
  decode_string = decode_line-string;
  decode_eof_string = decode_last-string;
}
