-- ===== src/Tests/LineReads.antt =====
-- The line codec reads lines as the one of tokio-util does.
use hyper_ruby.Common.{
  ℕ, ◌+◌, ◌≤◌, ◌<◌, [], ◌∷◌, ◌++◌, ◌≢◌, ap, sym, ◌∙◌, drop_at, length-append, append_assoc,
  take-append, le→ltb, true, false, none, some, ◌≡◌, refl, arith, length, drop, Bytes, ok,
}
use hyper_ruby.Rust.Utf8.{from_utf8}
use hyper_ruby.Syslog.Framing.{position}
use hyper_ruby.Syslog.Framing.Lines.{IsLine, without_carriage_return, ReadsLines}
use hyper_ruby.Tests.LineCodec.{
  Codec, text, read_line, at_newline, decode_line, remainder, left_over, decode_last, is_nil-cons,
  test_lines,
}

position-IsLine : (raw : Bytes) → IsLine raw → position b'\n' raw ≡ none
unfolding position
position-IsLine [] l = refl
position-IsLine (b ∷ bs) (n, l) = ground (arith, position-IsLine bs l)

position-IsLine_append :
    (raw rest : Bytes) → IsLine raw → position b'\n' (raw ++ (b'\n' ∷ rest)) ≡ some (length raw)
unfolding position
position-IsLine_append [] rest l = refl
position-IsLine_append (b ∷ bs) rest (n, l) = ground (arith, position-IsLine_append bs rest l)

decode_line-cons :
    (c : Codec) (src : Bytes)
    → 0 < length src
    → decode_line c src ≡ at_newline c src (position b'\n' src)
unfolding decode_line
decode_line-cons c [] h = absurd (omega arith)
decode_line-cons c (b ∷ bs) h = refl

text-ok : (line : Bytes) → from_utf8 line ≡ true → text line ≡ ok (some line)
unfolding text
text-ok line h = rw h refl

abbrev IsReading : Codec → Bytes → Type 0
IsReading c seen = c.1 ≡ false

at_newline-whole :
    (m : ℕ) (raw rest : Bytes)
    → length raw ≤ m
    → from_utf8 (without_carriage_return raw) ≡ true
    → at_newline (m, false) (raw ++ (b'\n' ∷ rest)) (some (length raw))
      ≡ ((m, false), rest, ok (some (without_carriage_return raw)))
unfolding at_newline read_line
at_newline-whole m raw rest fits t =
    let tail : drop (length raw + 1) (raw ++ (b'\n' ∷ rest)) ≡ rest =
      drop_at _ (raw ++ (b'\n' ∷ [])) rest (length-append raw (b'\n' ∷ []))
        (sym (append_assoc raw (b'\n' ∷ []) rest)) in
    rw
      (
        le→ltb m (length raw) fits,
        take-append raw (b'\n' ∷ rest),
        text-ok (without_carriage_return raw) t,
        tail,
      )
      refl

reads_whole :
    (c : Codec) (seen more raw rest : Bytes)
    → IsReading c seen
    → raw ++ (b'\n' ∷ rest) ≡ seen ++ more
    → IsLine raw
    → length raw ≤ c.0
    → from_utf8 (without_carriage_return raw) ≡ true
    → (d : Codec) × (decode_line c (raw ++ (b'\n' ∷ rest))
        ≡ (d, rest, ok (some (without_carriage_return raw))))
      × IsReading d []
reads_whole (m, true) seen more raw rest r e l fits t = cc
reads_whole (m, false) seen more raw rest r e l fits t = (
  (m, false),
  decode_line-cons (m, false) (raw ++ (b'\n' ∷ rest))
        (omega (arith, length-append raw (b'\n' ∷ rest)))
      ∙ ap (at_newline (m, false) (raw ++ (b'\n' ∷ rest))) (position-IsLine_append raw rest l)
      ∙ at_newline-whole m raw rest fits t,
  refl,
)

reads_bytes :
    (m : ℕ) (src : Bytes)
    → IsLine src
    → length src ≤ m
    → decode_line (m, false) src ≡ ((m, false), src, ok none)
unfolding decode_line at_newline read_line
reads_bytes m [] l fits = refl
reads_bytes m (b ∷ bs) l fits =
    ap (at_newline (m, false) (b ∷ bs)) (position-IsLine (b ∷ bs) l)
    ∙ rw (le→ltb m (length (b ∷ bs)) fits) refl

reads_part :
    (c : Codec) (seen more : Bytes)
    → IsReading c seen
    → IsLine (seen ++ more)
    → length (seen ++ more) ≤ c.0
    → (d : Codec) × (decode_line c (seen ++ more) ≡ (d, seen ++ more, ok none))
      × IsReading d (seen ++ more)
reads_part (m, true) seen more r l fits = cc
reads_part (m, false) seen more r l fits = ((m, false), reads_bytes m (seen ++ more) l fits, refl)

left_over-line :
    (c : Codec) (src : Bytes)
    → from_utf8 (without_carriage_return src) ≡ true
    → without_carriage_return src ≢ []
    → left_over (c, src, ok none) ≡ (c, [], ok (some (without_carriage_return src)))
unfolding left_over remainder
left_over-line c src t ne =
    rw (is_nil-cons (without_carriage_return src) ne, text-ok (without_carriage_return src) t) refl

reads_last :
    (c : Codec) (seen more : Bytes)
    → IsReading c seen
    → IsLine (seen ++ more)
    → length (seen ++ more) ≤ c.0
    → from_utf8 (without_carriage_return (seen ++ more)) ≡ true
    → without_carriage_return (seen ++ more) ≢ []
    → (d : Codec) × (decode_last c (seen ++ more)
        ≡ (d, [], ok (some (without_carriage_return (seen ++ more)))))
unfolding decode_last
reads_last (m, true) seen more r l fits t ne = cc
reads_last (m, false) seen more r l fits t ne = (
  (m, false),
  ap left_over (reads_bytes m (seen ++ more) l fits)
      ∙ left_over-line (m, false) (seen ++ more) t ne,
)

pub test_lines-ReadsLines : ReadsLines test_lines
test_lines-ReadsLines = record {
  Reading = IsReading;
  new = λ n. refl;
  whole = reads_whole;
  part = reads_part;
  last = reads_last;
}

pub position-none : (raw : Bytes) → position b'\n' raw ≡ none → IsLine raw
unfolding position
position-none [] e = tt
position-none (b ∷ bs) e = (ground arith, position-none bs (ground arith))
