-- ===== src/Tests/Framing.antt =====
-- Frames, and what the framer makes of them.
use hyper_ruby.Common.{
  [], ◌∷◌, ◌++◌, true, false, List, Bytes, none, some, ◌≡◌, refl, arith, ok, err,
}
use hyper_ruby.Rust.Utf8.{from_utf8}
use hyper_ruby.Rust.Parse.{parse_usize}
use hyper_ruby.Http.Text.{codes, to_string, digits_from}
use hyper_ruby.Syslog.Framing.{position, discarding, Framer, new, decode, decode_eof, entry_state}
use hyper_ruby.Syslog.Framing.Lines.{fatal, oversize, without_carriage_return}
use hyper_ruby.Syslog.Framing.Octets.{Header, header, Denotes, Frame, octets, IsSendable}
use hyper_ruby.Syslog.Framing.Sound.{IsSound, decode-IsSound}
use hyper_ruby.Syslog.Framing.Stream.{receive}
use hyper_ruby.Syslog.Framing.Stream.Sent.{Sent, counted, line, AllSentSendable, IsLastLine}
use hyper_ruby.Syslog.Framing.Stream.Mixed.{receive-transmission}
use hyper_ruby.Syslog.Framing.Stream.Oversize.{receive-oversize}
use hyper_ruby.Syslog.Framing.Stream.Injected.{receive_injected, between}
use hyper_ruby.Tests.LineCodec.{decode_line, test_lines, test_lines-IsLinesCodec}
use hyper_ruby.Tests.LineReads.{test_lines-ReadsLines, position-none}

abbrev pub nineteen : Frame
nineteen = record {
  head = record { first = b'1'; others = b'9' ∷ [] };
  body = codes "<13>1 abc def ghi x";
}

abbrev pub three : Frame
three = record { head = record { first = b'3'; others = [] }; body = codes "a b" }

pub nineteen-IsSendable : IsSendable 200 nineteen
unfolding from_utf8 parse_usize
nineteen-IsSendable = record {
  denotes = record { starts = refl; value = refl; short = omega arith };
  fits = omega arith;
  text = refl;
  addressable = omega arith;
}

pub three-IsSendable : IsSendable 200 three
unfolding from_utf8 parse_usize
three-IsSendable = record {
  denotes = record { starts = refl; value = refl; short = omega arith };
  fits = omega arith;
  text = refl;
  addressable = omega arith;
}

-- A frame, a line that ends in a carriage return, a frame and a line that breaks off.
abbrev pub mixed : List Sent
mixed =
    counted (codes "<13>1 abc def ghi x")
    ∷ line (codes "<13>2 line" ++ (b'\r' ∷ []))
    ∷ counted (codes "a b")
    ∷ []

abbrev pub rest_of : Bytes
rest_of = codes "<13>4 end"

pub mixed-AllSentSendable : AllSentSendable 200 mixed
unfolding from_utf8 without_carriage_return position
mixed-AllSentSendable = (
  (record {
    nonempty = omega arith;
    fits = omega arith;
    text = refl;
    room = omega arith;
    addressable = omega arith;
  }),
  (
    record {
      uncounted = refl;
      no_newline = position-none (codes "<13>2 line" ++ (b'\r' ∷ [])) refl;
      fits = omega arith;
      text = refl;
    },
    (
      record {
        nonempty = omega arith;
        fits = omega arith;
        text = refl;
        room = omega arith;
        addressable = omega arith;
      },
      tt,
    ),
  ),
)

pub rest_of-IsLastLine : IsLastLine 200 rest_of
unfolding from_utf8 without_carriage_return position
rest_of-IsLastLine = record {
  unfinished = record {
    uncounted = refl;
    no_newline = position-none rest_of refl;
    fits = omega arith;
  };
  text = refl;
  not_return = λ e. cc;
}

abbrev mixed_reads : List Bytes
mixed_reads =
    codes "1"
    ∷ codes "9 <13>1 abc d"
    ∷ []
    ∷ codes "ef ghi x<13>2 l"
    ∷ (codes "ine" ++ (b'\r' ∷ []))
    ∷ ((b'\n' ∷ []) ++ codes "3 a b<13>4")
    ∷ codes " end"
    ∷ []

receive-transmission_example :
    (g : Framer test_lines.Codec) × (c : test_lines.Codec) × (receive test_lines
        (new test_lines 200)
        []
        mixed_reads
      ≡ (
        ok (codes "<13>1 abc def ghi x") ∷ ok (codes "<13>2 line") ∷ ok (codes "a b") ∷ [],
        g,
        codes "<13>4 end",
      ))
    × (decode_eof test_lines g (codes "<13>4 end")
        ≡ (record { other = c; octet_decoding = none }, [], ok (some (codes "<13>4 end"))))
unfolding without_carriage_return to_string digits_from
receive-transmission_example =
    receive-transmission test_lines test_lines-IsLinesCodec test_lines-ReadsLines 200 mixed rest_of
      mixed_reads mixed-AllSentSendable rest_of-IsLastLine refl

abbrev sixteen : Header
sixteen = record { first = b'1'; others = b'6' ∷ [] }

sixteen-Denotes : Denotes 8 sixteen 16
unfolding parse_usize
sixteen-Denotes = record { starts = refl; value = refl; short = omega arith }

receive-oversize_example :
    receive test_lines
      (new test_lines 8)
      []
      ((header sixteen ++ (b' ' ∷ codes "abcde")) ∷ (codes "fghij" ∷ codes "klmnop3 x" ∷ []))
    ≡ (err (fatal oversize) ∷ [], new test_lines 8, codes "3 x")
receive-oversize_example =
    receive-oversize test_lines test_lines-IsLinesCodec 8 sixteen 16 (codes "abcde")
      (codes "fghij" ∷ []) (codes "klmnop3 x") sixteen-Denotes (omega arith) (omega arith)
      (omega arith)

-- In the middle of an oversize body.
abbrev counting : Framer test_lines.Codec
counting = record { other = (8, false); octet_decoding = some (discarding 4) }

decode-IsSound_example :
    IsSound 8 (codes "abcdef") (decode test_lines counting (codes "abcdef"))
    × IsSound 8 (codes "abcdef") (decode_eof test_lines counting (codes "abcdef"))
unfolding entry_state
decode-IsSound_example =
    decode-IsSound test_lines counting (codes "abcdef") (discarding 4) refl (omega arith)
      (omega arith)

-- The line codec discards an overlong line whose second part is a read of its own.
receive_injected_example :
    receive test_lines (between test_lines (200, true)) [] (codes "xxxx" ∷ octets three ∷ [])
    ≡ (ok (codes "a b") ∷ [], between test_lines (200, true), [])
unfolding entry_state decode_line position
receive_injected_example =
    receive_injected test_lines test_lines-IsLinesCodec (200, true) (200, true) (codes "xxxx") three
      refl refl three-IsSendable
