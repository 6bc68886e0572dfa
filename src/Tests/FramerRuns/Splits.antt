-- ===== src/Tests/FramerRuns/Splits.antt =====
-- The unit tests of framing.rs on reads that cut the stream.
use hyper_ruby.Common.{
  ℕ, zero, suc, ◌-◌, [], ◌∷◌, ◌++◌, List, map, ◌≡◌, refl, take, drop, length, Bytes, Result,
}
use hyper_ruby.Rust.Utf8.{from_utf8}
use hyper_ruby.Rust.Parse.{parse_usize}
use hyper_ruby.Http.Text.{codes}
use hyper_ruby.Syslog.Framing.{position, entry_state, octet_decode, get_range, new, decode}
use hyper_ruby.Syslog.Framing.Lines.{FrameError, without_carriage_return}
use hyper_ruby.Syslog.Framing.Stream.{receive, decode_all}
use hyper_ruby.Tests.LineCodec.{test_lines, decode_line}

-- What the decoding of all reads gives.
unfoldable decoded : List Bytes → List (Result FrameError Bytes)
unfolding receive new decode_all decode entry_state octet_decode position get_range from_utf8
    parse_usize decode_line without_carriage_return
decoded chunks = (receive test_lines (new test_lines 64) [] chunks).0

unfoldable one_to : ℕ → List ℕ
one_to zero = []
one_to (suc n) = suc n ∷ one_to n

abbrev splits : Bytes → List ℕ
splits input = one_to (length input - 1)

-- Each split into two reads gives what one read gives.
abbrev FramesDecodeIdenticallyAtEverySplitPoint : Bytes → Type 0
FramesDecodeIdenticallyAtEverySplitPoint input =
    map (λ split. decoded (take split input ∷ drop split input ∷ [])) (splits input)
    ≡ map (λ split. decoded (input ∷ [])) (splits input)

at_every_split_point_frames_and_lines : FramesDecodeIdenticallyAtEverySplitPoint (
    codes "11 hello there7 goodbye<13>newline"
    ++ (b'\n' ∷ codes "<13>another" ++ (b'\r' ∷ b'\n' ∷ [])))
unfolding one_to decoded
at_every_split_point_frames_and_lines = refl

at_every_split_point_line_between :
    FramesDecodeIdenticallyAtEverySplitPoint
      (codes "5 first<13>second" ++ (b'\n' ∷ codes "6 third" ++ (b'\n' ∷ [])))
unfolding one_to decoded
at_every_split_point_line_between = refl

at_every_split_point_line :
    FramesDecodeIdenticallyAtEverySplitPoint (codes "<13>only a line" ++ (b'\n' ∷ []))
unfolding one_to decoded
at_every_split_point_line = refl

at_every_split_point_embedded :
    FramesDecodeIdenticallyAtEverySplitPoint
      (codes "13 embedded" ++ (b'\n' ∷ codes "line<13>after" ++ (b'\n' ∷ [])))
unfolding one_to decoded
at_every_split_point_embedded = refl

abbrev FramesDecodeIdenticallyByteAtATime : Bytes → Type 0
FramesDecodeIdenticallyByteAtATime input = decoded (map (λ b. b ∷ []) input) ≡ decoded (input ∷ [])

byte_at_a_time_frames_and_lines :
    FramesDecodeIdenticallyByteAtATime
      (codes "11 hello there<13>newline" ++ (b'\n' ∷ codes "7 goodbye"))
unfolding decoded
byte_at_a_time_frames_and_lines = refl
