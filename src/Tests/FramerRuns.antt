-- ===== src/Tests/FramerRuns.antt =====
-- The runs of the framer that ext/hyper_ruby/src/syslog/framing.rs has as unit tests, with a line
-- codec that stands for the one of tokio-util: what each call gives, and the buffer where it is looked
-- at.
mod Octets
mod Lines
mod Splits
use hyper_ruby.Common.{
  ℕ, zero, suc, ◌-◌, [], ◌∷◌, ◌++◌, List, map, none, some, ◌≡◌, refl, take, drop, length, Bytes,
  Result, ok, err,
}
use hyper_ruby.Rust.Utf8.{from_utf8}
use hyper_ruby.Rust.Parse.{parse_usize}
use hyper_ruby.Http.Text.{codes}
use hyper_ruby.Syslog.Framing.{
  Framer, position, entry_state, octet_decode, get_range, new, decode, decode_eof,
}
use hyper_ruby.Syslog.Framing.Lines.{
  fatal, recoverable, oversize, invalid_utf8, invalid_length, FrameError, FrameResult,
  without_carriage_return,
}
use hyper_ruby.Syslog.Framing.Stream.{receive, decode_all}
use hyper_ruby.Tests.LineCodec.{test_lines, decode_line, decode_last}

pub data Call : Type 0 where
  put : Bytes → Call
  call call_eof look : Call

pub data Seen : Type 0 where
  gave : FrameResult → Seen
  holds : Bytes → Seen

pub record FramerTest : Type 0 where
  pub max_length : ℕ
  pub calls : List Call
  pub expected : List Seen

unfoldable pub observe : Framer test_lines.Codec → Bytes → List Call → List Seen
unfolding decode decode_eof entry_state octet_decode position get_range from_utf8 parse_usize
    decode_line decode_last without_carriage_return
observe f src [] = []
observe f src (put bs ∷ calls) = observe f (src ++ bs) calls
observe f src (call ∷ calls) =
    let (g, rest, r) = decode test_lines f src in gave r ∷ observe g rest calls
observe f src (call_eof ∷ calls) =
    let (g, rest, r) = decode_eof test_lines f src in gave r ∷ observe g rest calls
observe f src (look ∷ calls) = holds src ∷ observe f src calls

abbrev pub Passes : FramerTest → Type 0
Passes t = observe (new test_lines t.max_length) [] t.calls ≡ t.expected
