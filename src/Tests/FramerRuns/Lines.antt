-- ===== src/Tests/FramerRuns/Lines.antt =====
-- The unit tests of framing.rs on lines and on the end of the stream.
use hyper_ruby.Common.{[], ◌∷◌, ◌++◌, none, some, refl, ok, err}
use hyper_ruby.Http.Text.{codes}
use hyper_ruby.Syslog.Framing.{new}
use hyper_ruby.Syslog.Framing.Lines.{fatal, recoverable, oversize, invalid_utf8}
use hyper_ruby.Tests.FramerRuns.{put, call, call_eof, gave, FramerTest, observe, Passes}

abbrev non_octet_decode_works_with_multiple_frames : FramerTest
non_octet_decode_works_with_multiple_frames = record {
  max_length = 128;
  calls =
      put (codes "<57>Mar 25 21:47:46 host quaerat[2444]: There were ")
      ∷ call
      ∷ put (codes "8 penguins in the shop." ++ (b'\n' ∷ []))
      ∷ call
      ∷ [];
  expected =
      gave (ok none)
      ∷ gave (
          ok (
            some
              (codes "<57>Mar 25 21:47:46 host quaerat[2444]: There were 8 penguins in the shop.")))
      ∷ [];
}

non_octet_decode_works_with_multiple_frames-Passes :
    Passes non_octet_decode_works_with_multiple_frames
unfolding observe new
non_octet_decode_works_with_multiple_frames-Passes = refl

abbrev newline_decode_strips_carriage_return : FramerTest
newline_decode_strips_carriage_return = record {
  max_length = 128;
  calls =
      put (codes "<13>first" ++ (b'\r' ∷ b'\n' ∷ [] ++ (codes "<13>second" ++ (b'\n' ∷ []))))
      ∷ call
      ∷ call
      ∷ call
      ∷ [];
  expected =
      gave (ok (some (codes "<13>first")))
      ∷ gave (ok (some (codes "<13>second")))
      ∷ gave (ok none)
      ∷ [];
}

newline_decode_strips_carriage_return-Passes : Passes newline_decode_strips_carriage_return
unfolding observe new
newline_decode_strips_carriage_return-Passes = refl

abbrev newline_oversize_is_recoverable : FramerTest
newline_oversize_is_recoverable = record {
  max_length = 16;
  calls =
      put (
        codes "<13>aaaaaaaaaaaaaaaaaaaaaaaaaaaa"
        ++ (b'\n' ∷ [] ++ (codes "<13>ok" ++ (b'\n' ∷ []))))
      ∷ call
      ∷ call
      ∷ call
      ∷ [];
  expected =
      gave (err (recoverable oversize)) ∷ gave (ok (some (codes "<13>ok"))) ∷ gave (ok none) ∷ [];
}

newline_oversize_is_recoverable-Passes : Passes newline_oversize_is_recoverable
unfolding observe new
newline_oversize_is_recoverable-Passes = refl

abbrev newline_invalid_utf8_is_fatal : FramerTest
newline_invalid_utf8_is_fatal = record {
  max_length = 64;
  calls = put (codes "<13>" ++ (0xf0 ∷ 0x28 ∷ b'\n' ∷ [])) ∷ call ∷ [];
  expected = gave (err (fatal invalid_utf8)) ∷ [];
}

newline_invalid_utf8_is_fatal-Passes : Passes newline_invalid_utf8_is_fatal
unfolding observe new
newline_invalid_utf8_is_fatal-Passes = refl

abbrev decode_eof_releases_trailing_line : FramerTest
decode_eof_releases_trailing_line = record {
  max_length = 64;
  calls = put (codes "<13>trailing") ∷ call ∷ call_eof ∷ call_eof ∷ [];
  expected = gave (ok none) ∷ gave (ok (some (codes "<13>trailing"))) ∷ gave (ok none) ∷ [];
}

decode_eof_releases_trailing_line-Passes : Passes decode_eof_releases_trailing_line
unfolding observe new
decode_eof_releases_trailing_line-Passes = refl

abbrev decode_eof_holds_back_incomplete_octet_frame : FramerTest
decode_eof_holds_back_incomplete_octet_frame = record {
  max_length = 64;
  calls = put (codes "10 partial") ∷ call ∷ call_eof ∷ [];
  expected = gave (ok none) ∷ gave (ok none) ∷ [];
}

decode_eof_holds_back_incomplete_octet_frame-Passes :
    Passes decode_eof_holds_back_incomplete_octet_frame
unfolding observe new
decode_eof_holds_back_incomplete_octet_frame-Passes = refl
