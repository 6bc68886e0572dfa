-- ===== src/Tests/FramerRuns/Octets.antt =====
-- The unit tests of framing.rs on octet counted frames.
use hyper_ruby.Common.{[], ◌∷◌, ◌++◌, none, some, refl, ok, err}
use hyper_ruby.Http.Text.{codes}
use hyper_ruby.Syslog.Framing.{new}
use hyper_ruby.Syslog.Framing.Lines.{fatal, oversize, invalid_utf8, invalid_length}
use hyper_ruby.Tests.FramerRuns.{put, call, look, gave, holds, FramerTest, observe, Passes}

abbrev octet_decode_works_with_multiple_frames : FramerTest
octet_decode_works_with_multiple_frames = record {
  max_length = 30;
  calls = put (codes "28 abcdefghijklm") ∷ call ∷ put (codes "3 nopqrstuvwxyz") ∷ call ∷ [];
  expected = gave (ok none) ∷ gave (ok (some (codes "abcdefghijklm3 nopqrstuvwxyz"))) ∷ [];
}

octet_decode_works_with_multiple_frames-Passes : Passes octet_decode_works_with_multiple_frames
unfolding observe new
octet_decode_works_with_multiple_frames-Passes = refl

abbrev octet_decode_moves_past_invalid_length : FramerTest
octet_decode_moves_past_invalid_length = record {
  max_length = 16;
  calls = put (codes "232>1 zork") ∷ call ∷ look ∷ [];
  expected = gave (err (fatal invalid_length)) ∷ holds (codes "zork") ∷ [];
}

octet_decode_moves_past_invalid_length-Passes : Passes octet_decode_moves_past_invalid_length
unfolding observe new
octet_decode_moves_past_invalid_length-Passes = refl

abbrev octet_decode_moves_past_invalid_utf8 : FramerTest
octet_decode_moves_past_invalid_utf8 = record {
  max_length = 16;
  calls = put (b'4' ∷ b' ' ∷ 0xf0 ∷ 0x28 ∷ 0x8c ∷ 0xbc ∷ []) ∷ call ∷ look ∷ [];
  expected = gave (err (fatal invalid_utf8)) ∷ holds [] ∷ [];
}

octet_decode_moves_past_invalid_utf8-Passes : Passes octet_decode_moves_past_invalid_utf8
unfolding observe new
octet_decode_moves_past_invalid_utf8-Passes = refl

abbrev octet_decode_moves_past_exceeded_frame_length : FramerTest
octet_decode_moves_past_exceeded_frame_length = record {
  max_length = 16;
  calls =
      put (
        codes "32thisshouldbelongerthanthmaxframeasizewhichmeansitwillnotbedecoded" ++ (b'\n' ∷ []))
      ∷ call
      ∷ look
      ∷ [];
  expected = gave (err (fatal oversize)) ∷ holds [] ∷ [];
}

octet_decode_moves_past_exceeded_frame_length-Passes :
    Passes octet_decode_moves_past_exceeded_frame_length
unfolding observe new
octet_decode_moves_past_exceeded_frame_length-Passes = refl

abbrev octet_decode_rejects_exceeded_frame_length : FramerTest
octet_decode_rejects_exceeded_frame_length = record {
  max_length = 16;
  calls = put (codes "26 abcdefghijklmnopqrstuvwxyzand here we are") ∷ call ∷ call ∷ look ∷ [];
  expected = gave (ok none) ∷ gave (err (fatal oversize)) ∷ holds (codes "and here we are") ∷ [];
}

octet_decode_rejects_exceeded_frame_length-Passes :
    Passes octet_decode_rejects_exceeded_frame_length
unfolding observe new
octet_decode_rejects_exceeded_frame_length-Passes = refl

abbrev octet_decode_rejects_exceeded_frame_length_multiple_frames : FramerTest
octet_decode_rejects_exceeded_frame_length_multiple_frames = record {
  max_length = 16;
  calls =
      put (codes "26 abc")
      ∷ call
      ∷ put (codes "defghijklmnopqrstuvwxyzand here we are")
      ∷ call
      ∷ look
      ∷ [];
  expected = gave (ok none) ∷ gave (err (fatal oversize)) ∷ holds (codes "and here we are") ∷ [];
}

octet_decode_rejects_exceeded_frame_length_multiple_frames-Passes :
    Passes octet_decode_rejects_exceeded_frame_length_multiple_frames
unfolding observe new
octet_decode_rejects_exceeded_frame_length_multiple_frames-Passes = refl

abbrev octet_decode_discards_oversize_body_arriving_in_pieces : FramerTest
octet_decode_discards_oversize_body_arriving_in_pieces = record {
  max_length = 16;
  calls =
      put (codes "26 abc")
      ∷ call
      ∷ put (codes "ab")
      ∷ call
      ∷ put (codes "ab")
      ∷ call
      ∷ put (codes "ab")
      ∷ call
      ∷ put (codes "ab")
      ∷ call
      ∷ put (codes "ab")
      ∷ call
      ∷ put (codes "ab")
      ∷ call
      ∷ put (codes "ab")
      ∷ call
      ∷ put (codes "ab")
      ∷ call
      ∷ put (codes "ab")
      ∷ call
      ∷ put (codes "ab")
      ∷ call
      ∷ put (codes "xyzrest")
      ∷ call
      ∷ look
      ∷ [];
  expected =
      gave (ok none)
      ∷ gave (ok none)
      ∷ gave (ok none)
      ∷ gave (ok none)
      ∷ gave (ok none)
      ∷ gave (ok none)
      ∷ gave (ok none)
      ∷ gave (ok none)
      ∷ gave (ok none)
      ∷ gave (ok none)
      ∷ gave (ok none)
      ∷ gave (err (fatal oversize))
      ∷ holds (codes "rest")
      ∷ [];
}

octet_decode_discards_oversize_body_arriving_in_pieces-Passes :
    Passes octet_decode_discards_oversize_body_arriving_in_pieces
unfolding observe new
octet_decode_discards_oversize_body_arriving_in_pieces-Passes = refl

abbrev octet_decode_moves_past_exceeded_frame_length_multiple_frames : FramerTest
octet_decode_moves_past_exceeded_frame_length_multiple_frames = record {
  max_length = 16;
  calls =
      put (codes "32thisshouldbelongerthanthmaxframeasizewhichmeansitwillnotbedecoded")
      ∷ call
      ∷ put (codes "wemustcontinuetodiscard" ++ (b'\n' ∷ [] ++ codes "32 something valid"))
      ∷ call
      ∷ look
      ∷ [];
  expected = gave (ok none) ∷ gave (err (fatal oversize)) ∷ holds (codes "32 something valid") ∷ [];
}

octet_decode_moves_past_exceeded_frame_length_multiple_frames-Passes :
    Passes octet_decode_moves_past_exceeded_frame_length_multiple_frames
unfolding observe new
octet_decode_moves_past_exceeded_frame_length_multiple_frames-Passes = refl

abbrev oversize_body_starting_with_a_digit_is_not_decoded_as_a_frame : FramerTest
oversize_body_starting_with_a_digit_is_not_decoded_as_a_frame = record {
  max_length = 16;
  calls =
      put (codes "26 ")
      ∷ call
      ∷ put (codes "9 abcdefghZ")
      ∷ call
      ∷ look
      ∷ put (codes "aaaaaaaaaaaaaaa5 next")
      ∷ call
      ∷ look
      ∷ [];
  expected =
      gave (ok none)
      ∷ gave (ok none)
      ∷ holds []
      ∷ gave (err (fatal oversize))
      ∷ holds (codes "5 next")
      ∷ [];
}

oversize_body_starting_with_a_digit_is_not_decoded_as_a_frame-Passes :
    Passes oversize_body_starting_with_a_digit_is_not_decoded_as_a_frame
unfolding observe new
oversize_body_starting_with_a_digit_is_not_decoded_as_a_frame-Passes = refl
