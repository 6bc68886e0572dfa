-- ===== src/Rust/Utf8.antt =====
-- `std::str::from_utf8`: the well-formed byte sequences of the Unicode standard (table 3-7), read
-- by an automaton. A state says which continuation bytes are still due.
use hyper_ruby.Common.{
  ℕ, Bool, true, false, ◌&&◌, [], ◌∷◌, Option, none, some, leb, ltb, if◌then◌else◌, Bytes,
}

pub data Due : Type 0 where
  start one two three : Due
  -- the second byte after 0xe0, 0xed, 0xf0 and 0xf4, whose ranges are narrower
  after_e0 after_ed after_f0 after_f4 : Due

abbrev within : ℕ → ℕ → ℕ → Bool
within lo hi c = leb lo c && leb c hi

first_byte : ℕ → Option Due
first_byte c =
    if ltb c 0x80
    then some start
    else if within 0xc2 0xdf c
    then some one
    else if within 0xe0 0xe0 c
    then some after_e0
    else if within 0xed 0xed c
    then some after_ed
    else if within 0xe1 0xef c
    then some two
    else if within 0xf0 0xf0 c
    then some after_f0
    else if within 0xf1 0xf3 c
    then some three
    else if within 0xf4 0xf4 c
    then some after_f4
    else none

abbrev next_byte : ℕ → ℕ → Due → ℕ → Option Due
next_byte lo hi d c = if within lo hi c then some d else none

pub utf8_step : Due → ℕ → Option Due
unfolding first_byte
utf8_step start c = first_byte c
utf8_step one c = next_byte 0x80 0xbf start c
utf8_step two c = next_byte 0x80 0xbf one c
utf8_step three c = next_byte 0x80 0xbf two c
utf8_step after_e0 c = next_byte 0xa0 0xbf one c
utf8_step after_ed c = next_byte 0x80 0x9f one c
utf8_step after_f0 c = next_byte 0x90 0xbf two c
utf8_step after_f4 c = next_byte 0x80 0x8f two c

pub utf8_from : Due → Bytes → Bool
unfolding utf8_step
utf8_from start [] = true
utf8_from _ [] = false
utf8_from d (c ∷ cs) = elim (utf8_step d c) [ none ↦ false | some e ↦ utf8_from e cs ]

-- `from_utf8(b).is_ok()`.
unfoldable pub from_utf8 : Bytes → Bool
unfolding utf8_from
from_utf8 = utf8_from start
