-- ===== src/Syslog/Framing.antt =====
-- ext/hyper_ruby/src/syslog/framing.rs: RFC 6587 framing of a stream, by octet counts with a
-- fallback to lines. The line codec is tokio-util's `LinesCodec`, a parameter here.
pub mod Lines
pub mod Steps
pub mod Octets
pub mod Encode
pub mod Sound
pub mod Text
pub mod Stream
use Prim.Native.String.{String}
use hyper_ruby.Common.{
  ℕ, suc, zero, ◌+◌, ◌-◌, ◌%◌, Bool, true, false, ◌&&◌, [], ◌∷◌, List, Option, none, some, ltb, leb,
  ◌==◌, if◌then◌else◌, length, take, drop, Bytes, Result, ok, err,
}
use hyper_ruby.Rust.Word.{usize_mod}
use hyper_ruby.Rust.Utf8.{from_utf8}
use hyper_ruby.Rust.Parse.{parse_usize}
use Lines.{
  LinesCodec, LinesCodecError, max_line_length_exceeded, io, FrameError, RejectReason, oversize,
  invalid_utf8, invalid_length, fatal, recoverable, FrameResult,
}

pub data State : Type 0 where
  not_discarding : State
  discarding : ℕ → State
  discarding_to_eol : State

pub record Framer (C : Type 0) : Type 0 where
  pub other : C
  pub octet_decoding : Option State

-- What a decoding step leaves: the framer, the bytes still in the buffer, and the result.
abbrev pub Decoded : Type 0 → Type 0
Decoded C = Framer C × Bytes × FrameResult

abbrev one_further : Option ℕ → Option ℕ
one_further none = none
one_further (some n) = some (n + 1)

-- `src.iter().position(|&b| b == wanted)`
unfoldable pub position : ℕ → Bytes → Option ℕ
position wanted [] = none
position wanted (b ∷ bs) = if b == wanted then some 0 else one_further (position wanted bs)

-- `src.get(from..to)`
unfoldable pub get_range : ℕ → ℕ → Bytes → Option Bytes
get_range from to src =
    if leb from to && leb to (length src) then some (take (to - from) (drop from src)) else none

abbrev pub line_error : LinesCodecError → FrameError
line_error max_line_length_exceeded = recoverable oversize
line_error io = fatal invalid_utf8

module _ {C : Type 0} (max_length : ℕ) where
  -- A length is there, at most the maximum, and its message ends at `to`.
  unfoldable pub take_message : Framer C → Bytes → ℕ → Option Bytes → Decoded C
  take_message f src to (some msg) =
      if from_utf8 msg
      then (record f { octet_decoding = none }, drop to src, ok (some msg))
      else (record f { octet_decoding = none }, drop to src, err (fatal invalid_utf8))
  take_message f src to none = (f, src, ok none)

  -- From the length on; the sum wraps as in a release build.
  unfoldable pub with_len : Framer C → Bytes → ℕ → Option ℕ → Decoded C
  unfolding take_message
  with_len f src space_pos none =
      (record f { octet_decoding = none }, drop (space_pos + 1) src, err (fatal invalid_length))
  with_len f src space_pos (some len) =
      let from = space_pos + 1 in
      let to = (from + len) % usize_mod in
      if ltb max_length len
      then (record f { octet_decoding = some (discarding len) }, drop (space_pos + 1) src, ok none)
      else take_message f src to (get_range from to src)

  -- No length can be read: look for the end of the line.
  unfoldable pub without_len : Framer C → Bytes → Option ℕ → Decoded C
  without_len f src (some newline_pos) = (f, drop (newline_pos + 1) src, err (fatal oversize))
  without_len f src none =
      if ltb (length src) max_length
      then (f, src, ok none)
      else (record f { octet_decoding = some discarding_to_eol }, drop (length src) src, ok none)

  unfoldable pub octet_header : Framer C → Bytes → Option ℕ → Option ℕ → Decoded C
  unfolding with_len without_len
  octet_header f src newline_pos (some space_pos) =
      if ltb space_pos max_length
      then with_len f src space_pos (parse_usize (take space_pos src))
      else without_len f src newline_pos
  octet_header f src newline_pos none = without_len f src newline_pos

  unfoldable pub to_eol : Framer C → Bytes → Option ℕ → Decoded C
  to_eol f src (some offset) =
      (record f { octet_decoding = none }, drop (offset + 1) src, err (fatal oversize))
  to_eol f src none = (f, drop (length src) src, ok none)

  unfoldable pub octet_decode : Framer C → State → Bytes → Decoded C
  unfolding octet_header to_eol
  octet_decode f (discarding chars) src =
      if leb chars (length src)
      then (record f { octet_decoding = none }, drop chars src, err (fatal oversize))
      else (
        record f { octet_decoding = some (discarding (chars - length src)) },
        drop (length src) src,
        ok none,
      )
  octet_decode f discarding_to_eol src = to_eol f src (position b'\n' src)
  octet_decode f not_discarding src = octet_header f src (position b'\n' src) (position b' ' src)

-- `(b'1'..=b'9').contains(&first_byte)`
abbrev pub starts_frame : ℕ → Bool
starts_frame b = leb b'1' b && leb b b'9'

-- The state that `checked_decode` goes on from.
unfoldable pub entry_state : Option State → Bytes → Option State
entry_state (some s) src = some s
entry_state none [] = none
entry_state none (b ∷ bs) = if starts_frame b then some not_discarding else none

module _ (lines : LinesCodec) where
  open lines use {Codec}

  unfoldable pub new : ℕ → Framer Codec
  new max_length = record { other = lines.new_with_max_length max_length; octet_decoding = none }

  unfoldable pub line_decoded :
      Framer Codec → Codec × Bytes × Result LinesCodecError (Option Bytes) → Decoded Codec
  line_decoded f (c, src, ok line) = (record f { other = c }, src, ok line)
  line_decoded f (c, src, err e) = (record f { other = c }, src, err (line_error e))

  -- `checked_decode`, with what the caller does where it gives `None`.
  unfoldable pub decode_with :
      (Codec → Bytes → Codec × Bytes × Result LinesCodecError (Option Bytes))
      → Framer Codec
      → Option State
      → Bytes
      → Decoded Codec
  unfolding line_decoded
  decode_with other f (some state) src =
      octet_decode (lines.max_length f.other) (record f { octet_decoding = some state }) state src
  decode_with other f none src = line_decoded f (other f.other src)

  unfoldable pub decode : Framer Codec → Bytes → Decoded Codec
  unfolding decode_with
  decode f src = decode_with lines.decode f (entry_state f.octet_decoding src) src

  unfoldable pub decode_eof : Framer Codec → Bytes → Decoded Codec
  unfolding decode_with
  decode_eof f src = decode_with lines.decode_eof f (entry_state f.octet_decoding src) src
