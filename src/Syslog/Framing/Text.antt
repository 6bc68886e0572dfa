-- ===== src/Syslog/Framing/Text.antt =====
-- The text of messages: `SyslogMessage::message` makes a string of the bytes with no check.
use hyper_ruby.Common.{
  ℕ, ◌≡◌, refl, true, Bool-cases, inl, inr, arith, Option, none, some, ltb, Bytes, ok, err,
}
use hyper_ruby.Rust.Utf8.{from_utf8}
use hyper_ruby.Syslog.Framing.{
  State, not_discarding, discarding, discarding_to_eol, Framer, Decoded, take_message, with_len,
  without_len, octet_header, to_eol, octet_decode, line_decoded, decode_with, decode, decode_eof,
}
use hyper_ruby.Syslog.Framing.Lines.{LinesCodec, IsLinesCodec, LineResult}

abbrev pub IsText : {C : Type 0} → Decoded C → Type 0
IsText (f, rest, ok (some msg)) = from_utf8 msg ≡ true
IsText _ = Unit {0}

module _ {C : Type 0} (m : ℕ) (f : Framer C) (src : Bytes) where
  take_message-IsText : (to : ℕ) (msg : Option Bytes) → IsText (take_message m f src to msg)
  unfolding take_message
  take_message-IsText to none = tt
  take_message-IsText to (some msg) = elim (Bool-cases (from_utf8 msg)) [
    | inl e ↦ rw e e
    | inr e ↦ rw e tt
  ]

  without_len-IsText : (newline : Option ℕ) → IsText (without_len m f src newline)
  unfolding without_len
  without_len-IsText none = ground arith
  without_len-IsText (some n) = tt

  with_len-IsText : (space_pos : ℕ) (len : Option ℕ) → IsText (with_len m f src space_pos len)
  unfolding with_len
  with_len-IsText space_pos none = tt
  with_len-IsText space_pos (some len) = elim (Bool-cases (ltb m len)) [
    | inl e ↦ rw e tt
    | inr e ↦ rw e (take_message-IsText _ _)
  ]

  octet_header-IsText : (newline space : Option ℕ) → IsText (octet_header m f src newline space)
  unfolding octet_header
  octet_header-IsText newline none = without_len-IsText newline
  octet_header-IsText newline (some space_pos) = elim (Bool-cases (ltb space_pos m)) [
    | inl e ↦ rw e (with_len-IsText space_pos _)
    | inr e ↦ rw e (without_len-IsText newline)
  ]

  to_eol-IsText : (newline : Option ℕ) → IsText (to_eol m f src newline)
  unfolding to_eol
  to_eol-IsText none = tt
  to_eol-IsText (some n) = tt

  octet_decode-IsText : (state : State) → IsText (octet_decode m f state src)
  unfolding octet_decode
  octet_decode-IsText not_discarding = octet_header-IsText _ _
  octet_decode-IsText (discarding n) = ground arith
  octet_decode-IsText discarding_to_eol = to_eol-IsText _

module _ (lines : LinesCodec) where
  open lines use {Codec}

  line_decoded-IsText :
      (f : Framer Codec) (d : Codec × Bytes × LineResult)
      → ((line : Bytes) → d.2 ≡ ok (some line) → from_utf8 line ≡ true)
      → IsText (line_decoded lines f d)
  unfolding line_decoded
  line_decoded-IsText f (c, rest, ok (some line)) h = h line refl
  line_decoded-IsText f (c, rest, ok none) h = tt
  line_decoded-IsText f (c, rest, err e) h = tt

  decode_with-IsText :
      (other : Codec → Bytes → Codec × Bytes × LineResult) (f : Framer Codec) (state : Option State)
      (src : Bytes)
      → ((line : Bytes) → (other f.other src).2 ≡ ok (some line) → from_utf8 line ≡ true)
      → IsText (decode_with lines other f state src)
  unfolding decode_with
  decode_with-IsText other f (some state) src h = octet_decode-IsText _ _ src state
  decode_with-IsText other f none src h = line_decoded-IsText f (other f.other src) h

-- Every message that `decode` or `decode_eof` hands over is valid UTF-8, in whatever state the
-- framer is, if the line codec yields strings.
pub decode-IsText :
    (lines : LinesCodec) (laws : IsLinesCodec lines) (f : Framer lines.Codec) (src : Bytes)
    → IsText (decode lines f src) × IsText (decode_eof lines f src)
unfolding decode decode_eof
decode-IsText lines laws f src = (
  decode_with-IsText lines lines.decode f _ src (laws.decode_string f.other src),
  decode_with-IsText lines lines.decode_eof f _ src (laws.decode_eof_string f.other src),
)
