-- ===== src/Syslog/Framing/Stream/Injected.antt =====
-- A line that the line codec is discarding, and a read inside it that starts with a digit.
use hyper_ruby.Common.{
  ℕ, [], ◌∷◌, ◌≡◌, ap, ◌∙◌, sym, suc, length, none, some, append-nil, Bytes, ok,
}
use hyper_ruby.Syslog.Framing.{
  not_discarding, Framer, octet_decode, entry_state, line_decoded, decode_with, decode,
}
use hyper_ruby.Syslog.Framing.Lines.{LinesCodec, IsLinesCodec}
use hyper_ruby.Syslog.Framing.Octets.{Frame, octets, IsSendable, octet_decode-frame}
use hyper_ruby.Syslog.Framing.Stream.{decode_all, receive}

module _ (lines : LinesCodec) (c : lines.Codec) where
  abbrev pub between : Framer lines.Codec
  between = record { other = c; octet_decoding = none }

  pub decode_frame :
      (fr : Frame)
      → IsSendable (lines.max_length c) fr
      → decode lines between (octets fr) ≡ (between, [], ok (some fr.body))
  unfolding decode entry_state
  decode_frame fr s = rw s.denotes.starts (
      ap (octet_decode (lines.max_length c) _ not_discarding) (sym (append-nil (octets fr)))
      ∙ octet_decode-frame _ (lines.max_length c) fr [] s)

  decode_line :
      (c' : lines.Codec) (src : Bytes)
      → entry_state none src ≡ none
      → lines.decode c src ≡ (c', [], ok none)
      → decode lines between src ≡ (record { other = c'; octet_decoding = none }, [], ok none)
  unfolding decode decode_with line_decoded
  decode_line c' src e d = rw e (rw d)

decode_empty :
    (lines : LinesCodec) (laws : IsLinesCodec lines) (c : lines.Codec)
    → decode lines (between lines c) [] ≡ (between lines c, [], ok none)
unfolding decode entry_state decode_with line_decoded
decode_empty lines laws c = rw (laws.decode_nil c)

module _ (lines : LinesCodec) (laws : IsLinesCodec lines) (c : lines.Codec) where
  decode_all-line :
      (fuel : ℕ) (c' : lines.Codec) (src : Bytes)
      → entry_state none src ≡ none
      → lines.decode c src ≡ (c', [], ok none)
      → decode_all lines (suc fuel) (between lines c) src ≡ ([], between lines c', [])
  unfolding decode_all
  decode_all-line fuel c' src e d = rw (decode_line lines c c' src e d)

  decode_all-frame :
      (fuel : ℕ) (fr : Frame)
      → IsSendable (lines.max_length c) fr
      → decode_all lines (suc (suc fuel)) (between lines c) (octets fr)
        ≡ (ok fr.body ∷ [], between lines c, [])
  unfolding decode_all
  decode_all-frame fuel fr s = rw (decode_frame lines c fr s) (rw (decode_empty lines laws c))

-- A read that the line codec swallows whole, as it does with the rest of an oversize line, leaves
-- the framer open to octet counting: if the next read, still in the same line, starts with what
-- looks like a frame, its content is handed over as a message.
pub receive_injected :
    (lines : LinesCodec) (laws : IsLinesCodec lines) (c c' : lines.Codec) (src : Bytes) (fr : Frame)
    → entry_state none src ≡ none
    → lines.decode c src ≡ (c', [], ok none)
    → IsSendable (lines.max_length c') fr
    → receive lines (between lines c) [] (src ∷ octets fr ∷ [])
      ≡ (ok fr.body ∷ [], between lines c', [])
unfolding receive
receive_injected lines laws c c' src fr e d s =
    rw (decode_all-line lines laws c (length src) c' src e d)
      (rw (decode_all-frame lines laws c' _ fr s))
