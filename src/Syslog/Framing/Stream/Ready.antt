-- ===== src/Syslog/Framing/Stream/Ready.antt =====
-- One call of `decode` on a stream that mixes octet counted frames and lines, wherever a read ends.
use hyper_ruby.Common.{
  ℕ, ◌<◌, true, false, [], ◌∷◌, ◌++◌, ◌≡◌, refl, ap, sym, ◌∙◌, subst, arith, none, some,
  append_split, append_assoc, append-nil, length, length-append, Bytes, Option, Result, ok,
}
use hyper_ruby.Syslog.Framing.{
  not_discarding, Framer, octet_decode, starts_frame, entry_state, line_decoded, decode,
}
use hyper_ruby.Syslog.Framing.Lines.{
  LinesCodec, IsLinesCodec, ReadsLines, IsLine, without_carriage_return, LinesCodecError,
}
use hyper_ruby.Syslog.Framing.Octets.{
  Frame, octets, IsSendable, octet_decode-frame, octet_decode_part,
}
use hyper_ruby.Syslog.Framing.Encode.{
  encode, IsCountable, to_frame, octets-to_frame, to_frame-IsSendable,
}
use hyper_ruby.Syslog.Framing.Stream.Sent.{
  Sent, counted, line, sent_octets, sent_message, IsUncounted, IsLineSendable, IsSentSendable,
  IsUnfinished, IsUncounted-newline, IsUnfinished-front, IsUnfinished-nil,
  IsLineSendable-IsUnfinished,
}

module _ (lines : LinesCodec) (laws : IsLinesCodec lines) (reads : ReadsLines lines) (m : ℕ) where
  abbrev pub idle : lines.Codec → Framer lines.Codec
  idle c = record { other = c; octet_decoding = none }

  abbrev pub busy : lines.Codec → Framer lines.Codec
  busy c = record { other = c; octet_decoding = some not_discarding }

  -- The framer has nothing in hand, or is in a frame, or in a line that it has looked at in part.
  pub data Ready (f : Framer lines.Codec) (src : Bytes) : Type 0 where
    fresh :
        (c : lines.Codec) → lines.max_length c ≡ m → reads.Reading c [] → f ≡ idle c → Ready f src
    counting :
        (c : lines.Codec) (b : ℕ) (bs : Bytes)
        → lines.max_length c ≡ m
        → reads.Reading c []
        → f ≡ busy c
        → src ≡ b ∷ bs
        → starts_frame b ≡ true
        → Ready f src
    scanning :
        (c : lines.Codec) (b : ℕ) (seen more : Bytes)
        → lines.max_length c ≡ m
        → reads.Reading c (b ∷ seen)
        → f ≡ idle c
        → src ≡ (b ∷ seen) ++ more
        → starts_frame b ≡ false
        → Ready f src

  pub Ready-append :
      (f : Framer lines.Codec) (src more : Bytes) → Ready f src → Ready f (src ++ more)
  Ready-append f src more (fresh c k r e) = fresh c k r e
  Ready-append f src more (counting c b bs k r e s d) =
      counting c b (bs ++ more) k r e (ap (λ x. x ++ more) s) d
  Ready-append f src more (scanning c b seen rest k r e s d) =
      scanning c b seen (rest ++ more) k r e
        (ap (λ x. x ++ more) s ∙ append_assoc (b ∷ seen) rest more) d

  -- Where the buffer starts with a length, the framer reads a frame.
  decode_counted :
      (f : Framer lines.Codec) (b : ℕ) (bs : Bytes)
      → starts_frame b ≡ true
      → Ready f (b ∷ bs)
      → (c : lines.Codec) × (lines.max_length c ≡ m)
        × reads.Reading c []
        × (decode lines f (b ∷ bs) ≡ octet_decode m (busy c) not_discarding (b ∷ bs))
  unfolding decode entry_state
  decode_counted f b bs d (fresh c k r e) = (c, k, r, rw e (rw (d, k) refl))
  decode_counted f b bs d (counting c b' bs' k r e s d') = (c, k, r, rw e (rw k refl))
  decode_counted f b bs d (scanning c b' seen more k r e s d') =
      let same : b ≡ b' = cc in absurd (cc)

  -- Where it does not, the line codec looks at it, and may have looked at a part of it before.
  pub decode_uncounted :
      (f : Framer lines.Codec) (src : Bytes)
      → IsUncounted src
      → Ready f src
      → (c : lines.Codec) × (seen : Bytes) × (more : Bytes) × (lines.max_length c ≡ m)
        × reads.Reading c seen
        × (src ≡ seen ++ more)
        × (decode lines f src ≡ line_decoded lines (idle c) (lines.decode c src))
  unfolding decode entry_state
  decode_uncounted f [] u (fresh c k r e) = (c, [], [], k, r, refl, rw e refl)
  decode_uncounted f (b ∷ bs) u (fresh c k r e) = (c, [], b ∷ bs, k, r, refl, rw e (rw u refl))
  decode_uncounted f [] u (counting c b' bs k r e s d) = cc
  decode_uncounted f (b ∷ bs) u (counting c b' bs' k r e s d) =
      let same : b ≡ b' = cc in absurd (cc)
  decode_uncounted f [] u (scanning c b' seen more k r e s d) = cc
  decode_uncounted f (b ∷ bs) u (scanning c b' seen more k r e s d) =
      (c, b' ∷ seen, more, k, r, s, rw e (rw u refl))

  max_length-next :
      (c d : lines.Codec) (src kept : Bytes) (r : Result LinesCodecError (Option Bytes))
      → lines.max_length c ≡ m
      → lines.decode c src ≡ (d, kept, r)
      → lines.max_length d ≡ m
  max_length-next c d src kept r k e =
      ap (λ x. lines.max_length x.0) (sym e) ∙ laws.max_length-decode c src ∙ k

  Ready-idle :
      (c : lines.Codec) (src : Bytes)
      → lines.max_length c ≡ m
      → reads.Reading c src
      → IsUncounted src
      → Ready (idle c) src
  Ready-idle c [] k r u = fresh c k r refl
  Ready-idle c (b ∷ bs) k r u = scanning c b bs [] k r refl (sym (append-nil (b ∷ bs))) u

  -- A line whose end is not in the buffer stays there.
  pub decode_unfinished :
      (f : Framer lines.Codec) (src : Bytes)
      → IsUnfinished m src
      → Ready f src
      → (g : Framer lines.Codec) × (decode lines f src ≡ (g, src, ok none)) × Ready g src
  unfolding line_decoded
  decode_unfinished f src s ready =
      let (c, seen, more, k, r, p, e) = decode_uncounted f src s.uncounted ready in
      let (d, e', r') =
        reads.part c seen more r (subst IsLine p s.no_newline)
          (omega (arith, s.fits, ap length p, k)) in
      let e'' = subst (λ x. lines.decode c x ≡ (d, x, ok none)) (sym p) e' in
      (
        idle d,
        e ∙ ap (line_decoded lines (idle c)) e'',
        Ready-idle d src (max_length-next c d src src (ok none) k e'')
            (subst (reads.Reading d) (sym p) r') s.uncounted,
      )

  decode-line :
      (f : Framer lines.Codec) (raw rest : Bytes)
      → IsLineSendable m raw
      → Ready f (raw ++ (b'\n' ∷ rest))
      → (g : Framer lines.Codec) × (decode lines f (raw ++ (b'\n' ∷ rest))
          ≡ (g, rest, ok (some (without_carriage_return raw))))
        × Ready g rest
  unfolding line_decoded
  decode-line f raw rest s ready =
      let (c, seen, more, k, r, p, e) =
        decode_uncounted f (raw ++ (b'\n' ∷ rest)) (IsUncounted-newline raw rest s.uncounted)
          ready in
      let (d, e', r') =
        reads.whole c seen more raw rest r p s.no_newline (omega (arith, s.fits, k)) s.text in
      (
        idle d,
        e ∙ ap (line_decoded lines (idle c)) e',
        fresh d (max_length-next c d _ rest _ k e') r' refl,
      )

  decode-frame :
      (f : Framer lines.Codec) (fr : Frame) (rest : Bytes)
      → IsSendable m fr
      → Ready f (octets fr ++ rest)
      → (g : Framer lines.Codec) × (decode lines f (octets fr ++ rest)
          ≡ (g, rest, ok (some fr.body)))
        × Ready g rest
  decode-frame f fr rest s ready =
      let (c, k, r, e) = decode_counted f _ _ s.denotes.starts ready in
      (idle c, e ∙ octet_decode-frame (busy c) m fr rest s, fresh c k r refl)

  decode-frame_part :
      (f : Framer lines.Codec) (fr : Frame) (src rest : Bytes)
      → IsSendable m fr
      → Ready f src
      → octets fr ≡ src ++ rest
      → length src < length (octets fr)
      → (g : Framer lines.Codec) × (decode lines f src ≡ (g, src, ok none)) × Ready g src
  decode-frame_part f fr [] rest s ready e l = decode_unfinished f [] IsUnfinished-nil ready
  decode-frame_part f fr (b ∷ bs) rest s ready e l =
      let same : fr.head.first ≡ b = cc in
      let starts = subst (λ x. starts_frame x ≡ true) same s.denotes.starts in
      let (c, k, r, d) = decode_counted f b bs starts ready in
      (
        busy c,
        d ∙ octet_decode_part (busy c) m fr (b ∷ bs) rest s e l,
        counting c b bs k r refl refl starts,
      )

  decode-counted :
      (f : Framer lines.Codec) (body rest : Bytes)
      → IsCountable m body
      → Ready f (encode body ++ rest)
      → (g : Framer lines.Codec) × (decode lines f (encode body ++ rest)
          ≡ (g, rest, ok (some body)))
        × Ready g rest
  decode-counted f body rest s ready =
      let p = ap (λ x. x ++ rest) (octets-to_frame m body s) in
      let (g, e, r) =
        decode-frame f (to_frame body) rest (to_frame-IsSendable m body s)
          (subst (Ready f) (sym p) ready) in
      (g, ap (decode lines f) (sym p) ∙ e, r)

  pub decode_sent :
      (f : Framer lines.Codec) (s : Sent) (rest : Bytes)
      → IsSentSendable m s
      → Ready f (sent_octets s ++ rest)
      → (g : Framer lines.Codec) × (decode lines f (sent_octets s ++ rest)
          ≡ (g, rest, ok (some (sent_message s))))
        × Ready g rest
  decode_sent f (counted body) rest s ready = decode-counted f body rest s ready
  decode_sent f (line raw) rest s ready =
      let p = append_assoc raw (b'\n' ∷ []) rest in
      let (g, e, r) = decode-line f raw rest s (subst (Ready f) p ready) in
      (g, ap (decode lines f) p ∙ e, r)

  pub decode_sent_part :
      (f : Framer lines.Codec) (s : Sent) (src rest : Bytes)
      → IsSentSendable m s
      → Ready f src
      → sent_octets s ≡ src ++ rest
      → length src < length (sent_octets s)
      → (g : Framer lines.Codec) × (decode lines f src ≡ (g, src, ok none)) × Ready g src
  decode_sent_part f (counted body) src rest s ready e l =
      let p = octets-to_frame m body s in
      decode-frame_part f (to_frame body) src rest (to_frame-IsSendable m body s) ready (p ∙ e)
        (subst (λ x. length src < length x) (sym p) l)
  decode_sent_part f (line raw) src rest s ready e l =
      let (mid, p, q) =
        append_split raw (b'\n' ∷ []) src rest e (omega (arith, length-append raw (b'\n' ∷ []))) in
      decode_unfinished f src
        (IsUnfinished-front m src mid
          (subst (IsUnfinished m) p (IsLineSendable-IsUnfinished m raw s)))
        ready
