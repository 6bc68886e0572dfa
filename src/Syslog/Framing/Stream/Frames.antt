-- ===== src/Syslog/Framing/Stream/Frames.antt =====
-- A stream of octet counted frames, one after another, cut into reads.
use hyper_ruby.Common.{
  ℕ, ◌<◌, [], ◌∷◌, ◌++◌, ◌≡◌, ◌≢◌, ◌⊎◌, inl, inr, refl, ap, sym, ◌∙◌, arith, true, List, map, none,
  some, length, Bytes, Result, ok,
}
use hyper_ruby.Syslog.Framing.{
  not_discarding, Framer, octet_decode, starts_frame, entry_state, new, decode,
}
use hyper_ruby.Syslog.Framing.Lines.{LinesCodec, IsLinesCodec, FrameError}
use hyper_ruby.Syslog.Framing.Octets.{
  Frame, octets, IsSendable, octet_decode-frame, octet_decode_part,
}
use hyper_ruby.Syslog.Framing.Stream.{receive}
use hyper_ruby.Syslog.Framing.Stream.Units.{flatten, Units, AllGood, stream_of, receive-units}

abbrev pub AllSendable : ℕ → List Frame → Type 0
AllSendable m [] = Unit {0}
AllSendable m (fr ∷ frs) = IsSendable m fr × AllSendable m frs

-- All frames of a list, one after the other.
abbrev pub wire : List Frame → Bytes
wire [] = []
wire (fr ∷ frs) = octets fr ++ wire frs

abbrev pub bodies : List Frame → List (Result FrameError Bytes)
bodies = map (λ fr. ok fr.body)

module _ (lines : LinesCodec) (laws : IsLinesCodec lines) (c : lines.Codec) where
  -- The framer between two frames, and in the middle of one.
  abbrev idle : Framer lines.Codec
  idle = record { other = c; octet_decoding = none }

  abbrev busy : Framer lines.Codec
  busy = record { other = c; octet_decoding = some not_discarding }

  -- With bytes in the buffer the framer may be in either state, and without any it is idle.
  abbrev Ready : Framer lines.Codec → Bytes → Type 0
  Ready f src = (f ≡ idle) ⊎ ((f ≡ busy) × (src ≢ []))

  decode_started :
      (f : Framer lines.Codec) (b : ℕ) (bs : Bytes)
      → Ready f (b ∷ bs)
      → starts_frame b ≡ true
      → decode lines f (b ∷ bs) ≡ octet_decode (lines.max_length c) busy not_discarding (b ∷ bs)
  unfolding decode entry_state
  decode_started f b bs (inl e) s = rw e (rw s)
  decode_started f b bs (inr (e, _)) s = rw e

  decode_nil : decode lines idle [] ≡ (idle, [], ok none)
  unfolding decode entry_state
  decode_nil = rw (laws.decode_nil c)

  decode-frame :
      (f : Framer lines.Codec) (fr : Frame) (rest : Bytes)
      → Ready f (octets fr ++ rest)
      → IsSendable (lines.max_length c) fr
      → decode lines f (octets fr ++ rest) ≡ (idle, rest, ok (some fr.body))
  decode-frame f fr rest r s =
      decode_started f _ _ r s.denotes.starts
      ∙ octet_decode-frame busy (lines.max_length c) fr rest s

  -- A buffer that ends inside a frame: nothing comes out, and it stays as it is.
  decode_part :
      (f : Framer lines.Codec) (fr : Frame) (b : ℕ) (bs rest : Bytes)
      → Ready f (b ∷ bs)
      → IsSendable (lines.max_length c) fr
      → octets fr ≡ (b ∷ bs) ++ rest
      → length (b ∷ bs) < length (octets fr)
      → decode lines f (b ∷ bs) ≡ (busy, b ∷ bs, ok none)
  decode_part f fr b bs rest r s e l =
      decode_started f b bs r (let e' : fr.head.first ≡ b = cc in rw e' at s.denotes.starts)
      ∙ octet_decode_part busy (lines.max_length c) fr (b ∷ bs) rest s e l

  decode_part-Ready :
      (f : Framer lines.Codec) (fr : Frame) (src rest : Bytes)
      → IsSendable (lines.max_length c) fr
      → Ready f src
      → octets fr ≡ src ++ rest
      → length src < length (octets fr)
      → (g : Framer lines.Codec) × (decode lines f src ≡ (g, src, ok none)) × Ready g src
  decode_part-Ready f fr [] rest s (inl i) e l = (idle, rw i decode_nil, inl refl)
  decode_part-Ready f fr [] rest s (inr (_, ne)) e l = absurd (ne refl)
  decode_part-Ready f fr (b ∷ bs) rest s r e l =
      (busy, decode_part f fr b bs rest r s e l, inr (refl, λ x. cc))

  decode-Ready_nil :
      (f : Framer lines.Codec) (src rest : Bytes)
      → Ready f src
      → [] ≡ src ++ rest
      → (g : Framer lines.Codec) × (decode lines f src ≡ (g, src, ok none)) × Ready g src
  decode-Ready_nil f [] rest (inl i) e = (idle, rw i decode_nil, inl refl)
  decode-Ready_nil f [] rest (inr (_, ne)) e = absurd (ne refl)
  decode-Ready_nil f (b ∷ bs) rest r e = cc

  Ready-append : (f : Framer lines.Codec) (src more : Bytes) → Ready f src → Ready f (src ++ more)
  Ready-append f src more (inl i) = inl i
  Ready-append f [] more (inr (e, ne)) = absurd (ne refl)
  Ready-append f (b ∷ bs) more (inr (e, ne)) = inr (e, λ x. cc)

  abbrev frame_units : Units lines
  frame_units = record {
    U = Frame;
    octets_of = octets;
    message = λ fr. fr.body;
    IsGood = IsSendable (lines.max_length c);
    Ready = Ready;
    tail = [];
    nonempty = λ fr s. omega arith;
    extend = Ready-append;
    whole = λ f fr rest s r. (idle, decode-frame f fr rest r s, inl refl);
    part = decode_part-Ready;
    pending = decode-Ready_nil;
  }

  stream_of-wire : (frames : List Frame) → stream_of lines frame_units frames ≡ wire frames
  stream_of-wire [] = refl
  stream_of-wire (fr ∷ frames) = ap (◌++◌ (octets fr)) (stream_of-wire frames)

  AllSendable-AllGood :
      (frames : List Frame)
      → AllSendable (lines.max_length c) frames
      → AllGood lines frame_units frames
  AllSendable-AllGood [] s = tt
  AllSendable-AllGood (fr ∷ frames) s = (s.0, AllSendable-AllGood frames s.1)

  Ready-idle : (f : Framer lines.Codec) → Ready f [] → f ≡ idle
  Ready-idle f (inl i) = i
  Ready-idle f (inr (_, ne)) = absurd (ne refl)

  receive-frames :
      (chunks : List Bytes) (frames : List Frame)
      → AllSendable (lines.max_length c) frames
      → flatten chunks ≡ wire frames
      → receive lines idle [] chunks ≡ (bodies frames, idle, [])
  receive-frames chunks frames s w =
      let (g, e, r) =
        receive-units lines frame_units chunks idle frames (inl refl) (AllSendable-AllGood frames s)
          (w ∙ sym (stream_of-wire frames)) in
      e ∙ ap (λ h. (bodies frames, h, [])) (Ready-idle g r)

-- Whatever the reads are, a stream of well-formed frames is decoded into the messages that the
-- frames hold, in order, with nothing added, lost or left over. `lines` is any line codec.
pub receive-wire :
    (lines : LinesCodec) (laws : IsLinesCodec lines) (max_length : ℕ) (frames : List Frame)
    (chunks : List Bytes)
    → AllSendable max_length frames
    → flatten chunks ≡ wire frames
    → receive lines (new lines max_length) [] chunks ≡ (bodies frames, new lines max_length, [])
unfolding new
receive-wire lines laws max_length frames chunks s w =
    receive-frames lines laws (lines.new_with_max_length max_length) chunks frames
      (rw (laws.max_length-new max_length) s) w
