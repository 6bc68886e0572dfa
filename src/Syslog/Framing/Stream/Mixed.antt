-- ===== src/Syslog/Framing/Stream/Mixed.antt =====
-- A stream that mixes octet counted frames and lines, cut into reads.
use hyper_ruby.Common.{
  ℕ, true, [], ◌∷◌, ◌++◌, ◌≡◌, ◌≢◌, refl, ap, sym, ◌∙◌, subst, arith, List, none, some, length,
  Bytes, ok,
}
use hyper_ruby.Rust.Utf8.{from_utf8}
use hyper_ruby.Syslog.Framing.{Framer, entry_state, line_decoded, new, decode_eof, decode_with}
use hyper_ruby.Syslog.Framing.Lines.{
  LinesCodec, IsLinesCodec, ReadsLines, IsLine, without_carriage_return,
}
use hyper_ruby.Syslog.Framing.Stream.{receive}
use hyper_ruby.Syslog.Framing.Stream.Units.{flatten, Units, AllGood, stream_of, receive-units}
use hyper_ruby.Syslog.Framing.Stream.Sent.{
  Sent, sent_octets, sent_message, IsSentSendable, AllSentSendable, transmission, sent_messages,
  IsUnfinished, IsUnfinished-front, length-sent_octets, IsLastLine, last_line,
  without_carriage_return-nonempty,
}
use hyper_ruby.Syslog.Framing.Stream.Ready.{
  idle, Ready, fresh, counting, scanning, Ready-append, decode_unfinished, decode_sent,
  decode_sent_part,
}

module _ (lines : LinesCodec) (laws : IsLinesCodec lines) (reads : ReadsLines lines) (m : ℕ) where
  abbrev sent_units : (raw : Bytes) → IsUnfinished m raw → Units lines
  sent_units raw u = record {
    U = Sent;
    octets_of = sent_octets;
    message = sent_message;
    IsGood = IsSentSendable m;
    Ready = Ready lines laws reads m;
    tail = raw;
    nonempty = length-sent_octets m;
    extend = Ready-append lines laws reads m;
    whole = decode_sent lines laws reads m;
    part = decode_sent_part lines laws reads m;
    pending = λ f src rest r e.
        decode_unfinished lines laws reads m f src
          (IsUnfinished-front m src rest (subst (IsUnfinished m) e u)) r;
  }

  AllSentSendable-AllGood :
      (ss : List Sent) (raw : Bytes) (u : IsUnfinished m raw)
      → AllSentSendable m ss
      → AllGood lines (sent_units raw u) ss
  AllSentSendable-AllGood [] raw u good = tt
  AllSentSendable-AllGood (s ∷ ss) raw u good = (good.0, AllSentSendable-AllGood ss raw u good.1)

  stream_of-transmission :
      (ss : List Sent) (raw : Bytes) (u : IsUnfinished m raw)
      → stream_of lines (sent_units raw u) ss ≡ transmission ss raw
  stream_of-transmission [] raw u = refl
  stream_of-transmission (s ∷ ss) raw u =
      ap (◌++◌ (sent_octets s)) (stream_of-transmission ss raw u)

  pub receive-sent :
      (chunks : List Bytes) (ss : List Sent) (raw : Bytes) (c : lines.Codec)
      → lines.max_length c ≡ m
      → reads.Reading c []
      → AllSentSendable m ss
      → IsUnfinished m raw
      → flatten chunks ≡ transmission ss raw
      → (g : Framer lines.Codec) × (receive lines (idle lines laws reads m c) [] chunks
          ≡ (sent_messages ss, g, raw))
        × Ready lines laws reads m g raw
  receive-sent chunks ss raw c k r good u w =
      receive-units lines (sent_units raw u) chunks (idle lines laws reads m c) ss
        (fresh c k r refl) (AllSentSendable-AllGood ss raw u good)
        (w ∙ sym (stream_of-transmission ss raw u))

  read_last :
      (c : lines.Codec) (seen more src : Bytes)
      → lines.max_length c ≡ m
      → reads.Reading c seen
      → src ≡ seen ++ more
      → IsLastLine m src
      → without_carriage_return src ≢ []
      → (d : lines.Codec) × (lines.decode_eof c src
          ≡ (d, [], ok (some (without_carriage_return src))))
  read_last c seen more src k r p l ne =
      let whole =
        reads.last c seen more r (subst IsLine p l.unfinished.no_newline)
          (omega (arith, l.unfinished.fits, ap length p, k))
          (subst (λ x. from_utf8 (without_carriage_return x) ≡ true) p l.text)
          (subst (λ x. without_carriage_return x ≢ []) p ne) in
      rw p whole

  -- At the end of the stream, what is left is the last line.
  pub decode_eof_last :
      (f : Framer lines.Codec) (raw : Bytes)
      → IsLastLine m raw
      → Ready lines laws reads m f raw
      → (c : lines.Codec) × (decode_eof lines f raw
          ≡ (idle lines laws reads m c, [], ok (last_line raw)))
  unfolding decode_eof decode_with line_decoded entry_state
  decode_eof_last f [] l (fresh c k r e) = (c, rw e (rw (laws.decode_eof_nil c) refl))
  decode_eof_last f [] l (counting c b bs k r e s d) = cc
  decode_eof_last f [] l (scanning c b seen more k r e s d) = cc
  decode_eof_last f (b ∷ bs) l (fresh c k r e) =
      let (d, e') =
        read_last c [] (b ∷ bs) (b ∷ bs) k r refl l
          (without_carriage_return-nonempty b bs l.not_return) in
      (d, rw (e, l.unfinished.uncounted, e') refl)
  decode_eof_last f (b ∷ bs) l (counting c b' bs' k r e s d) =
      let same : b ≡ b' = cc in absurd (cc (l.unfinished.uncounted))
  decode_eof_last f (b ∷ bs) l (scanning c b' seen more k r e s d) =
      let (x, e') =
        read_last c (b' ∷ seen) more (b ∷ bs) k r s l
          (without_carriage_return-nonempty b bs l.not_return) in
      (x, rw (e, l.unfinished.uncounted, e') refl)

-- A stream of messages in any order, some with their length in decimal in front, some as lines, cut
-- into any reads, is decoded into the messages, in order and with nothing added or lost. The line that
-- it may break off in stays in the buffer and is the message that the end of the stream hands over.
-- A line comes without its line end. This is where no message is over the maximum, which is at least 2
-- and addressable, and for a line sent with a carriage return the message and the carriage return
-- together are not over it; each message is UTF-8, a counted one is not empty, a line has no digit from 1 to 9 at its
-- start, and what ends the stream is more than a carriage return; `lines` is any line codec that does
-- what its documentation says.
pub receive-transmission :
    (lines : LinesCodec) (laws : IsLinesCodec lines) (reads : ReadsLines lines) (max_length : ℕ)
    (ss : List Sent) (raw : Bytes) (chunks : List Bytes)
    → AllSentSendable max_length ss
    → IsLastLine max_length raw
    → flatten chunks ≡ transmission ss raw
    → (g : Framer lines.Codec) × (c : lines.Codec) × (receive lines (new lines max_length) [] chunks
        ≡ (sent_messages ss, g, raw))
      × (decode_eof lines g raw
          ≡ (record { other = c; octet_decoding = none }, [], ok (last_line raw)))
unfolding new
receive-transmission lines laws reads m ss raw chunks good l w =
    let (g, e, r) =
      receive-sent lines laws reads m chunks ss raw (lines.new_with_max_length m)
        (laws.max_length-new m) (reads.new m) good l.unfinished w in
    let (c, e') = decode_eof_last lines laws reads m g raw l r in (g, c, e, e')
