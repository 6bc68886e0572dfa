-- ===== src/Syslog/Connection/Whole.antt =====
-- A connection that carries well-formed frames, from the first read to the end of the stream.
use hyper_ruby.Common.{
  ℕ, suc, true, [], ◌∷◌, ◌++◌, ◌≡◌, refl, ap, sym, ◌∙◌, subst, append_assoc, append-nil, arith,
  List, Option, none, length, Bytes, Result, ok, err,
}
use hyper_ruby.Syslog.Framing.{Framer, new, decode_eof, decode_with, line_decoded, entry_state}
use hyper_ruby.Syslog.Framing.Lines.{LinesCodec, IsLinesCodec, FrameError}
use hyper_ruby.Syslog.Framing.Octets.{Frame}
use hyper_ruby.Syslog.Framing.Stream.{decode_all, receive}
use hyper_ruby.Syslog.Framing.Stream.Units.{flatten}
use hyper_ruby.Syslog.Framing.Stream.Frames.{AllSendable, wire, bodies, receive-wire}
use hyper_ruby.Syslog.Counters.{SyslogCounters}
use hyper_ruby.Syslog.ProxyReader.Stream.{contents}
use hyper_ruby.Syslog.Delivery.{PendingMessage}
use hyper_ruby.Syslog.Connection.{
  Happening, got, ended, Admission, to_pending, Emitted, emit_decoded, emit, emit_all, finished,
  before_served, read_more, serve_frames,
}
use hyper_ruby.Syslog.Connection.Replay.{
  AllAdmitted, count_results, count_messages, is_open, pendings, replay, emit-replay,
}

-- Reads that give bytes, and then the end of the stream.
abbrev pub reads_of : List (ℕ × Bytes) → List Happening
reads_of [] = ended ∷ []
reads_of ((b, bs) ∷ chunks) = got b bs ∷ reads_of chunks

abbrev pub pieces : List (ℕ × Bytes) → List Bytes
pieces [] = []
pieces ((b, bs) ∷ chunks) = (b ∷ bs) ∷ pieces chunks

pub flatten-pieces : (chunks : List (ℕ × Bytes)) → flatten (pieces chunks) ≡ contents chunks
flatten-pieces [] = refl
flatten-pieces ((b, bs) ∷ chunks) = ap (◌++◌ (b ∷ bs)) (flatten-pieces chunks)

abbrev pub Results : Type 0
Results = List (Result FrameError Bytes)

count_results-append :
    (a b : Results) (c : SyslogCounters)
    → count_results (a ++ b) c ≡ count_results b (count_results a c)
unfolding count_results
count_results-append [] b c = refl
count_results-append (ok m ∷ a) b c = count_results-append a b _
count_results-append (err e ∷ a) b c = count_results-append a b _

pendings-append :
    (peer : Option Bytes) (admission : ℕ → Admission) (i : ℕ) (a b : Results)
    → pendings peer admission i (a ++ b)
      ≡ pendings peer admission i a ++ pendings peer admission (count_messages a i) b
unfolding pendings count_messages
pendings-append peer admission i [] b = refl
pendings-append peer admission i (ok m ∷ a) b =
    ap (◌∷◌ (to_pending peer (admission i) m)) (pendings-append peer admission (suc i) a b)
pendings-append peer admission i (err e ∷ a) b = pendings-append peer admission i a b

is_open-append : (a b : Results) → is_open (a ++ b) ≡ true → (is_open a ≡ true) × (is_open b ≡ true)
unfolding is_open
is_open-append [] b h = (refl, h)
is_open-append (ok m ∷ a) b h = is_open-append a b h
is_open-append (err e ∷ a) b h = ground (arith, is_open-append a b)

module _ (lines : LinesCodec) (laws : IsLinesCodec lines) (peer : Option Bytes)
    (admission : ℕ → Admission) (all : AllAdmitted admission) where
  open lines use {Codec}

  -- At the end of the stream, between two frames.
  pub emit_eof :
      (f : Framer Codec) (c : SyslogCounters) (i : ℕ)
      → f.octet_decoding ≡ none
      → emit_all lines peer admission (decode_eof lines) f [] c i
        ≡ record { framer = f; buffer = []; counters = c; sent = []; index = i; goes_on = true }
  unfolding emit_all emit emit_decoded decode_eof decode_with line_decoded entry_state
  emit_eof f c i o = rw o (rw (laws.decode_eof_nil f.other) refl)

  together :
      (sent : List PendingMessage) (a b : Results) (c : SyslogCounters) (i : ℕ)
      → before_served sent (
          finished
            (pendings peer admission i a ++ pendings peer admission (count_messages a i) b)
            (count_results b (count_results a c)))
        ≡ finished (sent ++ pendings peer admission i (a ++ b)) (count_results (a ++ b) c)
  together sent a b c i = rw (pendings-append peer admission i a b, count_results-append a b c) refl

  -- What is left at the end of the stream gives these results.
  abbrev pub EndsWith : Framer Codec → Bytes → Results → Type 0
  EndsWith f src tail =
      (c : SyslogCounters) (i : ℕ)
      → let e = emit_all lines peer admission (decode_eof lines) f src c i in
        (e.sent ≡ pendings peer admission i tail) × (e.counters ≡ count_results tail c)

  -- What the decoder makes of the stream tells what becomes of the connection.
  pub read_more-receive :
      (chunks : List (ℕ × Bytes)) (tail : Results) (e : Emitted Codec)
      → e.goes_on ≡ true
      → let r = receive lines e.framer e.buffer (pieces chunks) in
        is_open r.0 ≡ true
        → EndsWith r.1 r.2 tail
        → read_more lines peer admission (reads_of chunks) e
          ≡ finished
              (e.sent ++ pendings peer admission e.index (r.0 ++ tail))
              (count_results (r.0 ++ tail) e.counters)
  unfolding read_more receive replay emit_all
  read_more-receive [] tail e g o z =
      let (sent, counters) = z e.counters e.index in rw (g, sent, counters) refl
  read_more-receive ((b, bs) ∷ chunks) tail e g o z =
      let src = e.buffer ++ (b ∷ bs) in
      let fuel = suc (length src) in
      let d = decode_all lines fuel e.framer src in
      let next = replay peer admission d e.counters e.index in
      let r = receive lines d.1 d.2 (pieces chunks) in
      let (here, rest) = is_open-append d.0 r.0 o in
      let emitted = emit-replay lines peer admission all fuel e.framer src e.counters e.index in
      rw g (
        ap (λ x. before_served e.sent (read_more lines peer admission (reads_of chunks) x)) emitted
        ∙ ap (before_served e.sent) (read_more-receive chunks tail next here rest z)
        ∙ together e.sent d.0 (r.0 ++ tail) e.counters e.index
        ∙ ap
            (λ x.
              finished (e.sent ++ pendings peer admission e.index x) (count_results x e.counters))
            (sym (append_assoc d.0 r.0 tail)))

  -- From the first decoding on, of what is in the buffer when it starts.
  pub serve_frames-receive :
      (max_frame_bytes : ℕ) (buffer : Bytes) (chunks : List (ℕ × Bytes)) (out tail : Results)
      (g : Framer Codec) (src : Bytes) (c : SyslogCounters)
      → receive lines (new lines max_frame_bytes) [] (buffer ∷ pieces chunks) ≡ (out, g, src)
      → is_open out ≡ true
      → EndsWith g src tail
      → serve_frames lines peer admission max_frame_bytes (reads_of chunks) buffer c
        ≡ finished (pendings peer admission 0 (out ++ tail)) (count_results (out ++ tail) c)
  unfolding serve_frames receive replay emit_all
  serve_frames-receive max_frame_bytes buffer chunks out tail g src c r o z =
      let f = new lines max_frame_bytes in
      let d = decode_all lines (suc (length buffer)) f buffer in
      let later = receive lines d.1 d.2 (pieces chunks) in
      let (here, rest) = is_open-append d.0 later.0 (ap (λ x. is_open x.0) r ∙ o) in
      ap (read_more lines peer admission (reads_of chunks))
        (emit-replay lines peer admission all (suc (length buffer)) f buffer c 0)
      ∙ read_more-receive chunks tail (replay peer admission d c 0) here rest
          (subst (λ x. EndsWith x.1 x.2 tail) (sym r) z)
      ∙ together [] d.0 (later.0 ++ tail) c 0
      ∙ ap (λ x. finished (pendings peer admission 0 x) (count_results x c))
          (sym (append_assoc d.0 later.0 tail) ∙ ap (λ x. x.0 ++ tail) r)

is_open-bodies : (frames : List Frame) → is_open (bodies frames) ≡ true
unfolding is_open
is_open-bodies [] = refl
is_open-bodies (fr ∷ frames) = is_open-bodies frames

-- A connection that carries well-formed frames and then ends, cut into any reads, sends every
-- message of the frames to its delivery task, in order and with nothing else, counts each as
-- pending and none as rejected, and closes; if the delivery task stays and permits are to be had.
pub serve_frames-wire :
    (lines : LinesCodec) (laws : IsLinesCodec lines) (peer : Option Bytes)
    (admission : ℕ → Admission) (max_frame_bytes : ℕ) (frames : List Frame)
    (chunks : List (ℕ × Bytes)) (c : SyslogCounters)
    → AllAdmitted admission
    → AllSendable max_frame_bytes frames
    → contents chunks ≡ wire frames
    → serve_frames lines peer admission max_frame_bytes (reads_of chunks) [] c
      ≡ finished (pendings peer admission 0 (bodies frames)) (count_results (bodies frames) c)
unfolding new pendings count_results
serve_frames-wire lines laws peer admission max_frame_bytes frames chunks c all s w =
    let f = new lines max_frame_bytes in
    let r =
      receive-wire lines laws max_frame_bytes frames ([] ∷ pieces chunks) s
        (flatten-pieces chunks ∙ w) in
    serve_frames-receive lines laws peer admission all max_frame_bytes [] chunks (bodies frames) []
      f [] c r (is_open-bodies frames)
      (λ c i. rw (emit_eof lines laws peer admission all f c i refl) (refl, refl))
    ∙ ap (λ x. finished (pendings peer admission 0 x) (count_results x c))
        (append-nil (bodies frames))
