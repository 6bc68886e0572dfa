-- ===== src/Syslog/Connection/Mixed.antt =====
-- A connection that carries frames and lines, from the first read to the end of the stream.
use hyper_ruby.Common.{
  ℕ, true, [], ◌∷◌, ◌++◌, ◌≡◌, refl, ap, ◌∙◌, List, Option, none, Bytes, Result, ok,
}
use hyper_ruby.Syslog.Framing.{Framer, decode_eof, decode_with, line_decoded, entry_state}
use hyper_ruby.Syslog.Framing.Lines.{
  LinesCodec, IsLinesCodec, ReadsLines, without_carriage_return, FrameError,
}
use hyper_ruby.Syslog.Framing.Stream.Sent.{
  Sent, AllSentSendable, transmission, sent_messages, IsLastLine, last_line,
}
use hyper_ruby.Syslog.Framing.Stream.Mixed.{receive-transmission}
use hyper_ruby.Syslog.Counters.{SyslogCounters}
use hyper_ruby.Syslog.ProxyReader.Stream.{contents}
use hyper_ruby.Syslog.Connection.{
  Admission, admit, emit_decoded, emit, emit_all, finished, serve_frames,
}
use hyper_ruby.Syslog.Connection.Replay.{AllAdmitted, count_results, is_open, pendings}
use hyper_ruby.Syslog.Connection.Whole.{
  reads_of, pieces, flatten-pieces, EndsWith, serve_frames-receive,
}

abbrev pub last_message : Bytes → List (Result FrameError Bytes)
last_message [] = []
last_message (b ∷ bs) = ok (without_carriage_return (b ∷ bs)) ∷ []

-- The messages of a whole transmission.
abbrev pub all_messages : List Sent → Bytes → List (Result FrameError Bytes)
all_messages ss raw = sent_messages ss ++ last_message raw

is_open-sent_messages : (ss : List Sent) → is_open (sent_messages ss) ≡ true
unfolding is_open
is_open-sent_messages [] = refl
is_open-sent_messages (s ∷ ss) = is_open-sent_messages ss

module _ (lines : LinesCodec) (laws : IsLinesCodec lines) (peer : Option Bytes)
    (admission : ℕ → Admission) (all : AllAdmitted admission) where
  open lines use {Codec}

  decode_eof-nil :
      (f : Framer Codec) → f.octet_decoding ≡ none → decode_eof lines f [] ≡ (f, [], ok none)
  unfolding decode_eof decode_with line_decoded entry_state
  decode_eof-nil f o = rw o (rw (laws.decode_eof_nil f.other) refl)

  -- The last line is handed over, and then nothing is left.
  EndsWith-last :
      (f h : Framer Codec) (raw : Bytes)
      → decode_eof lines f raw ≡ (h, [], ok (last_line raw))
      → h.octet_decoding ≡ none
      → EndsWith lines laws peer admission all f raw (last_message raw)
  unfolding emit_all emit emit_decoded admit pendings count_results
  EndsWith-last f h [] e o c i = rw e (refl, refl)
  EndsWith-last f h (b ∷ bs) e o c i =
      let (permit, taken) = all i in rw (e, decode_eof-nil h o, permit, taken) (refl, refl)

-- The decoding, from what is in the buffer when it starts to the end of the stream.
pub serve_frames-transmission :
    (lines : LinesCodec) (laws : IsLinesCodec lines) (reads : ReadsLines lines)
    (peer : Option Bytes) (admission : ℕ → Admission) (max_frame_bytes : ℕ) (ss : List Sent)
    (raw buffer : Bytes) (chunks : List (ℕ × Bytes)) (c : SyslogCounters)
    → AllAdmitted admission
    → AllSentSendable max_frame_bytes ss
    → IsLastLine max_frame_bytes raw
    → buffer ++ contents chunks ≡ transmission ss raw
    → serve_frames lines peer admission max_frame_bytes (reads_of chunks) buffer c
      ≡ finished
          (pendings peer admission 0 (all_messages ss raw))
          (count_results (all_messages ss raw) c)
serve_frames-transmission lines laws reads peer admission max ss raw buffer chunks c all good l w =
    let (g, d, r, e) =
      receive-transmission lines laws reads max ss raw (buffer ∷ pieces chunks) good l
        (ap (◌++◌ buffer) (flatten-pieces chunks) ∙ w) in
    serve_frames-receive lines laws peer admission all max buffer chunks (sent_messages ss)
      (last_message raw) g raw c r (is_open-sent_messages ss)
      (EndsWith-last lines laws peer admission all g _ raw e refl)
