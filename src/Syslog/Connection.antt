-- ===== src/Syslog/Connection.antt =====
-- ext/hyper_ruby/src/syslog.rs, `serve_stream`: a stream connection from its first byte to its last
-- message put into the channel of its delivery task. What the stream, the clock, the semaphore and
-- the channel do is the environment's.
pub mod Text
pub mod Replay
pub mod Whole
pub mod Mixed
pub mod Opening
use hyper_ruby.Common.{
  ℕ, zero, suc, Bool, true, false, not, [], ◌∷◌, ◌++◌, List, map, Option, none, some, if◌then◌else◌,
  length, Bytes, Result, ok, err,
}
use hyper_ruby.Syslog.Framing.{Framer, Decoded, new, decode, decode_eof}
use hyper_ruby.Syslog.Framing.Lines.{LinesCodec, FrameError}
use hyper_ruby.Syslog.Counters.{
  SyslogCounters, fetch_add, record_rejection, admit_pending, abandon_pending,
}
use hyper_ruby.Syslog.Delivery.{PendingMessage, stream}
use hyper_ruby.Syslog.Proxy.{IpAddr}
use hyper_ruby.Syslog.ProxyReader.{
  Read, bytes, eof, failed, deadline, HeaderRead, record_failure, read_proxy_header,
}

-- What is read, or happens while the connection waits for it: bytes, the first and the others, the
-- end of the stream, a failed read, the idle timeout, or the shutdown.
pub data Happening : Type 0 where
  got : ℕ → Bytes → Happening
  ended read_failed idle cancelled : Happening

-- For a message: the time, the next id, whether the semaphore gives a permit before it is closed,
-- and whether the delivery task is still there to take the message.
pub record Admission : Type 0 where
  pub at_ns : ℕ
  pub message_id : ℕ
  pub permit : Bool
  pub taken : Bool

unfoldable pub to_pending : Option Bytes → Admission → Bytes → PendingMessage
to_pending peer a message = record {
  message = message;
  utf8 = true;
  peer = peer;
  transport = stream;
  received_at_ns = a.at_ns;
  message_id = a.message_id;
}

-- What emitting the buffer leaves. `sent` is what has gone to the delivery task, `index` the number
-- of messages so far, and `goes_on` is false where the connection gives up.
pub record Emitted (C : Type 0) : Type 0 where
  pub framer : Framer C
  pub buffer : Bytes
  pub counters : SyslogCounters
  pub sent : List PendingMessage
  pub index : ℕ
  pub goes_on : Bool

abbrev pub after_sent : {C : Type 0} → PendingMessage → Emitted C → Emitted C
after_sent p e = record e { sent = p ∷ e.sent }

-- What became of a connection: what it sent, its statistics, and whether it is closed.
pub record Served : Type 0 where
  pub sent : List PendingMessage
  pub counters : SyslogCounters
  pub closed : Bool

-- `close_stream`, for the statistics.
unfoldable pub count_closed : SyslogCounters → SyslogCounters
count_closed c = record c { connections_closed = fetch_add c.connections_closed 1 }

abbrev pub finished : List PendingMessage → SyslogCounters → Served
finished sent c = record { sent = sent; counters = count_closed c; closed = true }

abbrev pub before_served : List PendingMessage → Served → Served
before_served sent s = record s { sent = sent ++ s.sent }

module _ (lines : LinesCodec) (peer : Option Bytes) (admission : ℕ → Admission) where
  open lines use {Codec}

  -- A message that was decoded: a permit, and the channel.
  unfoldable pub admit :
      Framer Codec → Bytes → SyslogCounters → ℕ → Bytes → Emitted Codec → Emitted Codec
  unfolding to_pending
  admit f src c i message more =
      let a = admission i in
      if not a.permit
      then record { framer = f; buffer = src; counters = c; sent = []; index = i; goes_on = false }
      else if not a.taken
      then record {
        framer = f;
        buffer = src;
        counters = abandon_pending (admit_pending c);
        sent = [];
        index = suc i;
        goes_on = false;
      }
      else after_sent (to_pending peer a message) more

  -- A result of the decoder; `more` goes on with the loop.
  unfoldable pub emit_decoded :
      (Framer Codec → Bytes → SyslogCounters → ℕ → Emitted Codec)
      → Decoded Codec
      → SyslogCounters
      → ℕ
      → Emitted Codec
  unfolding admit
  emit_decoded more (f, src, ok (some message)) c i =
      admit f src c i message (more f src (admit_pending c) (suc i))
  emit_decoded more (f, src, ok none) c i = record {
    framer = f;
    buffer = src;
    counters = c;
    sent = [];
    index = i;
    goes_on = true;
  }
  emit_decoded more (f, src, err e) c i =
      let rest = more f src (record_rejection e.reason c) i in
      if e.is_fatal
      then record {
        framer = f;
        buffer = src;
        counters = record_rejection e.reason c;
        sent = [];
        index = i;
        goes_on = false;
      }
      else rest

  -- The inner loop, by `decode` or by `decode_eof`.
  unfoldable pub emit :
      (Framer Codec → Bytes → Decoded Codec)
      → ℕ
      → Framer Codec
      → Bytes
      → SyslogCounters
      → ℕ
      → Emitted Codec
  unfolding emit_decoded
  emit step zero f src c i = record {
    framer = f;
    buffer = src;
    counters = c;
    sent = [];
    index = i;
    goes_on = true;
  }
  emit step (suc fuel) f src c i = emit_decoded (emit step fuel) (step f src) c i

  -- With fuel for as many calls as the buffer has bytes, and one.
  unfoldable pub emit_all :
      (Framer Codec → Bytes → Decoded Codec)
      → Framer Codec
      → Bytes
      → SyslogCounters
      → ℕ
      → Emitted Codec
  unfolding emit
  emit_all step f src c i = emit step (suc (length src)) f src c i

  -- The outer loop, from an emitted buffer on.
  unfoldable pub read_more : List Happening → Emitted Codec → Served
  unfolding emit_all
  read_more [] e =
      if e.goes_on
      then record { sent = e.sent; counters = e.counters; closed = false }
      else finished e.sent e.counters
  read_more (got b bs ∷ happenings) e =
      let rest =
        read_more happenings
          (emit_all (decode lines) e.framer (e.buffer ++ (b ∷ bs)) e.counters e.index) in
      if e.goes_on then before_served e.sent rest else finished e.sent e.counters
  read_more (ended ∷ happenings) e =
      let last = emit_all (decode_eof lines) e.framer e.buffer e.counters e.index in
      if e.goes_on then finished (e.sent ++ last.sent) last.counters else finished e.sent e.counters
  read_more (_ ∷ happenings) e = finished e.sent e.counters

  -- From the first decoding on.
  unfoldable pub serve_frames : ℕ → List Happening → Bytes → SyslogCounters → Served
  unfolding read_more
  serve_frames max_frame_bytes happenings buffer c =
      read_more happenings (emit_all (decode lines) (new lines max_frame_bytes) buffer c 0)

-- What the PROXY header reader left unread, as the loop behind it meets it.
abbrev pub later : Read → Happening
later (bytes b bs) = got b bs
later eof = ended
later failed = read_failed
later deadline = idle

-- `IpAddr::to_string` and the settings.
pub record Settings : Type 0 where
  pub show_ip : IpAddr → Bytes
  pub proxy_protocol : Bool
  pub max_frame_bytes : ℕ

abbrev pub peer_of : (IpAddr → Bytes) → Option Bytes → Option IpAddr → Option Bytes
peer_of show_ip peer (some source) = some (show_ip source)
peer_of show_ip peer none = peer

module _ (lines : LinesCodec) (settings : Settings) (admission : ℕ → Admission) where
  unfoldable pub after_header :
      Option Bytes → List Happening → SyslogCounters → Option HeaderRead → Served
  unfolding serve_frames
  after_header peer happenings c none = record { sent = []; counters = c; closed = false }
  after_header peer happenings c (some h) = elim h.result [
    | ok source ↦
        serve_frames lines (peer_of settings.show_ip peer source) admission settings.max_frame_bytes
          (map later h.unread ++ happenings) h.buffer c
    | err failure ↦ finished [] (record_failure failure c)
  ]

  -- `reads` are what the stream gives while the header is read, `happenings` what comes after.
  unfoldable pub serve_stream : Option Bytes → List Read → List Happening → SyslogCounters → Served
  unfolding after_header
  serve_stream peer reads happenings c =
      if settings.proxy_protocol
      then after_header peer happenings c (read_proxy_header [] reads)
      else serve_frames lines peer admission settings.max_frame_bytes
          (map later reads ++ happenings) [] c
