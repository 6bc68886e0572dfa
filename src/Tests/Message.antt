-- ===== src/Tests/Message.antt =====
-- A message that is taken twice, as a handler sees it.
use hyper_ruby.Common.{[], ◌∷◌, true, false, none, some, ◌≡◌, refl, sym, ap, List, map}
use hyper_ruby.Http.Text.{codes, to_string, digits_from}
use hyper_ruby.Syslog.Counters.{default}
use hyper_ruby.Syslog.Framing.Stream.Frames.{bodies}
use hyper_ruby.Syslog.ProxyReader.{bytes, eof}
use hyper_ruby.Syslog.Delivery.{
  PendingMessage, SyslogMessage, datagram, Answer, accepted, refused, deliver_stream_messages,
}
use hyper_ruby.Syslog.Connection.{Settings, serve_stream}
use hyper_ruby.Syslog.Connection.Replay.{pendings}
use hyper_ruby.Syslog.Connection.Whole.{serve_frames-wire}
use hyper_ruby.Syslog.Message.{name, inspect_message}
use hyper_ruby.Syslog.Message.Unchecked.{AllDefined, serve_stream-AllDefined}
use hyper_ruby.Tests.LineCodec.{test_lines, test_lines-IsLinesCodec}
use hyper_ruby.Tests.Framing.{three, three-IsSendable}
use hyper_ruby.Tests.Connections.{admission}

abbrev settings : Settings
settings = record { show_ip = λ ip. []; proxy_protocol = false; max_frame_bytes = 200 }

abbrev sent : List PendingMessage
sent = pendings none admission 0 (bodies (three ∷ []))

abbrev twice : List Answer
twice =
    record { retries = 0; queued = true; verdict = some refused; cancelled = false }
    ∷ record { retries = 3; queued = true; verdict = some accepted; cancelled = false }
    ∷ []

abbrev scripts : List (PendingMessage × List Answer)
scripts = map (λ p. (p, twice)) sent

scripts_sent :
    map (λ s. s.0) scripts
    ≡ (serve_stream test_lines settings admission none
        (bytes b'3' (codes " a b") ∷ eof ∷ [])
        []
        default).sent
unfolding serve_stream pendings
scripts_sent = sym (
    ap (λ s. s.sent)
      (serve_frames-wire test_lines test_lines-IsLinesCodec none admission 200 (three ∷ [])
        ((b'3', codes " a b") ∷ []) default (λ i. (refl, refl)) (three-IsSendable, tt) refl))

serve_stream-AllDefined_example : AllDefined (deliver_stream_messages scripts default).queued
serve_stream-AllDefined_example =
    serve_stream-AllDefined test_lines test_lines-IsLinesCodec settings admission none
      (bytes b'3' (codes " a b") ∷ eof ∷ []) [] scripts default default scripts_sent

abbrev of_datagram : SyslogMessage
of_datagram = record {
  bytes = codes "hello";
  utf8 = false;
  peer = none;
  transport = datagram;
  received_at_ns = 5;
  message_id = 42;
  attempt = 1;
}

inspect_datagram :
    inspect_message of_datagram
    ≡ codes "#<HyperRuby::SyslogMessage transport=:datagram bytes=5 message_id=42 attempt=1>"
unfolding inspect_message name to_string digits_from
inspect_datagram = refl
