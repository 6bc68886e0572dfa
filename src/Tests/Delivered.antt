-- ===== src/Tests/Delivered.antt =====
-- A connection behind a proxy, and a block that turns every message down once.
use hyper_ruby.Common.{ℕ, [], ◌∷◌, ◌==◌, not, none, some, ◌≡◌, refl, arith}
use hyper_ruby.Http.Text.{codes, to_string, digits_from}
use hyper_ruby.Syslog.Counters.{default}
use hyper_ruby.Syslog.ProxyReader.Stream.{arrived}
use hyper_ruby.Syslog.Connection.{ended, serve_stream}
use hyper_ruby.Syslog.Connection.Mixed.{all_messages}
use hyper_ruby.Syslog.Connection.Replay.{pendings}
use hyper_ruby.Syslog.Delivery.{PendingMessage, to_message, deliver_stream_messages}
use hyper_ruby.Worker.{
  Argument, request, grpc_request, message, BlockResult, raised, value, verdict_of,
}
use hyper_ruby.Worker.Delivered.{
  IsPatient, scripts, all_attempts, all_released, serve_stream-delivered,
}
use hyper_ruby.Tests.LineCodec.{test_lines, test_lines-IsLinesCodec}
use hyper_ruby.Tests.LineReads.{test_lines-ReadsLines}
use hyper_ruby.Tests.Framing.{mixed, rest_of, mixed-AllSentSendable, rest_of-IsLastLine}
use hyper_ruby.Tests.Proxy.{client, whole_header}
use hyper_ruby.Tests.Connections.{admission, proxied_settings, proxied-Opening, proxied_reads}

abbrev hesitant : Argument → BlockResult
hesitant (request r) = raised
hesitant (grpc_request g) = raised
hesitant (message m) = value (not (m.attempt == 1))

abbrev once : PendingMessage → ℕ
once p = 1

hesitant-IsPatient : IsPatient hesitant once
unfolding verdict_of to_message
hesitant-IsPatient = record { takes = λ p. ((λ e. cc), refl); numbered = λ p. omega arith }

serve_stream-delivered_example :
    let served =
      serve_stream test_lines proxied_settings admission none
        (arrived proxied_reads)
        (ended ∷ [])
        default in
    let ps = pendings (some (codes "192.0.2.10")) admission 0 (all_messages mixed rest_of) in
    let d = deliver_stream_messages (scripts hesitant once served.sent) served.counters in
    (d.ends ≡ all_released hesitant once ps) × (d.queued ≡ all_attempts hesitant once ps)
unfolding to_string digits_from
serve_stream-delivered_example =
    serve_stream-delivered hesitant once test_lines test_lines-IsLinesCodec test_lines-ReadsLines
      proxied_settings none admission whole_header (some client) mixed rest_of proxied_reads default
      hesitant-IsPatient proxied-Opening (λ i. (refl, refl)) mixed-AllSentSendable
      rest_of-IsLastLine refl
