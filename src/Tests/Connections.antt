-- ===== src/Tests/Connections.antt =====
-- Connections and datagrams.
use hyper_ruby.Common.{
  false, ℕ, ◌+◌, [], ◌∷◌, ◌++◌, List, Bytes, drop, true, none, some, ◌≡◌, refl, arith,
}
use hyper_ruby.Http.Text.{codes, to_string, digits_from}
use hyper_ruby.Syslog.Counters.{default, fetch_add}
use hyper_ruby.Syslog.Connection.{ended, Admission, finished, Settings, serve_stream}
use hyper_ruby.Syslog.Connection.Mixed.{all_messages}
use hyper_ruby.Syslog.Connection.Opening.{Opening, proxied, serve_stream-transmission}
use hyper_ruby.Syslog.Proxy.RoundTrip.{v2_header, announced}
use hyper_ruby.Syslog.ProxyReader.Stream.{arrived}
use hyper_ruby.Tests.Proxy.{addresses, client, whole_header}
use hyper_ruby.Syslog.Connection.Replay.{pendings, count_results}
use hyper_ruby.Syslog.Listener.{
  Listeners, start_listeners, accept, open_stream, leave_stream, accepts, opens, leaves, Reachable,
  at_start, after,
}
use hyper_ruby.Syslog.Listener.Limit.{IsWithin, Reachable-IsWithin}
use hyper_ruby.Syslog.Delivery.{PendingMessage, datagram}
use hyper_ruby.Syslog.Datagrams
use hyper_ruby.Syslog.Datagrams.{
  Datagrams, Arrival, receive_datagram, number_message, take_in, swap_gauge, start_datagrams,
}
use hyper_ruby.Syslog.Datagrams.Account.{IsHeld, Reachable-IsHeld}
use hyper_ruby.Tests.LineCodec.{test_lines, test_lines-IsLinesCodec}
use hyper_ruby.Tests.LineReads.{test_lines-ReadsLines}
use hyper_ruby.Tests.Framing.{mixed, rest_of, mixed-AllSentSendable, rest_of-IsLastLine}

abbrev pub admission : ℕ → Admission
admission i = record { at_ns = 100 + i; message_id = 7 + i; permit = true; taken = true }

-- Behind a proxy: a header, and what it stands before.
abbrev pub proxied_settings : Settings
proxied_settings = record {
  show_ip = λ ip. codes "192.0.2.10";
  proxy_protocol = true;
  max_frame_bytes = 200;
}

pub proxied-Opening : Opening proxied_settings whole_header (some client)
unfolding announced v2_header
proxied-Opening = proxied 0x11 0x1 addresses refl (omega arith) (omega arith) refl

abbrev pub proxied_reads : List (ℕ × Bytes)
proxied_reads =
    (0x0d, drop 1 whole_header ++ codes "19 <13>1 abc d")
    ∷ (b'e', codes "f ghi x<13>2 line" ++ (b'\r' ∷ []))
    ∷ (b'\n', codes "3 a")
    ∷ (b' ', codes "b<13>4 end")
    ∷ []

serve_stream-transmission_example :
    serve_stream test_lines proxied_settings admission none
      (arrived proxied_reads)
      (ended ∷ [])
      default
    ≡ finished
        (pendings (some (codes "192.0.2.10")) admission 0 (all_messages mixed rest_of))
        (count_results (all_messages mixed rest_of) default)
unfolding to_string digits_from
serve_stream-transmission_example =
    serve_stream-transmission test_lines test_lines-IsLinesCodec test_lines-ReadsLines
      proxied_settings none admission whole_header (some client) mixed rest_of proxied_reads default
      proxied-Opening (λ i. (refl, refl)) mixed-AllSentSendable rest_of-IsLastLine refl

-- Two listeners and a limit of one: the first connection is opened and leaves the counter, and is
-- not yet counted as closed, while the second waits for its refusal.
abbrev raced : Listeners
raced = leave_stream (open_stream (accept 1 (accept 1 (start_listeners 2))))

raced-Reachable : Reachable 1 2 raced
unfolding start_listeners accept open_stream fetch_add
raced-Reachable =
    after
      (after (after (after at_start (accepts (omega arith))) (accepts (omega arith)))
        (opens (omega arith)))
      (leaves (omega arith))

Reachable-IsWithin_example : IsWithin 1 2 raced
Reachable-IsWithin_example = Reachable-IsWithin 1 2 raced (omega arith) raced-Reachable

abbrev hello : Arrival
hello = record { octets = codes "<13>1 hello"; peer = codes "192.0.2.10"; at_ns = 5 }

abbrev long : Arrival
long = record hello { octets = codes "<13>1 hello, hello, hello" }

-- A datagram is numbered and taken in, and then a drain takes the gauge; a longer one is cut short.
abbrev permitted_one : Datagrams
permitted_one = receive_datagram 16 hello (start_datagrams 1000 1)

abbrev numbered_one : Datagrams
numbered_one = number_message hello.octets hello permitted_one

abbrev hello_message : PendingMessage
hello_message = record {
  message = hello.octets;
  utf8 = false;
  peer = some hello.peer;
  transport = datagram;
  received_at_ns = hello.at_ns;
  message_id = 1;
}

abbrev received_both : Datagrams
received_both = swap_gauge (receive_datagram 16 long (take_in hello_message numbered_one))

permitted_one-Reachable : Datagrams.Reachable 16 1000 1 permitted_one
unfolding start_datagrams
permitted_one-Reachable = Datagrams.after Datagrams.at_start (Datagrams.receives hello refl)

numbered_one-Reachable : Datagrams.Reachable 16 1000 1 numbered_one
unfolding start_datagrams receive_datagram
numbered_one-Reachable =
    Datagrams.after permitted_one-Reachable (Datagrams.numbers hello.octets hello refl)

taken_in : Datagrams.Reachable 16 1000 1 (take_in hello_message numbered_one)
unfolding start_datagrams receive_datagram number_message
taken_in = Datagrams.after numbered_one-Reachable (Datagrams.takes_in hello_message refl)

received_both-Reachable : Datagrams.Reachable 16 1000 1 received_both
unfolding take_in
received_both-Reachable =
    Datagrams.after (Datagrams.after taken_in (Datagrams.receives long refl)) Datagrams.swaps

Reachable-IsHeld_example : IsHeld 16 1000 received_both
Reachable-IsHeld_example =
    Reachable-IsHeld 16 1000 1 received_both (omega arith) received_both-Reachable
