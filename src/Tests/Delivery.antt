-- ===== src/Tests/Delivery.antt =====
-- Deliveries of syslog messages.
use hyper_ruby.Common.{[], ◌∷◌, true, false, List, none, some, ◌≡◌, ◌≤◌, suc, arith, length}
use hyper_ruby.Http.Text.{codes}
use hyper_ruby.Syslog.Counters.{SyslogCounters, default}
use hyper_ruby.Syslog.Delivery.{
  PendingMessage, stream, Answer, accepted, refused, failed, await_verdict, deliver, settle,
  deliver_one, next_message, abandon_all, deliver_stream_messages, min_refusal_delay,
}
use hyper_ruby.Syslog.Delivery.Attempts.{attempts, delays, deliver_one-attempts}
use hyper_ruby.Syslog.Delivery.Account.{InRange, Balanced, deliver_stream_messages-Balanced}
use hyper_ruby.Syslog.Delivery.Ends.{NoneWaits}

abbrev hello : PendingMessage
hello = record {
  message = codes "<13>1 hello";
  utf8 = true;
  peer = none;
  transport = stream;
  received_at_ns = 5;
  message_id = 9;
}

abbrev refusal : Answer
refusal = record { retries = 2; queued = true; verdict = some refused; cancelled = false }

abbrev acceptance : Answer
acceptance = record { retries = 0; queued = true; verdict = some accepted; cancelled = false }

abbrev failure_at_shutdown : Answer
failure_at_shutdown = record { retries = 0; queued = true; verdict = some failed; cancelled = true }

abbrev no_worker : Answer
no_worker = record { retries = 0; queued = false; verdict = none; cancelled = true }

deliver_one-attempts_example :
    let d = deliver_one hello 1 min_refusal_delay (refusal ∷ refusal ∷ acceptance ∷ []) default in
    (d.queued ≡ attempts hello 1 (length d.queued))
    × (d.slept ≡ delays 0 (length d.slept))
    × (length d.slept ≤ length d.queued)
    × (length d.queued ≤ suc (length d.slept))
deliver_one-attempts_example =
    deliver_one-attempts hello (refusal ∷ refusal ∷ acceptance ∷ []) default (omega arith)

abbrev three_waiting : SyslogCounters
three_waiting = record default { pending = 3 }

abbrev connection : List (PendingMessage × List Answer)
connection =
    (hello, refusal ∷ acceptance ∷ [])
    ∷ (hello, failure_at_shutdown ∷ [])
    ∷ (hello, no_worker ∷ [])
    ∷ []

three_waiting-InRange : InRange three_waiting
three_waiting-InRange = record { delivered_in = omega arith; abandoned_in = omega arith }

deliver_stream_messages-Balanced_example :
    Balanced three_waiting (deliver_stream_messages connection three_waiting)
deliver_stream_messages-Balanced_example =
    deliver_stream_messages-Balanced connection three_waiting three_waiting-InRange

connection-NoneWaits : NoneWaits (deliver_stream_messages connection three_waiting).ends
unfolding deliver_stream_messages deliver_one deliver settle await_verdict next_message abandon_all
connection-NoneWaits = (λ e. cc, (λ e. cc, (λ e. cc, tt)))
