-- ===== src/Syslog/Delivery.antt =====
-- ext/hyper_ruby/src/syslog.rs, `Dispatcher::deliver` and `deliver_stream_messages`: how the
-- messages of one connection get to the Ruby workers. What the worker queue, the handlers and the
-- shutdown token do is the environment's, and comes as a script, one entry to an attempt.
pub mod Attempts
pub mod Account
pub mod Ends
use hyper_ruby.Common.{
  ℕ, zero, suc, ◌+◌, ◌*◌, ◌%◌, min, Bool, true, false, [], ◌∷◌, ◌++◌, List, Option, none, some,
  if◌then◌else◌, Bytes,
}
use hyper_ruby.Rust.Word.{u32_mod}
use hyper_ruby.Syslog.Counters.{SyslogCounters, fetch_add, release_pending, abandon_pending}

-- Milliseconds.
abbrev pub min_refusal_delay : ℕ
min_refusal_delay = 5

abbrev pub max_refusal_delay : ℕ
max_refusal_delay = 500

pub data Transport : Type 0 where
  stream datagram : Transport

pub record PendingMessage : Type 0 where
  pub message : Bytes
  pub utf8 : Bool
  pub peer : Option Bytes
  pub transport : Transport
  pub received_at_ns : ℕ
  pub message_id : ℕ

-- What a worker block is given.
pub record SyslogMessage : Type 0 where
  pub bytes : Bytes
  pub utf8 : Bool
  pub peer : Option Bytes
  pub transport : Transport
  pub received_at_ns : ℕ
  pub message_id : ℕ
  pub attempt : ℕ

pub data HandlerResult : Type 0 where
  accepted refused failed : HandlerResult

pub data DeliveryOutcome : Type 0 where
  delivery_accepted delivery_refused unavailable : DeliveryOutcome

-- What the environment makes of one attempt: how often the queue is found full before it takes
-- the message or is found disconnected, the verdict (`none` where the worker drops its end), and
-- whether the shutdown token is cancelled afterwards.
pub record Answer : Type 0 where
  pub retries : ℕ
  pub queued : Bool
  pub verdict : Option HandlerResult
  pub cancelled : Bool

unfoldable pub to_message : PendingMessage → ℕ → SyslogMessage
to_message p attempt = record {
  bytes = p.message;
  utf8 = p.utf8;
  peer = p.peer;
  transport = p.transport;
  received_at_ns = p.received_at_ns;
  message_id = p.message_id;
  attempt = attempt;
}

unfoldable pub await_verdict :
    Option HandlerResult → SyslogCounters → DeliveryOutcome × SyslogCounters
await_verdict (some accepted) c =
    (delivery_accepted, record c { messages_delivered = fetch_add c.messages_delivered 1 })
await_verdict (some refused) c =
    (delivery_refused, record c { deliveries_refused = fetch_add c.deliveries_refused 1 })
await_verdict (some failed) c =
    (delivery_refused, record c { handler_errors = fetch_add c.handler_errors 1 })
await_verdict none c = (unavailable, c)

-- The outcome, the counters, and the messages that got into the queue. A full queue is waited on
-- and tried again, `retries` times, and changes nothing.
unfoldable pub deliver :
    PendingMessage
    → ℕ
    → Answer
    → SyslogCounters
    → DeliveryOutcome × SyslogCounters × List SyslogMessage
unfolding await_verdict to_message
deliver p attempt a c =
    let (outcome, c') = await_verdict a.verdict c in
    if a.queued then (outcome, c', to_message p attempt ∷ []) else (unavailable, c, [])

-- How one message ended: `waiting` where the script ends before the delivery does.
pub data Ended : Type 0 where
  released abandoned workers_gone waiting : Ended

-- What the delivery of one message did: its end, the counters, what was queued, and the delays
-- that were slept.
pub record Delivered : Type 0 where
  pub ended : Ended
  pub counters : SyslogCounters
  pub queued : List SyslogMessage
  pub slept : List ℕ

abbrev finish : Ended → SyslogCounters → List SyslogMessage → Delivered
finish e c q = record { ended = e; counters = c; queued = q; slept = [] }

abbrev after_sleep : ℕ → List SyslogMessage → Delivered → Delivered
after_sleep delay q d = record d { queued = q ++ d.queued; slept = delay ∷ d.slept }

-- After one attempt; `again` is the rest of the loop.
unfoldable pub settle :
    DeliveryOutcome × SyslogCounters × List SyslogMessage
    → Bool
    → ℕ
    → (SyslogCounters → Delivered)
    → Delivered
settle (delivery_accepted, c, q) cancelled delay again = finish released (release_pending c) q
settle (unavailable, c, q) cancelled delay again = finish workers_gone (abandon_pending c) q
settle (delivery_refused, c, q) true delay again = finish abandoned (abandon_pending c) q
settle (delivery_refused, c, q) false delay again = after_sleep delay q (again c)

-- The inner loop; the attempt is a `u32`.
unfoldable pub deliver_one : PendingMessage → ℕ → ℕ → List Answer → SyslogCounters → Delivered
unfolding settle
deliver_one p attempt delay [] c = finish waiting c []
deliver_one p attempt delay (a ∷ answers) c =
    settle (deliver p attempt a c) a.cancelled delay
      (deliver_one p ((attempt + 1) % u32_mod) (min (delay * 2) max_refusal_delay) answers)

-- What became of the messages of a connection.
pub record Drained : Type 0 where
  pub ends : List Ended
  pub counters : SyslogCounters
  pub queued : List SyslogMessage

abbrev prepend_end : Ended → List SyslogMessage → Drained → Drained
prepend_end e q d = record d { ends = e ∷ d.ends; queued = q ++ d.queued }

-- Once the workers are gone, each message that is left is abandoned.
unfoldable pub abandon_all : List (PendingMessage × List Answer) → SyslogCounters → Drained
abandon_all [] c = record { ends = []; counters = c; queued = [] }
abandon_all (_ ∷ messages) c = prepend_end abandoned [] (abandon_all messages (abandon_pending c))

unfoldable pub next_message :
    Delivered → (SyslogCounters → Drained) → (SyslogCounters → Drained) → Drained
next_message d goes_on gone = elim d.ended [
  | waiting ↦ record { ends = waiting ∷ []; counters = d.counters; queued = d.queued }
  | workers_gone ↦ prepend_end workers_gone d.queued (gone d.counters)
  | e ↦ prepend_end e d.queued (goes_on d.counters)
]

-- The messages that come out of the channel, each with what happens to it; a message that still
-- waits keeps those behind it waiting too.
unfoldable pub deliver_stream_messages :
    List (PendingMessage × List Answer) → SyslogCounters → Drained
unfolding next_message
deliver_stream_messages [] c = record { ends = []; counters = c; queued = [] }
deliver_stream_messages ((p, answers) ∷ messages) c =
    next_message (deliver_one p 1 min_refusal_delay answers c) (deliver_stream_messages messages)
      (abandon_all messages)
