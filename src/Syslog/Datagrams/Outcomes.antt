-- ===== src/Syslog/Datagrams/Outcomes.antt =====
-- The delivery of a datagram and the count of its outcome leave the gauge as it is.
use hyper_ruby.Common.{◌≡◌, refl, arith, Option, none, some}
use hyper_ruby.Syslog.Counters.{SyslogCounters}
use hyper_ruby.Syslog.Delivery.{
  PendingMessage, Answer, HandlerResult, accepted, refused, failed, DeliveryOutcome,
  delivery_accepted, delivery_refused, unavailable, deliver, await_verdict,
}
use hyper_ruby.Syslog.Datagrams.{count_outcome}

await_verdict-pending :
    (v : Option HandlerResult) (c : SyslogCounters) → (await_verdict v c).1.pending ≡ c.pending
unfolding await_verdict
await_verdict-pending (some accepted) c = refl
await_verdict-pending (some refused) c = refl
await_verdict-pending (some failed) c = refl
await_verdict-pending none c = refl

pub deliver-pending :
    (p : PendingMessage) (a : Answer) (c : SyslogCounters) → (deliver p 1 a c).1.pending ≡ c.pending
unfolding deliver
deliver-pending p a c = ground (arith, await_verdict-pending a.verdict c)

pub count_outcome-pending :
    (o : DeliveryOutcome) (c : SyslogCounters) → (count_outcome o c).pending ≡ c.pending
unfolding count_outcome
count_outcome-pending delivery_accepted c = refl
count_outcome-pending delivery_refused c = refl
count_outcome-pending unavailable c = refl
