-- ===== src/Syslog/Delivery/Account.antt =====
-- The counters against the ends of the messages.
use hyper_ruby.Common.{
  ℕ, suc, ◌+◌, ◌-◌, ◌*◌, ◌%◌, ◌<◌, min, Bool, true, false, [], ◌∷◌, ◌++◌, ◌≡◌, append-nil, refl,
  arith, List,
}
use hyper_ruby.Rust.Word.{u32_mod, usize_mod}
use hyper_ruby.Syslog.Counters.{SyslogCounters, fetch_add, release_pending, abandon_pending}
use hyper_ruby.Syslog.Delivery.{
  min_refusal_delay, max_refusal_delay, PendingMessage, SyslogMessage, DeliveryOutcome,
  delivery_accepted, delivery_refused, unavailable, Answer, deliver, Ended, released, abandoned,
  workers_gone, waiting, Delivered, settle, deliver_one, Drained, abandon_all, next_message,
  deliver_stream_messages,
}

-- How an end shows in the counters: a message that is released was delivered, once; one that is
-- not was abandoned; in either case, and only then, the gauge goes down by one.
abbrev pub Counted : Ended → SyslogCounters → SyslogCounters → Type 0
Counted released c c' =
    (c'.messages_delivered ≡ fetch_add c.messages_delivered 1)
    × (c'.abandoned_at_shutdown ≡ c.abandoned_at_shutdown)
    × (c'.pending ≡ c.pending - 1)
Counted waiting c c' =
    (c'.messages_delivered ≡ c.messages_delivered)
    × (c'.abandoned_at_shutdown ≡ c.abandoned_at_shutdown)
    × (c'.pending ≡ c.pending)
Counted _ c c' =
    (c'.messages_delivered ≡ c.messages_delivered)
    × (c'.abandoned_at_shutdown ≡ fetch_add c.abandoned_at_shutdown 1)
    × (c'.pending ≡ c.pending - 1)

-- An attempt touches neither the gauge nor the abandoned messages, and counts as delivered
-- exactly what was accepted.
abbrev Attempted : SyslogCounters → DeliveryOutcome × SyslogCounters × List SyslogMessage → Type 0
Attempted c (delivery_accepted, c', q) =
    (c'.messages_delivered ≡ fetch_add c.messages_delivered 1)
    × (c'.abandoned_at_shutdown ≡ c.abandoned_at_shutdown)
    × (c'.pending ≡ c.pending)
Attempted c (_, c', q) =
    (c'.messages_delivered ≡ c.messages_delivered)
    × (c'.abandoned_at_shutdown ≡ c.abandoned_at_shutdown)
    × (c'.pending ≡ c.pending)

deliver-Attempted :
    (p : PendingMessage) (k : ℕ) (a : Answer) (c : SyslogCounters) → Attempted c (deliver p k a c)
unfolding deliver
deliver-Attempted p k a c = ground arith

Counted-same :
    (e : Ended) (c b d : SyslogCounters)
    → b.messages_delivered ≡ c.messages_delivered
    → b.abandoned_at_shutdown ≡ c.abandoned_at_shutdown
    → b.pending ≡ c.pending
    → Counted e b d
    → Counted e c d
Counted-same released c b d x y z (p, q, r) = (cc, cc, ground arith)
Counted-same waiting c b d x y z (p, q, r) = (cc, cc, cc)
Counted-same abandoned c b d x y z (p, q, r) = (cc, cc, ground arith)
Counted-same workers_gone c b d x y z (p, q, r) = (cc, cc, ground arith)

settle-Counted :
    (c : SyslogCounters) (o : DeliveryOutcome) (c' : SyslogCounters) (q : List SyslogMessage)
    (cancelled : Bool) (delay : ℕ) (again : SyslogCounters → Delivered)
    → Attempted c (o, c', q)
    → ((b : SyslogCounters) → Counted (again b).ended b (again b).counters)
    → let d = settle (o, c', q) cancelled delay again in Counted d.ended c d.counters
unfolding settle release_pending abandon_pending
settle-Counted c delivery_accepted c' q cancelled delay again a h = ground arith
settle-Counted c unavailable c' q cancelled delay again a h = ground arith
settle-Counted c delivery_refused c' q true delay again a h = ground arith
settle-Counted c delivery_refused c' q false delay again (d, b, g) h =
    Counted-same (again c').ended c c' (again c').counters d b g (h c')

deliver_one-Counted :
    (p : PendingMessage) (k delay : ℕ) (answers : List Answer) (c : SyslogCounters)
    → let d = deliver_one p k delay answers c in Counted d.ended c d.counters
unfolding deliver_one
deliver_one-Counted p k delay [] c = (refl, refl, refl)
deliver_one-Counted p k delay (a ∷ answers) c =
    let r = deliver p k a c in
    settle-Counted c r.0 r.1 r.2 a.cancelled delay _ (deliver-Attempted p k a c)
      (deliver_one-Counted p ((k + 1) % u32_mod) (min (delay * 2) max_refusal_delay) answers)

-- How many messages were released, and how many abandoned.
abbrev pub releases : List Ended → ℕ
releases [] = 0
releases (released ∷ ends) = suc (releases ends)
releases (_ ∷ ends) = releases ends

abbrev pub abandonments : List Ended → ℕ
abandonments [] = 0
abandonments (abandoned ∷ ends) = suc (abandonments ends)
abandonments (workers_gone ∷ ends) = suc (abandonments ends)
abandonments (_ ∷ ends) = abandonments ends

-- The counters hold 64-bit values.
pub record InRange (c : SyslogCounters) : Type 0 where
  pub delivered_in : c.messages_delivered < usize_mod
  pub abandoned_in : c.abandoned_at_shutdown < usize_mod

pub record Balanced (c : SyslogCounters) (d : Drained) : Type 0 where
  pub delivered : d.counters.messages_delivered ≡ fetch_add c.messages_delivered (releases d.ends)
  pub lost :
      d.counters.abandoned_at_shutdown ≡ fetch_add c.abandoned_at_shutdown (abandonments d.ends)
  pub gauge : d.counters.pending ≡ c.pending - (releases d.ends + abandonments d.ends)

Balanced-nil :
    (c : SyslogCounters) → InRange c → Balanced c (record { ends = []; counters = c; queued = [] })
unfolding fetch_add
Balanced-nil c i = record {
  delivered = omega (arith, i.delivered_in);
  lost = omega (arith, i.abandoned_in);
  gauge = omega arith;
}

Counted-InRange : (e : Ended) (c d : SyslogCounters) → InRange c → Counted e c d → InRange d
unfolding fetch_add
Counted-InRange released c d i h = ground (arith, i.delivered_in, i.abandoned_in)
Counted-InRange waiting c d i h = ground (arith, i.delivered_in, i.abandoned_in)
Counted-InRange _ c d i h = ground (arith, i.delivered_in, i.abandoned_in)

Balanced-cons :
    (e : Ended) (c : SyslogCounters) (b : SyslogCounters) (q : List SyslogMessage) (d : Drained)
    → Counted e c b
    → Balanced b d
    → Balanced c (record d { ends = e ∷ d.ends; queued = q ++ d.queued })
unfolding fetch_add
Balanced-cons released c b q d h v = ground (arith, v.delivered, v.lost, v.gauge)
Balanced-cons waiting c b q d h v = ground (arith, v.delivered, v.lost, v.gauge)
Balanced-cons abandoned c b q d h v = ground (arith, v.delivered, v.lost, v.gauge)
Balanced-cons workers_gone c b q d h v = ground (arith, v.delivered, v.lost, v.gauge)

abandon-Counted : (c : SyslogCounters) → Counted abandoned c (abandon_pending c)
unfolding abandon_pending
abandon-Counted c = (refl, refl, refl)

abandon_all-Balanced :
    (messages : List (PendingMessage × List Answer)) (c : SyslogCounters)
    → InRange c
    → Balanced c (abandon_all messages c)
unfolding abandon_all
abandon_all-Balanced [] c i = Balanced-nil c i
abandon_all-Balanced (_ ∷ messages) c i =
    let h = abandon-Counted c in
    Balanced-cons abandoned c (abandon_pending c) [] _ h
      (abandon_all-Balanced messages (abandon_pending c) (Counted-InRange abandoned c _ i h))

next_message-Balanced :
    (c : SyslogCounters) (e : Ended) (b : SyslogCounters) (q : List SyslogMessage) (s : List ℕ)
    (goes_on gone : SyslogCounters → Drained)
    → InRange c
    → Counted e c b
    → ((d : SyslogCounters) → InRange d → Balanced d (goes_on d))
    → ((d : SyslogCounters) → InRange d → Balanced d (gone d))
    → Balanced c
        (next_message (record { ended = e; counters = b; queued = q; slept = s }) goes_on gone)
unfolding next_message
next_message-Balanced c released b q s goes_on gone i h f g =
    Balanced-cons released c b q _ h (f b (Counted-InRange released c b i h))
next_message-Balanced c abandoned b q s goes_on gone i h f g =
    Balanced-cons abandoned c b q _ h (f b (Counted-InRange abandoned c b i h))
next_message-Balanced c workers_gone b q s goes_on gone i h f g =
    Balanced-cons workers_gone c b q _ h (g b (Counted-InRange workers_gone c b i h))
next_message-Balanced c waiting b q s goes_on gone i h f g =
    rw (← append-nil q)
      (Balanced-cons waiting c b q _ h (Balanced-nil b (Counted-InRange waiting c b i h)))

-- Over all messages of a connection, whatever the workers and the shutdown do: as many more are
-- counted as delivered as were released, as many more as abandoned as were given up, and the gauge
-- of pending messages has gone down by both together (it stops at 0).
pub deliver_stream_messages-Balanced :
    (messages : List (PendingMessage × List Answer)) (c : SyslogCounters)
    → InRange c
    → Balanced c (deliver_stream_messages messages c)
unfolding deliver_stream_messages
deliver_stream_messages-Balanced [] c i = Balanced-nil c i
deliver_stream_messages-Balanced ((p, answers) ∷ messages) c i =
    let d = deliver_one p 1 min_refusal_delay answers c in
    next_message-Balanced c d.ended d.counters d.queued d.slept _ _ i
      (deliver_one-Counted p 1 min_refusal_delay answers c)
      (deliver_stream_messages-Balanced messages) (abandon_all-Balanced messages)
