-- ===== src/Syslog/Delivery/Ends.antt =====
-- The ends of all messages of a connection.
use hyper_ruby.Common.{ℕ, suc, ◌+◌, ◌-◌, [], ◌∷◌, ◌≡◌, ◌≢◌, refl, ap, ◌∙◌, arith, List, length}
use hyper_ruby.Syslog.Counters.{SyslogCounters, abandon_pending}
use hyper_ruby.Syslog.Delivery.{
  min_refusal_delay, PendingMessage, SyslogMessage, Answer, Ended, released, abandoned,
  workers_gone, waiting, deliver_one, Drained, abandon_all, next_message, deliver_stream_messages,
}
use hyper_ruby.Syslog.Delivery.Account.{
  releases, abandonments, InRange, deliver_stream_messages-Balanced,
}

-- Every message is dealt with, unless one still waits for its verdict.
abbrev pub IsEnded : Ended → Type 0
IsEnded e = e ≢ waiting

abbrev pub NoneWaits : List Ended → Type 0
NoneWaits [] = Unit {0}
NoneWaits (e ∷ ends) = IsEnded e × NoneWaits ends

abandon_all-ends :
    (messages : List (PendingMessage × List Answer)) (c : SyslogCounters)
    → length (abandon_all messages c).ends ≡ length messages
unfolding abandon_all
abandon_all-ends [] c = refl
abandon_all-ends (_ ∷ messages) c = ap suc (abandon_all-ends messages (abandon_pending c))

next_message-ends :
    (n : ℕ) (e : Ended) (b : SyslogCounters) (q : List SyslogMessage) (s : List ℕ)
    (goes_on gone : SyslogCounters → Drained)
    → ((d : SyslogCounters) → NoneWaits (goes_on d).ends → length (goes_on d).ends ≡ n)
    → ((d : SyslogCounters) → length (gone d).ends ≡ n)
    → let d =
        next_message (record { ended = e; counters = b; queued = q; slept = s }) goes_on gone in
      NoneWaits d.ends → length d.ends ≡ suc n
unfolding next_message
next_message-ends n released b q s goes_on gone f g w = ap suc (f b w.1)
next_message-ends n abandoned b q s goes_on gone f g w = ap suc (f b w.1)
next_message-ends n workers_gone b q s goes_on gone f g w = ap suc (g b)
next_message-ends n waiting b q s goes_on gone f g w = absurd (w.0 refl)

stream-ends :
    (messages : List (PendingMessage × List Answer)) (c : SyslogCounters)
    → let d = deliver_stream_messages messages c in
      NoneWaits d.ends → length d.ends ≡ length messages
unfolding deliver_stream_messages
stream-ends [] c w = refl
stream-ends ((p, answers) ∷ messages) c w =
    let d = deliver_one p 1 min_refusal_delay answers c in
    next_message-ends (length messages) d.ended d.counters d.queued d.slept
      (deliver_stream_messages messages) (abandon_all messages) (stream-ends messages)
      (abandon_all-ends messages) w

releases-abandonments :
    (ends : List Ended) → NoneWaits ends → releases ends + abandonments ends ≡ length ends
releases-abandonments [] w = omega arith
releases-abandonments (released ∷ ends) w = omega (arith, releases-abandonments ends w.1)
releases-abandonments (abandoned ∷ ends) w = omega (arith, releases-abandonments ends w.1)
releases-abandonments (workers_gone ∷ ends) w = omega (arith, releases-abandonments ends w.1)
releases-abandonments (waiting ∷ ends) w = absurd (w.0 refl)

-- If no message is left waiting, each message that was taken was released or abandoned, so the
-- gauge of pending messages is down by exactly one for each (it stops at 0).
pub deliver_stream_messages-pending :
    (messages : List (PendingMessage × List Answer)) (c : SyslogCounters)
    → InRange c
    → NoneWaits (deliver_stream_messages messages c).ends
    → let d = deliver_stream_messages messages c in
      (releases d.ends + abandonments d.ends ≡ length messages)
      × (d.counters.pending ≡ c.pending - length messages)
deliver_stream_messages-pending messages c i w =
    let d = deliver_stream_messages messages c in
    let e : releases d.ends + abandonments d.ends ≡ length messages =
      releases-abandonments d.ends w ∙ stream-ends messages c w in
    (e, (deliver_stream_messages-Balanced messages c i).gauge ∙ ap (λ k. c.pending - k) e)
