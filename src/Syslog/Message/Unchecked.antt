-- ===== src/Syslog/Message/Unchecked.antt =====
-- Why `SyslogMessage::message` may make a string of the bytes with no check: from the framer to the
-- queue of the workers, with no message lost from sight.
use hyper_ruby.Common.{
  ℕ, Bool, true, false, [], ◌∷◌, ◌++◌, ◌≡◌, List, map, Option, Bool-cases, inl, inr, Bytes,
}
use hyper_ruby.Rust.Utf8.{from_utf8}
use hyper_ruby.Syslog.Framing.Lines.{LinesCodec, IsLinesCodec}
use hyper_ruby.Syslog.Counters.{SyslogCounters}
use hyper_ruby.Syslog.Delivery.{
  PendingMessage, SyslogMessage, Answer, DeliveryOutcome, delivery_accepted, delivery_refused,
  unavailable, to_message, deliver, Delivered, settle, deliver_one, Ended, min_refusal_delay,
  released, abandoned, workers_gone, waiting, Drained, abandon_all, next_message,
  deliver_stream_messages,
}
use hyper_ruby.Syslog.Connection.{Happening, Admission, Settings, serve_stream}
use hyper_ruby.Syslog.ProxyReader.{Read}
use hyper_ruby.Syslog.Connection.Text.{AllText, serve_stream-AllText}
use hyper_ruby.Syslog.Message.{TaggedString, unchecked_utf8, binary, message_string}

-- A string that is made with no check has UTF-8.
abbrev pub IsDefined : TaggedString → Type 0
IsDefined (unchecked_utf8 bytes) = from_utf8 bytes ≡ true
IsDefined (binary bytes) = Unit {0}

abbrev pub AllDefined : List SyslogMessage → Type 0
AllDefined [] = Unit {0}
AllDefined (m ∷ ms) = IsDefined (message_string m) × AllDefined ms

AllDefined-append : (a b : List SyslogMessage) → AllDefined a → AllDefined b → AllDefined (a ++ b)
AllDefined-append [] b t u = u
AllDefined-append (p ∷ a) b (t, ts) u = (t, AllDefined-append a b ts u)

module _ (p : PendingMessage) where
  to_message-IsDefined :
      (k : ℕ)
      → (p.utf8 ≡ true → from_utf8 p.message ≡ true)
      → IsDefined (message_string (to_message p k))
  unfolding message_string to_message
  to_message-IsDefined k t = elim (Bool-cases p.utf8) [
    | inl utf8 ↦ rw utf8 (t utf8)
    | inr other ↦ rw other tt
  ]

  deliver-AllDefined :
      (k : ℕ) (a : Answer) (c : SyslogCounters)
      → from_utf8 p.message ≡ true
      → AllDefined (deliver p k a c).2
  unfolding deliver
  deliver-AllDefined k a c t = elim (Bool-cases a.queued) [
    | inl queued ↦ rw queued (to_message-IsDefined k (λ e. t), tt)
    | inr gone ↦ rw gone tt
  ]

  settle-AllDefined :
      (o : DeliveryOutcome) (c : SyslogCounters) (q : List SyslogMessage) (shut : Bool) (delay : ℕ)
      (again : SyslogCounters → Delivered)
      → AllDefined q
      → ((c : SyslogCounters) → AllDefined (again c).queued)
      → AllDefined (settle (o, c, q) shut delay again).queued
  unfolding settle
  settle-AllDefined delivery_accepted c q shut delay again t h = t
  settle-AllDefined unavailable c q shut delay again t h = t
  settle-AllDefined delivery_refused c q true delay again t h = t
  settle-AllDefined delivery_refused c q false delay again t h = AllDefined-append q _ t (h c)

  deliver_one-AllDefined :
      (answers : List Answer) (k delay : ℕ) (c : SyslogCounters)
      → from_utf8 p.message ≡ true
      → AllDefined (deliver_one p k delay answers c).queued
  unfolding deliver_one
  deliver_one-AllDefined [] k delay c t = tt
  deliver_one-AllDefined (a ∷ answers) k delay c t =
      let r = deliver p k a c in
      settle-AllDefined r.0 r.1 r.2 a.cancelled delay _ (deliver-AllDefined k a c t)
        (λ c. deliver_one-AllDefined answers _ _ c t)

abbrev Scripts : Type 0
Scripts = List (PendingMessage × List Answer)

abandon_all-AllDefined :
    (scripts : Scripts) (c : SyslogCounters) → AllDefined (abandon_all scripts c).queued
unfolding abandon_all
abandon_all-AllDefined [] c = tt
abandon_all-AllDefined (_ ∷ scripts) c = abandon_all-AllDefined scripts _

next_message-AllDefined :
    (d : Delivered) (e : Ended) (goes_on gone : SyslogCounters → Drained)
    → AllDefined d.queued
    → ((c : SyslogCounters) → AllDefined (goes_on c).queued)
    → ((c : SyslogCounters) → AllDefined (gone c).queued)
    → AllDefined (next_message (record d { ended = e }) goes_on gone).queued
unfolding next_message
next_message-AllDefined d released goes_on gone t h g =
    AllDefined-append d.queued _ t (h d.counters)
next_message-AllDefined d abandoned goes_on gone t h g =
    AllDefined-append d.queued _ t (h d.counters)
next_message-AllDefined d workers_gone goes_on gone t h g =
    AllDefined-append d.queued _ t (g d.counters)
next_message-AllDefined d waiting goes_on gone t h g = t

deliver_stream_messages-AllDefined :
    (scripts : Scripts) (c : SyslogCounters)
    → AllText (map (λ s. s.0) scripts)
    → AllDefined (deliver_stream_messages scripts c).queued
unfolding deliver_stream_messages
deliver_stream_messages-AllDefined [] c t = tt
deliver_stream_messages-AllDefined ((p, answers) ∷ scripts) c (t, ts) =
    let d = deliver_one p 1 min_refusal_delay answers c in
    next_message-AllDefined d d.ended (deliver_stream_messages scripts) (abandon_all scripts)
      (deliver_one-AllDefined p answers 1 min_refusal_delay c t)
      (λ c. deliver_stream_messages-AllDefined scripts c ts) (abandon_all-AllDefined scripts)

-- Whatever comes over a connection, with a PROXY header or not, whatever the queue, the handlers and
-- the shutdown do: each string that a handler makes of a message from it, at any attempt, has UTF-8
-- where it is made with no check, if the line codec yields strings.
pub serve_stream-AllDefined :
    (lines : LinesCodec) (laws : IsLinesCodec lines) (settings : Settings)
    (admission : ℕ → Admission) (peer : Option Bytes) (reads : List Read)
    (happenings : List Happening) (scripts : List (PendingMessage × List Answer))
    (c c' : SyslogCounters)
    → map (λ s. s.0) scripts ≡ (serve_stream lines settings admission peer reads happenings c).sent
    → AllDefined (deliver_stream_messages scripts c').queued
serve_stream-AllDefined lines laws settings admission peer reads happenings scripts c c' e =
    deliver_stream_messages-AllDefined scripts c'
      (rw e (serve_stream-AllText lines laws settings admission peer happenings c reads))
