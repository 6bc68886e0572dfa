-- ===== src/Syslog/Datagrams.antt =====
-- ext/hyper_ruby/src/syslog.rs, `serve_datagrams`: the listener takes in datagrams while the tasks
-- that it spawned deliver those before, in any order, and `SyslogRuntime::drain` may take what is on
-- the gauge. Each operation on the semaphore of pending messages, the gauge and the statistics is a
-- step; the listener is modelled as the only user of the semaphore, the gauge and the message ids.
pub mod Outcomes
pub mod Account
use hyper_ruby.Common.{
  ltb, ℕ, ◌+◌, ◌-◌, ◌%◌, ◌≤◌, ◌==◌, ◌<◌, ◌≡◌, Bool, true, false, [], ◌∷◌, ◌++◌, List, Option, none,
  some, if◌then◌else◌, length, take, Bytes,
}
use hyper_ruby.Rust.Word.{usize_mod}
use hyper_ruby.Syslog.Counters.{SyslogCounters, default, fetch_add, admit_pending, release_pending}
use hyper_ruby.Syslog.Delivery.{
  PendingMessage, datagram, Answer, DeliveryOutcome, delivery_accepted, delivery_refused,
  unavailable, deliver,
}

-- A datagram as the socket has it, with the sender and the time.
pub record Arrival : Type 0 where
  pub octets : Bytes
  pub peer : Bytes
  pub at_ns : ℕ

-- Where the listener is: at the socket; with a datagram that found no permit and is not yet counted;
-- with a permit and a message of which it has not yet taken the number; and with a numbered message
-- that is not yet on the gauge.
pub data Receiver : Type 0 where
  at_socket turning_away : Receiver
  permitted : Bytes → Arrival → Receiver
  numbered : PendingMessage → Receiver

-- The statistics, the next message id, the free permits of the semaphore that bounds the pending
-- messages, and the listener; the messages on the gauge whose one attempt is not over, the outcomes
-- of those whose attempt is, how many have their outcome counted and are to come off the gauge, and
-- how many are off it and still hold their permit; what a drain has taken off the gauge and not yet
-- counted, and, for reference, what it has counted.
pub record Datagrams : Type 0 where
  pub counters : SyslogCounters
  pub next_message_id : ℕ
  pub credits : ℕ
  pub receiver : Receiver
  pub delivering : List PendingMessage
  pub judged : List DeliveryOutcome
  pub counted : ℕ
  pub ending : ℕ
  pub in_hand : ℕ
  pub written_off : ℕ

unfoldable pub start_datagrams : ℕ → ℕ → Datagrams
start_datagrams max_pending id = record {
  counters = default;
  next_message_id = id;
  credits = max_pending;
  receiver = at_socket;
  delivering = [];
  judged = [];
  counted = 0;
  ending = 0;
  in_hand = 0;
  written_off = 0;
}

-- What is longer than the buffer is cut by the socket. A datagram that does not fill the buffer asks
-- for a permit, `try_acquire_owned`.
unfoldable pub receive_datagram : ℕ → Arrival → Datagrams → Datagrams
receive_datagram buffer_len a s =
    let message = take buffer_len a.octets in
    if length message == buffer_len
    then record s {
      counters = record s.counters { udp_truncated = fetch_add s.counters.udp_truncated 1 };
    }
    else if ltb 0 s.credits
    then record s { credits = s.credits - 1; receiver = permitted message a }
    else record s { receiver = turning_away }

unfoldable pub turn_away : Datagrams → Datagrams
turn_away s = record s {
  counters = record s.counters { udp_dropped = fetch_add s.counters.udp_dropped 1 };
  receiver = at_socket;
}

-- `NEXT_MESSAGE_ID.fetch_add`, and the rest of the message.
unfoldable pub number_message : Bytes → Arrival → Datagrams → Datagrams
number_message message a s = record s {
  next_message_id = fetch_add s.next_message_id 1;
  receiver = numbered (record {
    message = message;
    utf8 = false;
    peer = some a.peer;
    transport = datagram;
    received_at_ns = a.at_ns;
    message_id = s.next_message_id;
  });
}

-- `pending.fetch_add`, and the delivery is spawned.
unfoldable pub take_in : PendingMessage → Datagrams → Datagrams
unfolding admit_pending
take_in p s = record s {
  counters = admit_pending s.counters;
  receiver = at_socket;
  delivering = p ∷ s.delivering;
}

-- The match on the outcome of the one attempt.
unfoldable pub count_outcome : DeliveryOutcome → SyslogCounters → SyslogCounters
count_outcome delivery_accepted c = c
count_outcome delivery_refused c = record c { udp_dropped = fetch_add c.udp_dropped 1 }
count_outcome unavailable c = record c { udp_dropped = fetch_add c.udp_dropped 1 }

-- `deliver` to its end, which counts the verdict; `rest` are the other deliveries.
unfoldable pub deliver_datagram :
    PendingMessage → Answer → List PendingMessage → Datagrams → Datagrams
deliver_datagram p a rest s =
    let (outcome, c, queued) = deliver p 1 a s.counters in
    record s { counters = c; delivering = rest; judged = outcome ∷ s.judged }

unfoldable pub settle_datagram : DeliveryOutcome → List DeliveryOutcome → Datagrams → Datagrams
unfolding count_outcome
settle_datagram o rest s = record s {
  counters = count_outcome o s.counters;
  judged = rest;
  counted = s.counted + 1;
}

-- `release_pending`.
unfoldable pub release_datagram : Datagrams → Datagrams
unfolding release_pending
release_datagram s = record s {
  counters = release_pending s.counters;
  counted = s.counted - 1;
  ending = s.ending + 1;
}

-- The message is dropped, and its permit with it.
unfoldable pub drop_permit : Datagrams → Datagrams
drop_permit s = record s { credits = s.credits + 1; ending = s.ending - 1 }

-- A drain that runs out of time: `pending.swap(0)`, and then `abandoned_at_shutdown.fetch_add`.
unfoldable pub swap_gauge : Datagrams → Datagrams
swap_gauge s = record s {
  counters = record s.counters { pending = 0 };
  in_hand = s.in_hand + s.counters.pending;
}

unfoldable pub count_swapped : Datagrams → Datagrams
count_swapped s = record s {
  counters = record s.counters {
    abandoned_at_shutdown = fetch_add s.counters.abandoned_at_shutdown s.in_hand;
  };
  in_hand = 0;
  written_off = s.written_off + s.in_hand;
}

-- One step of the listener, of one delivery, whichever, or of a drain.
pub data Step (buffer_len : ℕ) : Datagrams → Datagrams → Type 0 where
  receives :
      {s : Datagrams} (a : Arrival)
      → s.receiver ≡ at_socket
      → Step buffer_len s (receive_datagram buffer_len a s)
  turns_away : {s : Datagrams} → s.receiver ≡ turning_away → Step buffer_len s (turn_away s)
  numbers :
      {s : Datagrams} (message : Bytes) (a : Arrival)
      → s.receiver ≡ permitted message a
      → Step buffer_len s (number_message message a s)
  takes_in :
      {s : Datagrams} (p : PendingMessage)
      → s.receiver ≡ numbered p
      → Step buffer_len s (take_in p s)
  delivers :
      {s : Datagrams} (before : List PendingMessage) (p : PendingMessage)
      (behind : List PendingMessage) (a : Answer)
      → s.delivering ≡ before ++ (p ∷ behind)
      → Step buffer_len s (deliver_datagram p a (before ++ behind) s)
  settles :
      {s : Datagrams} (before : List DeliveryOutcome) (o : DeliveryOutcome)
      (behind : List DeliveryOutcome)
      → s.judged ≡ before ++ (o ∷ behind)
      → Step buffer_len s (settle_datagram o (before ++ behind) s)
  releases : {s : Datagrams} → 0 < s.counted → Step buffer_len s (release_datagram s)
  drops_permit : {s : Datagrams} → 0 < s.ending → Step buffer_len s (drop_permit s)
  swaps : {s : Datagrams} → Step buffer_len s (swap_gauge s)
  counts_swapped : {s : Datagrams} → Step buffer_len s (count_swapped s)

pub data Reachable (buffer_len max_pending id : ℕ) : Datagrams → Type 0 where
  at_start : Reachable buffer_len max_pending id (start_datagrams max_pending id)
  after :
      {s s' : Datagrams}
      → Reachable buffer_len max_pending id s
      → Step buffer_len s s'
      → Reachable buffer_len max_pending id s'
