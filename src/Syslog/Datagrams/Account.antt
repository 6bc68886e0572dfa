-- ===== src/Syslog/Datagrams/Account.antt =====
-- The messages that the datagram listener holds, under any interleaving.
use hyper_ruby.Common.{
  ℕ, ◌+◌, ◌<◌, ◌≤◌, ◌==◌, ltb, ltb→lt, [], ◌∷◌, ◌++◌, ◌≡◌, inl, inr, ap, ◌∙◌, arith, List, length,
  length-append, length-take, take, Bool-cases,
}
use hyper_ruby.Rust.Word.{usize_mod}
use hyper_ruby.Syslog.Counters.{fetch_add, admit_pending, release_pending}
use hyper_ruby.Syslog.Delivery.{PendingMessage, Answer, DeliveryOutcome}
use hyper_ruby.Syslog.Datagrams.Outcomes.{deliver-pending, count_outcome-pending}
use hyper_ruby.Syslog.Datagrams.{
  Receiver, at_socket, turning_away, permitted, numbered, Datagrams, start_datagrams, Arrival,
  take_in, receive_datagram, turn_away, number_message, deliver_datagram, settle_datagram,
  release_datagram, drop_permit, swap_gauge, count_swapped, Step, receives, turns_away, numbers,
  takes_in, delivers, settles, releases, drops_permit, swaps, counts_swapped, Reachable, at_start,
  after,
}

-- Every message is shorter than the buffer.
abbrev pub AllShort : ℕ → List PendingMessage → Type 0
AllShort n [] = Unit {0}
AllShort n (p ∷ ps) = (length p.message < n) × AllShort n ps

AllShort-without :
    (n : ℕ) (before behind : List PendingMessage) (p : PendingMessage)
    → AllShort n (before ++ (p ∷ behind))
    → AllShort n (before ++ behind)
AllShort-without n [] behind p s = s.1
AllShort-without n (q ∷ before) behind p s = (s.0, AllShort-without n before behind p s.1)

-- The listener has a permit.
abbrev pub permits_of : Receiver → ℕ
permits_of at_socket = 0
permits_of turning_away = 0
permits_of (permitted message a) = 1
permits_of (numbered p) = 1

abbrev pub ReceiverShort : ℕ → Receiver → Type 0
ReceiverShort n at_socket = Unit {0}
ReceiverShort n turning_away = Unit {0}
ReceiverShort n (permitted message a) = length message < n
ReceiverShort n (numbered p) = length p.message < n

-- The messages that are not released.
abbrev pub unreleased : Datagrams → ℕ
unreleased s = length s.delivering + length s.judged + s.counted

-- The gauge against the messages not released, who holds the permits, and that no message was cut
-- short by the buffer.
pub record IsHeld (buffer_len max_pending : ℕ) (s : Datagrams) : Type 0 where
  pub at_most : s.counters.pending ≤ unreleased s
  pub at_least : unreleased s ≤ s.counters.pending + s.in_hand + s.written_off
  pub permits : s.credits + permits_of s.receiver + unreleased s + s.ending ≡ max_pending
  pub waiting : ReceiverShort buffer_len s.receiver
  pub complete : AllShort buffer_len s.delivering

module _ (buffer_len max_pending : ℕ) (small : max_pending < usize_mod) where
  receive_datagram-IsHeld :
      (a : Arrival) (s : Datagrams)
      → s.receiver ≡ at_socket
      → IsHeld buffer_len max_pending s
      → IsHeld buffer_len max_pending (receive_datagram buffer_len a s)
  unfolding receive_datagram
  receive_datagram-IsHeld a s e i =
      let permits = rw e at i.permits in
      elim (Bool-cases (length (take buffer_len a.octets) == buffer_len)) [
        | inl cut ↦ rw cut (record {
          at_most = i.at_most;
          at_least = i.at_least;
          permits = i.permits;
          waiting = i.waiting;
          complete = i.complete;
        })
        | inr fits ↦ elim (Bool-cases (ltb 0 s.credits)) [
          | inl free ↦
              let positive = ltb→lt 0 s.credits free in
              rw fits (
                rw free (record {
                  at_most = i.at_most;
                  at_least = i.at_least;
                  permits = omega (arith, permits);
                  waiting = ground (arith, length-take buffer_len a.octets);
                  complete = i.complete;
                }))
          | inr none_free ↦ rw fits (
              rw none_free (record {
                at_most = i.at_most;
                at_least = i.at_least;
                permits = omega (arith, permits);
                waiting = tt;
                complete = i.complete;
              }))
        ]
      ]

  take_in-IsHeld :
      (p : PendingMessage) (s : Datagrams)
      → s.receiver ≡ numbered p
      → IsHeld buffer_len max_pending s
      → IsHeld buffer_len max_pending (take_in p s)
  unfolding take_in admit_pending fetch_add
  take_in-IsHeld p s e i =
      let permits = rw e at i.permits in
      record {
        at_most = omega (arith, i.at_most, permits);
        at_least = omega (arith, i.at_most, i.at_least, permits);
        permits = omega (arith, permits);
        waiting = tt;
        complete = (rw e at i.waiting, i.complete);
      }

  deliver_datagram-IsHeld :
      (before : List PendingMessage) (p : PendingMessage) (behind : List PendingMessage)
      (a : Answer) (s : Datagrams)
      → s.delivering ≡ before ++ (p ∷ behind)
      → IsHeld buffer_len max_pending s
      → IsHeld buffer_len max_pending (deliver_datagram p a (before ++ behind) s)
  unfolding deliver_datagram
  deliver_datagram-IsHeld before p behind a s e i =
      let n = ap length e ∙ length-append before (p ∷ behind) in
      let without = length-append before behind in
      let same = deliver-pending p a s.counters in
      record {
        at_most = omega (arith, i.at_most, n, without, same);
        at_least = omega (arith, i.at_least, n, without, same);
        permits = omega (arith, i.permits, n, without);
        waiting = i.waiting;
        complete = AllShort-without buffer_len before behind p (rw e at i.complete);
      }

  settle_datagram-IsHeld :
      (before : List DeliveryOutcome) (o : DeliveryOutcome) (behind : List DeliveryOutcome)
      (s : Datagrams)
      → s.judged ≡ before ++ (o ∷ behind)
      → IsHeld buffer_len max_pending s
      → IsHeld buffer_len max_pending (settle_datagram o (before ++ behind) s)
  unfolding settle_datagram
  settle_datagram-IsHeld before o behind s e i =
      let n = ap length e ∙ length-append before (o ∷ behind) in
      let without = length-append before behind in
      let same = count_outcome-pending o s.counters in
      record {
        at_most = omega (arith, i.at_most, n, without, same);
        at_least = omega (arith, i.at_least, n, without, same);
        permits = omega (arith, i.permits, n, without);
        waiting = i.waiting;
        complete = i.complete;
      }

  Step-IsHeld :
      {s s' : Datagrams}
      → Step buffer_len s s'
      → IsHeld buffer_len max_pending s
      → IsHeld buffer_len max_pending s'
  unfolding turn_away number_message release_datagram release_pending drop_permit swap_gauge
      count_swapped
  Step-IsHeld {s} (receives a e) i = receive_datagram-IsHeld a s e i
  Step-IsHeld {s} (turns_away e) i = record {
    at_most = i.at_most;
    at_least = i.at_least;
    permits = rw e at i.permits;
    waiting = tt;
    complete = i.complete;
  }
  Step-IsHeld {s} (numbers message a e) i = record {
    at_most = i.at_most;
    at_least = i.at_least;
    permits = rw e at i.permits;
    waiting = rw e at i.waiting;
    complete = i.complete;
  }
  Step-IsHeld {s} (takes_in p e) i = take_in-IsHeld p s e i
  Step-IsHeld {s} (delivers before p behind a e) i = deliver_datagram-IsHeld before p behind a s e i
  Step-IsHeld {s} (settles before o behind e) i = settle_datagram-IsHeld before o behind s e i
  Step-IsHeld {s} (releases some_counted) i = record {
    at_most = omega (arith, i.at_most);
    at_least = omega (arith, i.at_least);
    permits = omega (arith, i.permits);
    waiting = i.waiting;
    complete = i.complete;
  }
  Step-IsHeld {s} (drops_permit some_ending) i = record {
    at_most = i.at_most;
    at_least = i.at_least;
    permits = omega (arith, i.permits);
    waiting = i.waiting;
    complete = i.complete;
  }
  Step-IsHeld {s} swaps i = record {
    at_most = omega arith;
    at_least = omega (arith, i.at_least);
    permits = i.permits;
    waiting = i.waiting;
    complete = i.complete;
  }
  Step-IsHeld {s} counts_swapped i = record {
    at_most = i.at_most;
    at_least = omega (arith, i.at_least);
    permits = i.permits;
    waiting = i.waiting;
    complete = i.complete;
  }

-- Whatever the order of the operations of the listener, its deliveries and a drain, with no other
-- listener at work: the gauge is at most the number of datagrams taken in and not released, and falls
-- short of it by no more than what drains took off; the free permits, the one that the listener
-- may hold, and those of the datagrams whose deliveries have not given theirs back make up the
-- limit; and every message that the listener holds or that is to be delivered is shorter than the
-- buffer, so that none is a datagram cut short. The limit is below 2 ^ 64.
pub Reachable-IsHeld :
    (buffer_len max_pending id : ℕ) (s : Datagrams)
    → max_pending < usize_mod
    → Reachable buffer_len max_pending id s
    → IsHeld buffer_len max_pending s
unfolding start_datagrams
Reachable-IsHeld buffer_len max_pending id s small at_start = record {
  at_most = omega arith;
  at_least = omega arith;
  permits = omega arith;
  waiting = tt;
  complete = tt;
}
Reachable-IsHeld buffer_len max_pending id s small (after {s = before} r step) =
    Step-IsHeld buffer_len max_pending small step
      (Reachable-IsHeld buffer_len max_pending id before small r)
