-- ===== src/Syslog/Listener/Limit.antt =====
-- The limit on connections, under any interleaving of the tasks.
use hyper_ruby.Common.{ℕ, ◌+◌, ◌%◌, ◌<◌, ◌≤◌, ◌≡◌, inl, inr, arith, leb, Bool-cases}
use hyper_ruby.Rust.Word.{usize_mod}
use hyper_ruby.Syslog.Counters.{fetch_add}
use hyper_ruby.Syslog.Listener.{
  fetch_sub_one, Listeners, start_listeners, accept, take_back, count_refusal, open_stream,
  leave_stream, count_close, Step, accepts, takes_back, counts_refusal, opens, leaves, counts_close,
  Reachable, at_start, after,
}

-- Where the tasks are between any two operations, what the counter counts, and what the statistics
-- of opened and closed connections tell.
pub record IsWithin (max_connections n : ℕ) (s : Listeners) : Type 0 where
  pub held : s.connections ≡ s.opening + s.serving + s.refusing
  pub listeners : s.accepting + s.refusing + s.refused + s.opening ≡ n
  pub limit : s.opening + s.serving ≤ max_connections
  pub opened :
      s.counters.connections_opened
      ≡ (s.counters.connections_closed + s.serving + s.closing) % usize_mod

module _ (max_connections n : ℕ) (room : max_connections + n < usize_mod) where
  accept-IsWithin :
      (s : Listeners)
      → 0 < s.accepting
      → IsWithin max_connections n s
      → IsWithin max_connections n (accept max_connections s)
  unfolding accept fetch_add
  accept-IsWithin s a i = elim (Bool-cases (leb max_connections s.connections)) [
    | inl over ↦ rw over (record {
      held = omega (arith, i.held, i.listeners, i.limit);
      listeners = omega (arith, i.listeners);
      limit = i.limit;
      opened = i.opened;
    })
    | inr under ↦ rw under (record {
      held = omega (arith, i.held, i.listeners, i.limit);
      listeners = omega (arith, i.listeners);
      limit = ground (arith, i.held);
      opened = i.opened;
    })
  ]

  Step-IsWithin :
      {s s' : Listeners}
      → Step max_connections s s'
      → IsWithin max_connections n s
      → IsWithin max_connections n s'
  unfolding take_back count_refusal open_stream leave_stream count_close fetch_sub_one fetch_add
  Step-IsWithin {s} (accepts a) i = accept-IsWithin s a i
  Step-IsWithin (takes_back r) i = omega arith
  Step-IsWithin (counts_refusal r) i = omega arith
  Step-IsWithin (opens o) i = omega arith
  Step-IsWithin (leaves v) i = omega arith
  Step-IsWithin (counts_close c) i = omega arith

-- Whatever the order of the single operations of `n` listeners and their connections: never are more
-- connections let in and still on the counter than the limit; the counter is the number of these and
-- of those about to be refused; the listeners at `accept` and at the handling of a connection are `n`;
-- and the connections opened are, modulo 2 ^ 64, those closed, those served, and those that have left
-- the counter and are about to be counted as closed. The limit leaves room for the listeners in the 64 bits of the counter.
pub Reachable-IsWithin :
    (max_connections n : ℕ) (s : Listeners)
    → max_connections + n < usize_mod
    → Reachable max_connections n s
    → IsWithin max_connections n s
unfolding start_listeners
Reachable-IsWithin max_connections n s room at_start = omega arith
Reachable-IsWithin max_connections n s room (after {s = before} r step) =
    Step-IsWithin max_connections n room step (Reachable-IsWithin max_connections n before room r)
