-- ===== src/Syslog/Listener.antt =====
-- ext/hyper_ruby/src/syslog.rs, `spawn_stream_listener` and `close_stream`: how the listeners of
-- stream connections count the open ones against the limit. The listeners and the connections are
-- tasks on several threads, which share one atomic counter; each atomic operation is a step.
pub mod Limit
use hyper_ruby.Common.{ℕ, ◌+◌, ◌-◌, ◌%◌, ◌<◌, leb, if◌then◌else◌}
use hyper_ruby.Rust.Word.{usize_mod}
use hyper_ruby.Syslog.Counters.{SyslogCounters, default, fetch_add}

-- `fetch_sub(1)`, the new value.
unfoldable pub fetch_sub_one : ℕ → ℕ
fetch_sub_one n = (n + (usize_mod - 1)) % usize_mod

-- The shared counter and the statistics, and how many tasks are where: the listeners at `accept`;
-- those that refuse a connection, before and after it is taken off the counter; those that have
-- let one in and not yet counted it as opened; the connections that are served; and those that
-- close, off the counter and not yet counted as closed.
pub record Listeners : Type 0 where
  pub connections : ℕ
  pub counters : SyslogCounters
  pub accepting : ℕ
  pub refusing : ℕ
  pub refused : ℕ
  pub opening : ℕ
  pub serving : ℕ
  pub closing : ℕ

unfoldable pub start_listeners : ℕ → Listeners
start_listeners n = record {
  connections = 0;
  counters = default;
  accepting = n;
  refusing = 0;
  refused = 0;
  opening = 0;
  serving = 0;
  closing = 0;
}

-- A connection is accepted: `connections.fetch_add`, and the count before is held against the
-- limit.
unfoldable pub accept : ℕ → Listeners → Listeners
accept max_connections s =
    if leb max_connections s.connections
    then record s {
      connections = fetch_add s.connections 1;
      accepting = s.accepting - 1;
      refusing = s.refusing + 1;
    }
    else record s {
      connections = fetch_add s.connections 1;
      accepting = s.accepting - 1;
      opening = s.opening + 1;
    }

-- `connections.fetch_sub` of a refusal.
unfoldable pub take_back : Listeners → Listeners
take_back s = record s {
  connections = fetch_sub_one s.connections;
  refusing = s.refusing - 1;
  refused = s.refused + 1;
}

-- `connections_refused.fetch_add`, and the listener goes on accepting.
unfoldable pub count_refusal : Listeners → Listeners
count_refusal s = record s {
  counters = record s.counters { connections_refused = fetch_add s.counters.connections_refused 1 };
  accepting = s.accepting + 1;
  refused = s.refused - 1;
}

-- `connections_opened.fetch_add`; the connection is spawned and the listener goes on accepting.
unfoldable pub open_stream : Listeners → Listeners
open_stream s = record s {
  counters = record s.counters { connections_opened = fetch_add s.counters.connections_opened 1 };
  accepting = s.accepting + 1;
  opening = s.opening - 1;
  serving = s.serving + 1;
}

-- `close_stream`, which is two operations: `connections.fetch_sub`, and `connections_closed.fetch_add`.
unfoldable pub leave_stream : Listeners → Listeners
leave_stream s = record s {
  connections = fetch_sub_one s.connections;
  serving = s.serving - 1;
  closing = s.closing + 1;
}

unfoldable pub count_close : Listeners → Listeners
count_close s = record s {
  counters = record s.counters { connections_closed = fetch_add s.counters.connections_closed 1 };
  closing = s.closing - 1;
}

-- One task takes one step.
pub data Step (max_connections : ℕ) : Listeners → Listeners → Type 0 where
  accepts : {s : Listeners} → 0 < s.accepting → Step max_connections s (accept max_connections s)
  takes_back : {s : Listeners} → 0 < s.refusing → Step max_connections s (take_back s)
  counts_refusal : {s : Listeners} → 0 < s.refused → Step max_connections s (count_refusal s)
  opens : {s : Listeners} → 0 < s.opening → Step max_connections s (open_stream s)
  leaves : {s : Listeners} → 0 < s.serving → Step max_connections s (leave_stream s)
  counts_close : {s : Listeners} → 0 < s.closing → Step max_connections s (count_close s)

-- What `n` listeners get to, in any order of the steps.
pub data Reachable (max_connections n : ℕ) : Listeners → Type 0 where
  at_start : Reachable max_connections n (start_listeners n)
  after :
      {s s' : Listeners}
      → Reachable max_connections n s
      → Step max_connections s s'
      → Reachable max_connections n s'
