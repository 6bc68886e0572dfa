-- ===== src/Syslog/Gauge.antt =====
-- The gauge of pending messages and the statistics that go with it, as all tasks of the syslog
-- listeners change them: `serve_stream` and `serve_datagrams`, the deliveries, and
-- `SyslogRuntime::drain` of ext/hyper_ruby/src/syslog.rs. Each atomic operation is a step.
pub mod Account
use hyper_ruby.Common.{ℕ, ◌+◌, ◌-◌, ◌<◌}
use hyper_ruby.Rust.Word.{usize_mod}
use hyper_ruby.Syslog.Counters.{SyslogCounters, default, fetch_add, admit_pending, release_pending}

-- The statistics; how many messages are held, and how many have been counted and still have to come
-- off the gauge; what a drain has taken off the gauge and not yet counted; and, for reference, how
-- many messages there have been, how many were delivered, dropped and abandoned by their tasks, how
-- many datagrams found no permit, and how many messages a drain has written off.
pub record Gauge : Type 0 where
  pub counters : SyslogCounters
  pub held : ℕ
  pub counted : ℕ
  pub in_hand : ℕ
  pub admitted : ℕ
  pub delivered : ℕ
  pub dropped : ℕ
  pub turned_away : ℕ
  pub abandoned : ℕ
  pub written_off : ℕ

abbrev pub start_gauge : Gauge
start_gauge = record {
  counters = default;
  held = 0;
  counted = 0;
  in_hand = 0;
  admitted = 0;
  delivered = 0;
  dropped = 0;
  turned_away = 0;
  abandoned = 0;
  written_off = 0;
}

-- `counters.pending.fetch_add(1)`.
unfoldable pub admit : Gauge → Gauge
unfolding admit_pending
admit g = record g {
  counters = admit_pending g.counters;
  held = g.held + 1;
  admitted = g.admitted + 1;
}

-- `messages_delivered.fetch_add(1)`, `udp_dropped.fetch_add(1)`, and the first half of
-- `abandon_pending`.
unfoldable pub count_delivered : Gauge → Gauge
count_delivered g = record g {
  counters = record g.counters { messages_delivered = fetch_add g.counters.messages_delivered 1 };
  held = g.held - 1;
  counted = g.counted + 1;
  delivered = g.delivered + 1;
}

unfoldable pub count_dropped : Gauge → Gauge
count_dropped g = record g {
  counters = record g.counters { udp_dropped = fetch_add g.counters.udp_dropped 1 };
  held = g.held - 1;
  counted = g.counted + 1;
  dropped = g.dropped + 1;
}

-- `udp_dropped.fetch_add(1)` for a datagram that gets no permit and is not admitted.
unfoldable pub count_turned_away : Gauge → Gauge
count_turned_away g = record g {
  counters = record g.counters { udp_dropped = fetch_add g.counters.udp_dropped 1 };
  turned_away = g.turned_away + 1;
}

unfoldable pub count_abandoned : Gauge → Gauge
count_abandoned g = record g {
  counters = record g.counters {
    abandoned_at_shutdown = fetch_add g.counters.abandoned_at_shutdown 1;
  };
  held = g.held - 1;
  counted = g.counted + 1;
  abandoned = g.abandoned + 1;
}

-- `release_pending`.
unfoldable pub release : Gauge → Gauge
unfolding release_pending
release g = record g { counters = release_pending g.counters; counted = g.counted - 1 }

-- A drain that runs out of time: `pending.swap(0)`, and then `abandoned_at_shutdown.fetch_add`.
unfoldable pub swap_pending : Gauge → Gauge
swap_pending g = record g {
  counters = record g.counters { pending = 0 };
  in_hand = g.in_hand + g.counters.pending;
}

unfoldable pub write_off : Gauge → Gauge
write_off g = record g {
  counters = record g.counters {
    abandoned_at_shutdown = fetch_add g.counters.abandoned_at_shutdown g.in_hand;
  };
  in_hand = 0;
  written_off = g.written_off + g.in_hand;
}

-- The permits of the messages do not show in the gauge: a failed send gives its permit back before
-- the message is abandoned, the other ends after it is released. That the messages admitted and not
-- released are fewer than 2 ^ 64 is a condition of the step.
pub data Step : Gauge → Gauge → Type 0 where
  admits : {g : Gauge} → g.held + g.counted + 1 < usize_mod → Step g (admit g)
  turns_away : {g : Gauge} → Step g (count_turned_away g)
  delivers : {g : Gauge} → 0 < g.held → Step g (count_delivered g)
  drops : {g : Gauge} → 0 < g.held → Step g (count_dropped g)
  abandons : {g : Gauge} → 0 < g.held → Step g (count_abandoned g)
  releases : {g : Gauge} → 0 < g.counted → Step g (release g)
  swaps : {g : Gauge} → Step g (swap_pending g)
  writes_off : {g : Gauge} → Step g (write_off g)

pub data Reachable : Gauge → Type 0 where
  at_start : Reachable start_gauge
  after : {g g' : Gauge} → Reachable g → Step g g' → Reachable g'
