-- ===== src/Syslog/Gauge/Account.antt =====
-- Every message in the statistics, under any interleaving, also past a drain that gives up.
use hyper_ruby.Common.{◌+◌, ◌%◌, ◌≤◌, ◌<◌, ◌≡◌, arith}
use hyper_ruby.Rust.Word.{usize_mod}
use hyper_ruby.Syslog.Counters.{fetch_add, admit_pending, release_pending}
use hyper_ruby.Syslog.Gauge.{
  Gauge, admit, count_delivered, count_dropped, count_turned_away, count_abandoned, release,
  swap_pending, write_off, Step, admits, turns_away, delivers, drops, abandons, releases, swaps,
  writes_off, Reachable, at_start, after,
}

-- Each message is held or has come to one of three ends; the statistics count these ends, with the
-- datagrams turned away on top of the dropped and what a drain wrote off on top of the abandoned;
-- the gauge is at most the number of messages admitted and not yet released, and falls short of it
-- by no more than what drains have taken off.
pub record IsAccounted (g : Gauge) : Type 0 where
  pub ends : g.admitted ≡ g.held + g.delivered + g.dropped + g.abandoned
  pub delivered : g.counters.messages_delivered ≡ g.delivered % usize_mod
  pub dropped : g.counters.udp_dropped ≡ (g.dropped + g.turned_away) % usize_mod
  pub abandoned : g.counters.abandoned_at_shutdown ≡ (g.abandoned + g.written_off) % usize_mod
  pub room : g.held + g.counted < usize_mod
  pub at_most : g.counters.pending ≤ g.held + g.counted
  pub at_least : g.held + g.counted ≤ g.counters.pending + g.in_hand + g.written_off

Step-IsAccounted : {g g' : Gauge} → Step g g' → IsAccounted g → IsAccounted g'
unfolding admit count_delivered count_dropped count_turned_away count_abandoned release swap_pending
    write_off fetch_add admit_pending release_pending
Step-IsAccounted (admits room) i = omega arith
Step-IsAccounted turns_away i = omega arith
Step-IsAccounted (delivers some_held) i = omega arith
Step-IsAccounted (drops some_held) i = omega arith
Step-IsAccounted (abandons some_held) i = omega arith
Step-IsAccounted (releases some_counted) i = omega arith
Step-IsAccounted swaps i = omega arith
Step-IsAccounted writes_off i = omega arith

-- However the operations of the tasks and the drains on the statistics interleave, as long as fewer
-- than 2 ^ 64 messages are admitted and not released at a time: every message admitted is held,
-- delivered, dropped or abandoned, once. Modulo 2 ^ 64, the statistics count the delivered; the
-- dropped with the datagrams that found no permit; and the abandoned with all that drains wrote off,
-- so that a message whose delivery ends after a drain gave up is counted twice. The gauge is never
-- above the number of messages admitted and not released, nor below it by more than the drains took
-- off.
pub Reachable-IsAccounted : (g : Gauge) → Reachable g → IsAccounted g
Reachable-IsAccounted g at_start = omega arith
Reachable-IsAccounted g (after {g = before} r step) =
    Step-IsAccounted step (Reachable-IsAccounted before r)
