-- ===== src/Tests/Gauge.antt =====
-- The gauge of the messages that wait.
use hyper_ruby.Common.{arith}
use hyper_ruby.Syslog.Gauge.{
  Gauge, start_gauge, admit, count_delivered, count_turned_away, swap_pending, write_off, admits,
  turns_away, delivers, swaps, writes_off, Reachable, at_start, after,
}
use hyper_ruby.Syslog.Gauge.Account.{IsAccounted, Reachable-IsAccounted}

-- A drain gives up on a message that is delivered after all, and a datagram is turned away.
abbrev late_gauge : Gauge
late_gauge = count_turned_away (count_delivered (write_off (swap_pending (admit start_gauge))))

late_gauge-Reachable : Reachable late_gauge
unfolding admit swap_pending write_off
late_gauge-Reachable =
    after
      (after (after (after (after at_start (admits (omega arith))) swaps) writes_off)
        (delivers (omega arith)))
      turns_away

Reachable-IsAccounted_example : IsAccounted late_gauge
Reachable-IsAccounted_example = Reachable-IsAccounted late_gauge late_gauge-Reachable
