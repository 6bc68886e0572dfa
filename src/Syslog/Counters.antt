-- ===== src/Syslog/Counters.antt =====
-- ext/hyper_ruby/src/syslog.rs, `SyslogCounters`: the statistics of the listeners. They are
-- `AtomicU64`s: an addition wraps, and only the gauge of pending messages is counted down.
pub mod Laws
use Prim.Native.String.{String}
use hyper_ruby.Common.{ℕ, ◌+◌, ◌-◌, ◌%◌, List, [], ◌∷◌}
use hyper_ruby.Rust.Word.{usize_mod}
use hyper_ruby.Syslog.Framing.Lines.{RejectReason, oversize, invalid_utf8, invalid_length, as_str}

-- `fetch_add`, the new value.
unfoldable pub fetch_add : ℕ → ℕ → ℕ
fetch_add n k = (n + k) % usize_mod

pub record SyslogCounters : Type 0 where
  pub messages_delivered : ℕ
  pub deliveries_refused : ℕ
  pub handler_errors : ℕ
  pub rejected_oversize : ℕ
  pub rejected_invalid_utf8 : ℕ
  pub rejected_invalid_length : ℕ
  pub udp_truncated : ℕ
  pub udp_dropped : ℕ
  pub connections_opened : ℕ
  pub connections_closed : ℕ
  pub connections_refused : ℕ
  pub proxy_header_errors : ℕ
  pub proxy_read_errors : ℕ
  pub abandoned_at_shutdown : ℕ
  pub pending : ℕ

-- `SyslogCounters::default()`
abbrev pub default : SyslogCounters
default = record {
  messages_delivered = 0;
  deliveries_refused = 0;
  handler_errors = 0;
  rejected_oversize = 0;
  rejected_invalid_utf8 = 0;
  rejected_invalid_length = 0;
  udp_truncated = 0;
  udp_dropped = 0;
  connections_opened = 0;
  connections_closed = 0;
  connections_refused = 0;
  proxy_header_errors = 0;
  proxy_read_errors = 0;
  abandoned_at_shutdown = 0;
  pending = 0;
}

unfoldable pub record_rejection : RejectReason → SyslogCounters → SyslogCounters
record_rejection oversize c = record c { rejected_oversize = fetch_add c.rejected_oversize 1 }
record_rejection invalid_utf8 c = record c {
  rejected_invalid_utf8 = fetch_add c.rejected_invalid_utf8 1;
}
record_rejection invalid_length c = record c {
  rejected_invalid_length = fetch_add c.rejected_invalid_length 1;
}

-- `saturating_sub(1)`, which is the subtraction of ℕ.
unfoldable pub release_pending : SyslogCounters → SyslogCounters
release_pending c = record c { pending = c.pending - 1 }

unfoldable pub abandon_pending : SyslogCounters → SyslogCounters
unfolding release_pending
abandon_pending c =
    release_pending (record c { abandoned_at_shutdown = fetch_add c.abandoned_at_shutdown 1 })

-- A message was framed, or a datagram taken in.
unfoldable pub admit_pending : SyslogCounters → SyslogCounters
admit_pending c = record c { pending = fetch_add c.pending 1 }

-- The hash that `Server#syslog_stats` returns, without the nested one, and the nested one.
pub stats : SyslogCounters → List (String × ℕ)
stats c =
    ("messages_delivered", c.messages_delivered)
    ∷ ("deliveries_refused", c.deliveries_refused)
    ∷ ("handler_errors", c.handler_errors)
    ∷ ("udp_truncated", c.udp_truncated)
    ∷ ("udp_dropped", c.udp_dropped)
    ∷ ("connections_opened", c.connections_opened)
    ∷ ("connections_closed", c.connections_closed)
    ∷ ("connections_refused", c.connections_refused)
    ∷ ("proxy_header_errors", c.proxy_header_errors)
    ∷ ("proxy_read_errors", c.proxy_read_errors)
    ∷ ("abandoned_at_shutdown", c.abandoned_at_shutdown)
    ∷ ("pending", c.pending)
    ∷ []

pub frames_rejected : SyslogCounters → List (String × ℕ)
frames_rejected c =
    (as_str oversize, c.rejected_oversize)
    ∷ (as_str invalid_utf8, c.rejected_invalid_utf8)
    ∷ (as_str invalid_length, c.rejected_invalid_length)
    ∷ []
