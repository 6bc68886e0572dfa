-- ===== src/Syslog/Config.antt =====
-- ext/hyper_ruby/src/syslog.rs, `SyslogConfig`: the settings, their defaults, and `apply`, which
-- reads them out of a Ruby hash. The conversions of Ruby values are magnus's, and the greatest
-- number of permits is tokio's `Semaphore::MAX_PERMITS`: both are parameters.
pub mod Limits
use Prim.Native.String.{String}
use hyper_ruby.Common.{
  ℕ, min, max, Bool, true, false, ◌||◌, [], ◌∷◌, List, Option, none, some, Bytes, Result, ok, err,
}

pub record SyslogConfig : Type 0 where
  pub stream_path : Option Bytes
  pub stream_bind : Option Bytes
  pub udp_bind : Option Bytes
  pub proxy_protocol : Bool
  pub proxy_header_timeout : ℕ
  pub max_frame_bytes : ℕ
  pub max_pending : ℕ
  pub max_pending_per_connection : ℕ
  pub max_connections : ℕ
  pub idle_timeout : ℕ
  pub udp_max_datagram_bytes : ℕ
  pub udp_so_rcvbuf : Option ℕ
  pub work_ratio : ℕ

-- `SyslogConfig::new`
unfoldable pub default_config : SyslogConfig
default_config = record {
  stream_path = none;
  stream_bind = none;
  udp_bind = none;
  proxy_protocol = false;
  proxy_header_timeout = 5000;
  max_frame_bytes = 102400;
  max_pending = 1000;
  max_pending_per_connection = 64;
  max_connections = 10000;
  idle_timeout = 0;
  udp_max_datagram_bytes = 65536;
  udp_so_rcvbuf = none;
  work_ratio = 4;
}

is_some : {A : Type 0} → Option A → Bool
is_some (some a) = true
is_some none = false

unfoldable pub enabled : SyslogConfig → Bool
unfolding is_some
enabled c = is_some c.stream_path || (is_some c.stream_bind || is_some c.udp_bind)

-- `try_convert` to the types of the settings.
pub record Conversions (Value Error : Type 0) : Type 0 where
  pub to_string : Value → Result Error Bytes
  pub to_bool : Value → Result Error Bool
  pub to_u64 : Value → Result Error ℕ
  pub to_usize : Value → Result Error ℕ
  pub to_u32 : Value → Result Error ℕ

-- The settings so far, and the error that ended the reading, if one did.
abbrev pub Applied : Type 0 → Type 0
Applied Error = SyslogConfig × Option Error

unfoldable pub store_converted :
    {Error A : Type 0}
    → (A → SyslogConfig → SyslogConfig)
    → SyslogConfig
    → Result Error A
    → Applied Error
store_converted put c (ok a) = (put a c, none)
store_converted put c (err e) = (c, some e)

module _ {Value Error : Type 0} where
  unfoldable pub store_value :
      {A : Type 0}
      → (Value → Result Error A)
      → (A → SyslogConfig → SyslogConfig)
      → SyslogConfig
      → Option Value
      → Applied Error
  unfolding store_converted
  store_value convert put c (some value) = store_converted put c (convert value)
  store_value convert put c none = (c, none)

  -- One key; after an error nothing is read any more.
  unfoldable pub read_key :
      {A : Type 0}
      → Option Value
      → (Value → Result Error A)
      → (A → SyslogConfig → SyslogConfig)
      → Applied Error
      → Applied Error
  unfolding store_value
  read_key value convert put (c, none) = store_value convert put c value
  read_key value convert put (c, some e) = (c, some e)

module _ {Value Error : Type 0} (conversions : Conversions Value Error) (max_permits : ℕ) where
  open conversions use {to_string, to_bool, to_u64, to_usize, to_u32}

  -- `config` is the hash.
  unfoldable pub apply : (String → Option Value) → SyslogConfig → Applied Error
  apply config c =
      let c1 =
        read_key (config "syslog_stream_path") to_string (λ v d. record d { stream_path = some v })
          (c, none) in
      let c2 =
        read_key (config "syslog_stream_bind") to_string (λ v d. record d { stream_bind = some v })
          c1 in
      let c3 =
        read_key (config "syslog_udp_bind") to_string (λ v d. record d { udp_bind = some v }) c2 in
      let c4 =
        read_key (config "syslog_proxy_protocol") to_bool (λ v d. record d { proxy_protocol = v })
          c3 in
      let c5 =
        read_key (config "syslog_proxy_header_timeout") to_u64
          (λ v d. record d { proxy_header_timeout = v }) c4 in
      let c6 =
        read_key (config "syslog_max_frame_bytes") to_usize
          (λ v d. record d { max_frame_bytes = v }) c5 in
      let c7 =
        read_key (config "syslog_max_pending") to_usize
          (λ v d. record d { max_pending = min (max v 1) max_permits }) c6 in
      let c8 =
        read_key (config "syslog_max_pending_per_connection") to_usize
          (λ v d. record d { max_pending_per_connection = max v 1 }) c7 in
      let c9 =
        read_key (config "syslog_max_connections") to_u64 (λ v d. record d { max_connections = v })
          c8 in
      let c10 =
        read_key (config "syslog_idle_timeout_ms") to_u64 (λ v d. record d { idle_timeout = v })
          c9 in
      let c11 =
        read_key (config "syslog_udp_max_datagram_bytes") to_usize
          (λ v d. record d { udp_max_datagram_bytes = max v 1 }) c10 in
      let c12 =
        read_key (config "syslog_udp_so_rcvbuf") to_usize
          (λ v d. record d { udp_so_rcvbuf = some v }) c11 in
      read_key (config "syslog_work_ratio") to_u32 (λ v d. record d { work_ratio = v }) c12
