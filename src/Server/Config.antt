-- ===== src/Server/Config.antt =====
-- ext/hyper_ruby/src/lib.rs, `ServerConfig` and `configure`: the settings of the server, among them
-- those of syslog, and the logger.
pub mod Usable
use Prim.Native.String.{String}
use hyper_ruby.Common.{
  ℕ, Bool, true, false, List, [], ◌∷◌, Option, none, some, Bytes, Result, ok, err,
}
use hyper_ruby.Http.Text.{codes}
use hyper_ruby.Syslog.Config.{SyslogConfig, default_config, Conversions, apply}

pub record ServerConfig : Type 0 where
  pub bind_address : Bytes
  pub tokio_threads : Option ℕ
  pub debug : Bool
  pub recv_timeout : ℕ
  pub channel_capacity : ℕ
  pub send_timeout : ℕ
  pub max_connection_age : Option ℕ
  pub syslog : SyslogConfig

-- `ServerConfig::new`
unfoldable pub default_server_config : ServerConfig
default_server_config = record {
  bind_address = codes "127.0.0.1:3000";
  tokio_threads = none;
  debug = false;
  recv_timeout = 30000;
  channel_capacity = 5000;
  send_timeout = 1000;
  max_connection_age = none;
  syslog = default_config;
}

-- `log::LevelFilter`, as far as it is used.
pub data LevelFilter : Type 0 where
  warn_level debug_level : LevelFilter

-- `LOGGER_INIT.call_once`
unfoldable pub init_logger : Bool → Option LevelFilter → Option LevelFilter
init_logger debug (some level) = some level
init_logger true none = some debug_level
init_logger false none = some warn_level

-- One key, as in Syslog/Config; after an error nothing is read any more.
unfoldable pub store_setting :
    {Error A : Type 0}
    → (A → ServerConfig → ServerConfig)
    → ServerConfig
    → Result Error A
    → ServerConfig × Option Error
store_setting put c (ok a) = (put a c, none)
store_setting put c (err e) = (c, some e)

module _ {Value Error : Type 0} where
  unfoldable pub read_setting :
      {A : Type 0}
      → Option Value
      → (Value → Result Error A)
      → (A → ServerConfig → ServerConfig)
      → ServerConfig × Option Error
      → ServerConfig × Option Error
  unfolding store_setting
  read_setting none convert put (c, none) = (c, none)
  read_setting (some value) convert put (c, none) = store_setting put c (convert value)
  read_setting value convert put (c, some e) = (c, some e)

-- The logger is set up where the whole hash was read.
unfoldable pub logger_after :
    {Error : Type 0} → ServerConfig → Option Error → Option LevelFilter → Option LevelFilter
unfolding init_logger
logger_after c none logger = init_logger c.debug logger
logger_after c (some e) logger = logger

module _ {Value Error : Type 0} (conversions : Conversions Value Error) (max_permits : ℕ) where
  open conversions use {to_string, to_bool, to_u64, to_usize}

  -- `server_config.syslog.apply(&config)`
  unfoldable pub apply_syslog :
      (String → Option Value) → ServerConfig × Option Error → ServerConfig × Option Error
  apply_syslog config (c, none) =
      let (d, e) = apply conversions max_permits config c.syslog in (record c { syslog = d }, e)
  apply_syslog config (c, some e) = (c, some e)

  -- The settings from the hash `config`.
  unfoldable pub read_settings :
      (String → Option Value) → ServerConfig → ServerConfig × Option Error
  unfolding apply_syslog
  read_settings config c =
      let c1 =
        read_setting (config "bind_address") to_string (λ v d. record d { bind_address = v })
          (c, none) in
      let c2 =
        read_setting (config "tokio_threads") to_usize (λ v d. record d { tokio_threads = some v })
          c1 in
      let c3 = read_setting (config "debug") to_bool (λ v d. record d { debug = v }) c2 in
      let c4 =
        read_setting (config "recv_timeout") to_u64 (λ v d. record d { recv_timeout = v }) c3 in
      let c5 =
        read_setting (config "channel_capacity") to_usize (λ v d. record d { channel_capacity = v })
          c4 in
      let c6 =
        read_setting (config "send_timeout") to_u64 (λ v d. record d { send_timeout = v }) c5 in
      let c7 =
        read_setting (config "max_connection_age") to_u64
          (λ v d. record d { max_connection_age = some v }) c6 in
      apply_syslog config c7

  -- The logger is the process's, `none` while it is not set up.
  unfoldable pub configure :
      (String → Option Value)
      → ServerConfig
      → Option LevelFilter
      → ServerConfig × Option Error × Option LevelFilter
  unfolding read_settings logger_after
  configure config c logger = let (d, e) = read_settings config c in (d, e, logger_after d e logger)

  -- One call after another; an error in one does not keep the next from being made.
  unfoldable pub configure_all :
      List (String → Option Value)
      → ServerConfig
      → Option LevelFilter
      → ServerConfig × Option LevelFilter
  unfolding configure
  configure_all [] c logger = (c, logger)
  configure_all (config ∷ configs) c logger =
      let (d, e, l) = configure config c logger in configure_all configs d l
