-- ===== src/Server/Config/Usable.antt =====
-- What any calls of `configure` leave.
use Prim.Native.String.{String}
use hyper_ruby.Common.{
  ℕ, ◌≤◌, [], ◌∷◌, List, Option, none, some, ◌≡◌, refl, ap, sym, subst, ◌∙◌, arith, Result, ok, err,
}
use hyper_ruby.Syslog.Config.{Conversions}
use hyper_ruby.Syslog.Config.Limits.{IsUsable, apply-IsUsable, default_config-IsUsable}
use hyper_ruby.Server.Config.{
  ServerConfig, default_server_config, LevelFilter, init_logger, store_setting, read_setting,
  apply_syslog, read_settings, logger_after, configure, configure_all,
}

stored-syslog :
    {Error A : Type 0} (put : A → ServerConfig → ServerConfig) (c : ServerConfig)
    (r : Result Error A)
    → ((a : A) (c : ServerConfig) → (put a c).syslog ≡ c.syslog)
    → (store_setting put c r).0.syslog ≡ c.syslog
unfolding store_setting
stored-syslog put c (ok a) keeps = keeps a c
stored-syslog put c (err e) keeps = refl

module _ {Value Error : Type 0} where
  -- A setting of another part leaves those of syslog.
  store-syslog :
      {A : Type 0} (convert : Value → Result Error A) (put : A → ServerConfig → ServerConfig)
      (value : Option Value) (s : ServerConfig × Option Error)
      → ((a : A) (c : ServerConfig) → (put a c).syslog ≡ c.syslog)
      → (read_setting value convert put s).0.syslog ≡ s.0.syslog
  unfolding read_setting
  store-syslog convert put none (c, none) keeps = refl
  store-syslog convert put none (c, some e) keeps = refl
  store-syslog convert put (some value) (c, some e) keeps = refl
  store-syslog convert put (some value) (c, none) keeps = stored-syslog put c (convert value) keeps

logger_after-some :
    {Error : Type 0} (c : ServerConfig) (e : Option Error) (level : LevelFilter)
    → logger_after c e (some level) ≡ some level
unfolding logger_after init_logger
logger_after-some c none level = refl
logger_after-some c (some e) level = refl

module _ {Value Error : Type 0} (conversions : Conversions Value Error) (m : ℕ) (h : 1 ≤ m) where
  apply_syslog-IsUsable :
      (config : String → Option Value) (s : ServerConfig × Option Error)
      → IsUsable m s.0.syslog
      → IsUsable m (apply_syslog conversions m config s).0.syslog
  unfolding apply_syslog
  apply_syslog-IsUsable config (c, none) u = apply-IsUsable conversions m h config c.syslog u
  apply_syslog-IsUsable config (c, some e) u = u

  read_settings-IsUsable :
      (config : String → Option Value) (c : ServerConfig)
      → IsUsable m c.syslog
      → IsUsable m (read_settings conversions m config c).0.syslog
  unfolding read_settings
  read_settings-IsUsable config c u = apply_syslog-IsUsable config _ (
      subst (IsUsable m)
        (sym (
          store-syslog _ _ _ _ (λ a c. refl)
          ∙ store-syslog _ _ _ _ (λ a c. refl)
          ∙ store-syslog _ _ _ _ (λ a c. refl)
          ∙ store-syslog _ _ _ _ (λ a c. refl)
          ∙ store-syslog _ _ _ _ (λ a c. refl)
          ∙ store-syslog _ _ _ _ (λ a c. refl)
          ∙ store-syslog _ _ _ _ (λ a c. refl)))
        u)

  configure_all-IsUsable :
      (configs : List (String → Option Value)) (c : ServerConfig) (logger : Option LevelFilter)
      → IsUsable m c.syslog
      → IsUsable m (configure_all conversions m configs c logger).0.syslog
  unfolding configure_all configure
  configure_all-IsUsable [] c logger u = u
  configure_all-IsUsable (config ∷ configs) c logger u =
      configure_all-IsUsable configs _ _ (read_settings-IsUsable config c u)

  configure_all-logger :
      (configs : List (String → Option Value)) (c : ServerConfig) (level : LevelFilter)
      → (configure_all conversions m configs c (some level)).1 ≡ some level
  unfolding configure_all configure
  configure_all-logger [] c level = refl
  configure_all-logger (config ∷ configs) c level =
      let (d, e) = read_settings conversions m config c in
      ap (λ l. (configure_all conversions m configs d l).1) (logger_after-some d e level)
      ∙ configure_all-logger configs d level

-- Whatever hashes a new server is configured with, also where a value cannot be converted and the
-- reading of a hash stops there: the limit on pending messages is from 1 to the greatest number of
-- permits, and a connection's channel and the datagram buffer have room for at least one. The
-- greatest number of permits is at least 1000. And a logger that is set up keeps its level.
pub configure_all-default :
    {Value Error : Type 0} (conversions : Conversions Value Error) (max_permits : ℕ)
    (configs : List (String → Option Value)) (logger : Option LevelFilter) (level : LevelFilter)
    → 1000 ≤ max_permits
    → IsUsable max_permits
        (configure_all conversions max_permits configs default_server_config logger).0.syslog
      × ((configure_all conversions max_permits configs default_server_config (some level)).1
          ≡ some level)
unfolding default_server_config
configure_all-default conversions max_permits configs logger level h =
    let positive : 1 ≤ max_permits = omega arith in
    (
      configure_all-IsUsable conversions max_permits positive configs default_server_config logger
          (default_config-IsUsable max_permits h),
      configure_all-logger conversions max_permits positive configs default_server_config level,
    )
