-- ===== src/Tests/Config.antt =====
-- Settings.
use Prim.Native.String.{String}
use text.Mathlib.Text.{◌==◌ as str_eq}
use hyper_ruby.Common.{
  ℕ, Bool, true, ◌≡◌, [], ◌∷◌, Option, none, some, arith, if◌then◌else◌, Bytes, Result, ok, err,
}
use hyper_ruby.Syslog.Config.{Conversions}
use hyper_ruby.Syslog.Config.Limits.{IsUsable}
use hyper_ruby.Server.Config.{default_server_config, warn_level, configure_all}
use hyper_ruby.Server.Config.Usable.{configure_all-default}

data RubyValue : Type 0 where
  string : Bytes → RubyValue
  truth : Bool → RubyValue
  integer : ℕ → RubyValue

data TypeError : Type 0 where
  type_error : TypeError

abbrev to_text : RubyValue → Result TypeError Bytes
to_text (string bytes) = ok bytes
to_text _ = err type_error

abbrev to_truth : RubyValue → Result TypeError Bool
to_truth (truth b) = ok b
to_truth _ = err type_error

abbrev to_integer : RubyValue → Result TypeError ℕ
to_integer (integer n) = ok n
to_integer _ = err type_error

abbrev conversions : Conversions RubyValue TypeError
conversions = record {
  to_string = to_text;
  to_bool = to_truth;
  to_u64 = to_integer;
  to_usize = to_integer;
  to_u32 = to_integer;
}

-- No pending messages at all, and then a value of the wrong type.
abbrev no_pending : String → Option RubyValue
no_pending key =
    if str_eq key "syslog_max_pending"
    then some (integer 0)
    else if str_eq key "syslog_max_connections"
    then some (string [])
    else none

-- The level, and a limit.
abbrev debugging : String → Option RubyValue
debugging key =
    if str_eq key "debug"
    then some (truth true)
    else if str_eq key "syslog_max_pending"
    then some (integer 7)
    else none

configure_all-default_example :
    IsUsable 2305843009213693951
      (configure_all conversions 2305843009213693951
        (no_pending ∷ debugging ∷ [])
        default_server_config
        none).0.syslog
    × ((configure_all conversions 2305843009213693951
          (no_pending ∷ debugging ∷ [])
          default_server_config
          (some warn_level)).1
        ≡ some warn_level)
configure_all-default_example =
    configure_all-default conversions 2305843009213693951 (no_pending ∷ debugging ∷ []) none
      warn_level (omega arith)
