-- ===== src/Syslog/Proxy.antt =====
-- ext/hyper_ruby/src/syslog/proxy.rs: the PROXY protocol v2 header at the front of a connection.
-- Bytes are numbers below 256. `IpAddr` keeps the octets of the address.
pub mod Signature
pub mod Stable
pub mod Bounds
pub mod RoundTrip
use Prim.Native.String.{String}
use hyper_ruby.Common.{
  ℕ, ◌+◌, ◌/◌, ◌%◌, Bool, not, ◌||◌, [], ◌∷◌, Option, none, some, ltb, ◌==◌, if◌then◌else◌, min,
  length, take, drop, get_or, equal, Bytes, Result, ok, err,
}
use hyper_ruby.Rust.Word.{u16_from_be}

abbrev pub signature : Bytes
signature = 0x0d ∷ 0x0a ∷ 0x0d ∷ 0x0a ∷ 0x00 ∷ 0x0d ∷ 0x0a ∷ 0x51 ∷ 0x55 ∷ 0x49 ∷ 0x54 ∷ 0x0a ∷ []

-- `b"PROXY "`
abbrev pub v1_signature : Bytes
v1_signature = b'P' ∷ b'R' ∷ b'O' ∷ b'X' ∷ b'Y' ∷ b' ' ∷ []

abbrev pub prefix_len : ℕ
prefix_len = 16

pub data ProxyError : Type 0 where
  bad_signature bad_version bad_command bad_family too_long : ProxyError

pub as_str : ProxyError → String
as_str bad_signature = "signature"
as_str bad_version = "version"
as_str bad_command = "command"
as_str bad_family = "family"
as_str too_long = "too_long"

pub data IpAddr : Type 0 where
  v4 v6 : Bytes → IpAddr

pub data ProxyHeader : Type 0 where
  incomplete : ProxyHeader
  complete : Option IpAddr → ℕ → ProxyHeader

-- `buf[..seen] == sig[..seen]` for `seen = buf.len().min(sig.len())`.
unfoldable pub agrees : Bytes → Bytes → Bool
agrees buf sig = let seen = min (length buf) (length sig) in equal (take seen buf) (take seen sig)

-- The address of the client, at a complete header.
unfoldable pub source_of : ℕ → ℕ → ℕ → Bytes → Result ProxyError (Option IpAddr)
source_of command family address_length buf =
    if command == 0x0
    then ok none
    else if family == 0x11 || family == 0x12
    then (if ltb address_length 12 then err bad_family else ok (some (v4 (take 4 (drop 16 buf)))))
    else if family == 0x21 || family == 0x22
    then (if ltb address_length 36 then err bad_family else ok (some (v6 (take 16 (drop 16 buf)))))
    else if family == 0x00 || family == 0x31 || family == 0x32
    then ok none
    else err bad_family

unfoldable pub with_length : Result ProxyError (Option IpAddr) → ℕ → Result ProxyError ProxyHeader
with_length (ok source) n = ok (complete source n)
with_length (err e) n = err e

-- The checks on the prefix, once its fields are read off.
unfoldable pub check_fields : ℕ → ℕ → ℕ → ℕ → Bytes → Result ProxyError ProxyHeader
check_fields version_command family address_length max_length buf =
    let command = version_command % 16 in
    let total = prefix_len + address_length in
    if not (version_command / 16 == 0x2)
    then err bad_version
    else if ltb 0x1 command
    then err bad_command
    else if ltb max_length total
    then err too_long
    else if ltb (length buf) total
    then ok incomplete
    else with_length (source_of command family address_length buf) total

-- From the check of the version on, where the whole prefix is there.
unfoldable pub parse_prefix : Bytes → ℕ → Result ProxyError ProxyHeader
parse_prefix buf max_length =
    check_fields (get_or buf 12 0) (get_or buf 13 0)
      (u16_from_be (get_or buf 14 0) (get_or buf 15 0)) max_length buf

unfoldable pub parse : Bytes → ℕ → Result ProxyError ProxyHeader
parse [] max_length = ok incomplete
parse (b ∷ bs) max_length =
    if agrees (b ∷ bs) v1_signature
    then err bad_version
    else if not (agrees (b ∷ bs) signature)
    then err bad_signature
    else if ltb (length (b ∷ bs)) prefix_len
    then ok incomplete
    else parse_prefix (b ∷ bs) max_length
