-- ===== src/Syslog/Proxy/RoundTrip.antt =====
-- The writer of headers in the tests of proxy.rs, `v2_header`, against `parse`.
use hyper_ruby.Common.{
  ℕ, ◌+◌, ◌≤◌, ◌<◌, ◌^◌, ◌/◌, ◌%◌, ◌||◌, true, false, ◌∷◌, ◌++◌, ◌≡◌, refl, ap, ◌∙◌, arith, Option,
  none, some, ltb, ◌==◌, if◌then◌else◌, length, equal, take, drop, length-append, take-append_le,
  Bytes, Result, ok, err,
}
use hyper_ruby.Rust.Word.{u16_to_be, u16_from_be-to_be}
use hyper_ruby.Syslog.Proxy.{
  ProxyError, bad_family, IpAddr, v4, v6, signature, v1_signature, agrees, source_of, with_length,
  check_fields, parse_prefix, parse,
}
use hyper_ruby.Syslog.Proxy.Signature.{agrees-cons, agrees-append_long}
use hyper_ruby.Syslog.Proxy.Stable.{parse_long}

-- `0x20 | command` for a command of four bits.
unfoldable pub v2_header : ℕ → ℕ → Bytes → Bytes
v2_header family command address =
    signature ++ ((0x20 + command) ∷ family ∷ (u16_to_be (length address) ++ address))

-- What the protocol says of the client's address, from the address block alone: LOCAL connections
-- and the unspecified and Unix families name none, IPv4 is the first four bytes of a block of at
-- least 12, IPv6 the first sixteen of at least 36, and there is no other family.
unfoldable pub announced : ℕ → ℕ → Bytes → Result ProxyError (Option IpAddr)
announced command family address =
    if command == 0x0 || family == 0x00 || family == 0x31 || family == 0x32
    then ok none
    else if (family == 0x11 || family == 0x12)
    then (if ltb (length address) 12 then err bad_family else ok (some (v4 (take 4 address))))
    else if family == 0x21 || family == 0x22
    then (if ltb (length address) 36 then err bad_family else ok (some (v6 (take 16 address))))
    else err bad_family

source_of-announced :
    (front address rest : Bytes) (command family : ℕ)
    → drop 16 front ≡ address ++ rest
    → source_of command family (length address) front ≡ announced command family address
unfolding source_of announced
source_of-announced front address rest command family e =
    rw e (ground (arith, take-append_le 4 address rest, take-append_le 16 address rest))

-- The signature of version 2 is recognised, and is not that of version 1.
agrees_header : (more : Bytes) → agrees (signature ++ more) signature ≡ true
unfolding agrees equal
agrees_header more = agrees-append_long signature more signature (omega arith) ∙ refl

not-agrees_header : (more : Bytes) → agrees (signature ++ more) v1_signature ≡ false
not-agrees_header more = agrees-cons 0x0d b'P' (drop 1 signature ++ more) (drop 1 v1_signature)

command_of :
    (command : ℕ) → command ≤ 1 → ((32 + command) % 16 ≡ command) × ((32 + command) / 16 ≡ 2)
command_of command h = omega arith

check_fields_lem :
    (command family al max_length : ℕ) (front : Bytes)
    → command ≤ 1
    → 16 + al ≤ max_length
    → 16 + al ≤ length front
    → check_fields (32 + command) family al max_length front
      ≡ with_length (source_of command family al front) (16 + al)
unfolding check_fields
check_fields_lem command family al max_length front c fits there =
    rw ((command_of command c).0, (command_of command c).1) (ground arith)

-- A PROXY v2 header with a known version and command, an address block of a length that 16 bits
-- hold and within the limit, is read as what it announces, and as exactly as long as it is.
pub parse-v2_header :
    (family command : ℕ) (address rest : Bytes) (max_length : ℕ)
    → command ≤ 1
    → length address < 2 ^ 16
    → 16 + length address ≤ max_length
    → parse (v2_header family command address ++ rest) max_length
      ≡ with_length (announced command family address) (16 + length address)
unfolding v2_header parse_prefix
parse-v2_header family command address rest max_length c short fits =
    let front = v2_header family command address ++ rest in
    parse_long front max_length (not-agrees_header _) (agrees_header _) (omega arith)
    ∙ rw (u16_from_be-to_be (length address) short) (
        check_fields_lem command family (length address) max_length front c fits
          (omega (arith, length-append address rest)))
    ∙ ap (λ source. with_length source (16 + length address))
        (source_of-announced front address rest command family refl)
