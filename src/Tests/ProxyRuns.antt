-- ===== src/Tests/ProxyRuns.antt =====
-- The runs of the parser that ext/hyper_ruby/src/syslog/proxy.rs has as unit tests.
use hyper_ruby.Common.{
  ℕ, zero, suc, ◌+◌, ◌-◌, [], ◌∷◌, ◌++◌, List, map, Option, none, some, ◌≡◌, refl, take, drop,
  length, equal, Bytes, Result, ok, err,
}
use hyper_ruby.Http.Text.{codes}
use hyper_ruby.Rust.Word.{u16_to_be}
use hyper_ruby.Syslog.Proxy.{
  ProxyError, bad_version, bad_signature, bad_command, bad_family, too_long, IpAddr, v4, v6,
  ProxyHeader, incomplete, complete, with_length, parse, agrees, parse_prefix, check_fields,
  source_of,
}
use hyper_ruby.Syslog.Proxy.RoundTrip.{v2_header}

unfoldable ipv4_address : Bytes → Bytes
ipv4_address source = source ++ (10 ∷ 0 ∷ 0 ∷ 1 ∷ (u16_to_be 514 ++ u16_to_be 6514))

unfoldable zeros : ℕ → Bytes
zeros zero = []
zeros (suc n) = 0 ∷ zeros n

-- `header[n] = value`
abbrev set_at : ℕ → ℕ → Bytes → Bytes
set_at n value header = take n header ++ (value ∷ drop (n + 1) header)

unfoldable parse_1024 : Bytes → Result ProxyError ProxyHeader
unfolding parse agrees equal parse_prefix check_fields source_of with_length v2_header ipv4_address
    zeros
parse_1024 buf = parse buf 1024

-- A header that is found as long as it is.
abbrev Finds : Bytes → Option IpAddr → Bytes → Type 0
Finds header source rest = parse_1024 (header ++ rest) ≡ ok (complete source (length header))

abbrev ParsesIpv4Source : Type 0
ParsesIpv4Source =
    Finds (v2_header 0x11 0x1 (ipv4_address (192 ∷ 0 ∷ 2 ∷ 7 ∷ [])))
      (some (v4 (192 ∷ 0 ∷ 2 ∷ 7 ∷ []))) []

parses_ipv4_source : ParsesIpv4Source
unfolding parse_1024
parses_ipv4_source = refl

abbrev ParsesIpv6Source : Type 0
ParsesIpv6Source =
    Finds (v2_header 0x21 0x1 (zeros 15 ++ (1 ∷ zeros 20))) (some (v6 (zeros 15 ++ (1 ∷ [])))) []

parses_ipv6_source : ParsesIpv6Source
unfolding parse_1024
parses_ipv6_source = refl

abbrev IgnoresTrailingPayloadAndTlvs : Type 0
IgnoresTrailingPayloadAndTlvs =
    Finds
      (v2_header 0x11 0x1
        (ipv4_address (198 ∷ 51 ∷ 100 ∷ 3 ∷ []) ++ (0x03 ∷ 0x00 ∷ 0x04 ∷ 1 ∷ 2 ∷ 3 ∷ 4 ∷ [])))
      (some (v4 (198 ∷ 51 ∷ 100 ∷ 3 ∷ []))) (codes "<13>a message" ++ (b'\n' ∷ []))

ignores_trailing_payload_and_tlvs : IgnoresTrailingPayloadAndTlvs
unfolding parse_1024
ignores_trailing_payload_and_tlvs = refl

abbrev UnixAndUnspecifiedFamiliesHaveNoSource : Type 0
UnixAndUnspecifiedFamiliesHaveNoSource =
    Finds (v2_header 0x00 0x1 (zeros 216)) none []
    × Finds (v2_header 0x31 0x1 (zeros 216)) none []
    × Finds (v2_header 0x32 0x1 (zeros 216)) none []

unix_and_unspecified_families_have_no_source : UnixAndUnspecifiedFamiliesHaveNoSource
unfolding parse_1024
unix_and_unspecified_families_have_no_source = (refl, refl, refl)

abbrev LocalCommandHasNoSource : Type 0
LocalCommandHasNoSource = Finds (v2_header 0x00 0x0 []) none []

local_command_has_no_source : LocalCommandHasNoSource
unfolding parse_1024
local_command_has_no_source = refl

abbrev RejectsV1Header : Type 0
RejectsV1Header =
    (parse_1024 (codes "PROXY TCP4 192.0.2.1 10.0.0.1 514 6514" ++ (b'\r' ∷ b'\n' ∷ []))
      ≡ err bad_version)
    × (parse_1024 (codes "PRO") ≡ err bad_version)

rejects_v1_header : RejectsV1Header
unfolding parse_1024
rejects_v1_header = (refl, refl)

abbrev RejectsMissingHeader : Type 0
RejectsMissingHeader = parse_1024 (codes "<13>a message" ++ (b'\n' ∷ [])) ≡ err bad_signature

rejects_missing_header : RejectsMissingHeader
unfolding parse_1024
rejects_missing_header = refl

abbrev RejectsBadVersionCommandAndFamily : Type 0
RejectsBadVersionCommandAndFamily =
    (parse_1024 (set_at 12 0x31 (v2_header 0x11 0x1 (ipv4_address (192 ∷ 0 ∷ 2 ∷ 7 ∷ []))))
      ≡ err bad_version)
    × (parse_1024 (set_at 12 0x27 (v2_header 0x11 0x1 (ipv4_address (192 ∷ 0 ∷ 2 ∷ 7 ∷ []))))
        ≡ err bad_command)
    × (parse_1024 (v2_header 0x41 0x1 (ipv4_address (192 ∷ 0 ∷ 2 ∷ 7 ∷ []))) ≡ err bad_family)
    × (parse_1024 (v2_header 0x11 0x1 (zeros 4)) ≡ err bad_family)

rejects_bad_version_command_and_family : RejectsBadVersionCommandAndFamily
unfolding parse_1024
rejects_bad_version_command_and_family = (refl, refl, refl, refl)

abbrev RejectsOversizeHeader : Type 0
RejectsOversizeHeader = parse (v2_header 0x11 0x1 (zeros 600)) 256 ≡ err too_long

rejects_oversize_header : RejectsOversizeHeader
unfolding parse_1024
rejects_oversize_header = refl

-- From `from` on, `n` of them.
unfoldable count_from : ℕ → ℕ → List ℕ
count_from from zero = []
count_from from (suc n) = from ∷ count_from (suc from) n

-- What the parser gives for the buffer cut at each of these.
abbrev cuts : Bytes → List ℕ → List (Result ProxyError ProxyHeader)
cuts buf = map (λ split. parse_1024 (take split buf))

abbrev client_header : Bytes
client_header = v2_header 0x11 0x1 (ipv4_address (203 ∷ 0 ∷ 113 ∷ 9 ∷ []))

abbrev ParsesIdenticallyAtEverySplitPoint : Type 0
ParsesIdenticallyAtEverySplitPoint =
    let n = length client_header in
    (cuts (client_header ++ codes "7 hello!") (count_from 0 n)
      ≡ map (λ split. ok incomplete) (count_from 0 n))
    × (cuts (client_header ++ codes "7 hello!") (count_from n 8)
        ≡ map (λ split. ok (complete (some (v4 (203 ∷ 0 ∷ 113 ∷ 9 ∷ []))) n)) (count_from n 8))

parses_identically_at_every_split_point : ParsesIdenticallyAtEverySplitPoint
unfolding parse_1024 count_from
parses_identically_at_every_split_point = (refl, refl)

abbrev DetectsGarbledSignatureAsSoonAsItDiffers : Type 0
DetectsGarbledSignatureAsSoonAsItDiffers =
    let garbled = set_at 5 0xff client_header in
    let n = length garbled - 6 in
    cuts garbled (count_from 6 n) ≡ map (λ split. err bad_signature) (count_from 6 n)

detects_garbled_signature_as_soon_as_it_differs : DetectsGarbledSignatureAsSoonAsItDiffers
unfolding parse_1024 count_from
detects_garbled_signature_as_soon_as_it_differs = refl
