-- ===== src/Tests/Proxy.antt =====
-- PROXY headers.
use hyper_ruby.Common.{
  ℕ, zero, suc, [], ◌∷◌, ◌++◌, List, some, ◌≡◌, ◌≤◌, refl, arith, drop, length, equal, Bytes, ok,
  err,
}
use hyper_ruby.Http.Text.{codes}
use hyper_ruby.Syslog.Proxy.{
  bad_version, IpAddr, v4, incomplete, complete, signature, with_length, parse, agrees,
  parse_prefix, check_fields, source_of,
}
use hyper_ruby.Syslog.Proxy.Stable.{parse-append_complete}
use hyper_ruby.Syslog.Proxy.Bounds.{parse-complete_bounds}
use hyper_ruby.Syslog.Proxy.RoundTrip.{v2_header, announced, parse-v2_header}
use hyper_ruby.Syslog.ProxyReader.{HeaderRead, read_proxy_header}
use hyper_ruby.Syslog.ProxyReader.Stream.{
  arrived, Finds, read_proxy_header-v2_header, read_proxy_header-decides,
}

abbrev pub addresses : Bytes
addresses = 192 ∷ 0 ∷ 2 ∷ 10 ∷ 10 ∷ 0 ∷ 0 ∷ 1 ∷ 0x1f ∷ 0x90 ∷ 0x02 ∷ 0x02 ∷ []

abbrev pub client : IpAddr
client = v4 (192 ∷ 0 ∷ 2 ∷ 10 ∷ [])

parse-v2_header_example :
    parse (v2_header 0x11 0x1 addresses ++ codes "<34>1 - - - - - -") 1024
    ≡ ok (complete (some client) 28)
unfolding announced with_length
parse-v2_header_example =
    parse-v2_header 0x11 0x1 addresses (codes "<34>1 - - - - - -") 1024 (omega arith) (omega arith)
      (omega arith)

abbrev pub whole_header : Bytes
whole_header = signature ++ (0x21 ∷ 0x11 ∷ 0 ∷ 12 ∷ addresses)

parse_whole : parse whole_header 1024 ≡ ok (complete (some client) 28)
unfolding parse agrees equal parse_prefix check_fields source_of with_length
parse_whole = refl

parse-append_complete_example :
    parse (whole_header ++ codes "<34>") 1024 ≡ ok (complete (some client) 28)
parse-append_complete_example = parse-append_complete whole_header (codes "<34>") 1024 parse_whole

-- Half of a version 1 header, which then goes on in another way.
parse_v1 : parse (codes "PRO") 1024 ≡ err bad_version
unfolding parse agrees equal parse_prefix check_fields source_of with_length
parse_v1 = refl

parse-complete_bounds_example : (16 ≤ 28) × (28 ≤ 1024) × (28 ≤ length whole_header)
parse-complete_bounds_example = parse-complete_bounds whole_header 1024 parse_whole

parse_part : parse (signature ++ (0x21 ∷ [])) 1024 ≡ ok incomplete
unfolding parse agrees equal parse_prefix check_fields source_of with_length
parse_part = refl

-- The header comes in two reads, the second with the start of the payload.
abbrev three_reads : List (ℕ × Bytes)
three_reads =
    (0x0d, drop 1 signature ++ (0x21 ∷ 0x11 ∷ []))
    ∷ (0, 12 ∷ (addresses ++ codes "<34>1"))
    ∷ (b' ', codes "- -")
    ∷ []

read_proxy_header-v2_header_example :
    Finds (read_proxy_header [] (arrived three_reads)) (some client) (codes "<34>1 - -")
unfolding announced v2_header
read_proxy_header-v2_header_example =
    read_proxy_header-v2_header 0x11 0x1 addresses (codes "<34>1 - -") (some client) three_reads
      (omega arith) (omega arith) refl refl

repeat : ℕ → Bytes
repeat zero = []
repeat (suc n) = 0 ∷ repeat n

read_proxy_header-decides_example :
    (h : HeaderRead) × (read_proxy_header [] (arrived ((0, repeat 1023) ∷ [])) ≡ some h)
unfolding repeat
read_proxy_header-decides_example = read_proxy_header-decides ((0, repeat 1023) ∷ []) (omega arith)
