-- ===== src/Syslog/Proxy/Bounds.antt =====
-- Where a header ends, and how far the reader goes before the parser decides.
use hyper_ruby.Common.{ℕ, ◌≤◌, ◌<◌, ◌∷◌, [], ◌≡◌, arith, Option, length, get_or, Bytes, ok}
use hyper_ruby.Rust.Word.{u16_from_be}
use hyper_ruby.Syslog.Proxy.{
  IpAddr, incomplete, complete, source_of, with_length, check_fields, parse_prefix, parse,
}
use hyper_ruby.Syslog.Proxy.Stable.{parse_complete_long}

check_fields_bounds :
    (vc family al max_length : ℕ) (buf : Bytes) {s : Option IpAddr} {n : ℕ}
    → check_fields vc family al max_length buf ≡ ok (complete s n)
    → (16 ≤ n) × (n ≤ max_length) × (n ≤ length buf)
unfolding check_fields with_length
check_fields_bounds vc family al max_length buf h = ground arith

-- A complete header has at least 16 bytes and lies within the buffer and within the limit, so
-- cutting it off is in bounds.
pub parse-complete_bounds :
    (buf : Bytes) (max_length : ℕ) {s : Option IpAddr} {n : ℕ}
    → parse buf max_length ≡ ok (complete s n)
    → (16 ≤ n) × (n ≤ max_length) × (n ≤ length buf)
unfolding parse_prefix
parse-complete_bounds buf max_length h =
    check_fields_bounds _ _ _ max_length buf (parse_complete_long buf max_length h).3

check_fields_waits :
    (vc family al max_length : ℕ) (buf : Bytes)
    → check_fields vc family al max_length buf ≡ ok incomplete
    → length buf < max_length
unfolding check_fields with_length source_of
check_fields_waits vc family al max_length buf h = ground arith

-- With a limit of at least 16, a buffer that leaves the header incomplete is shorter than the
-- limit: the parser decides at the latest when the limit is reached.
pub parse-incomplete_bounds :
    (buf : Bytes) (max_length : ℕ)
    → 16 ≤ max_length
    → parse buf max_length ≡ ok incomplete
    → length buf < max_length
unfolding parse parse_prefix
parse-incomplete_bounds [] max_length l h = omega arith
parse-incomplete_bounds (b ∷ bs) max_length l h = ground (
  arith,
  check_fields_waits (get_or (b ∷ bs) 12 0) (get_or (b ∷ bs) 13 0)
      (u16_from_be (get_or (b ∷ bs) 14 0) (get_or (b ∷ bs) 15 0)) max_length (b ∷ bs),
)
