-- ===== src/Syslog/Proxy/Stable.antt =====
-- What `parse` says of a buffer and of a longer one.
use hyper_ruby.Common.{
  ℕ, ◌+◌, ◌%◌, ◌≤◌, true, false, [], ◌∷◌, ◌++◌, ◌≡◌, ◌⊎◌, inl, inr, refl, sym, ◌∙◌, Bool-cases,
  arith, Option, length, take, drop, get_or, length-append, length-drop, take-append_le,
  drop-append_le, get_or-append_lt, Bytes, ok, err,
}
use mathlib.Core.Bool.{true≢false}
use hyper_ruby.Rust.Word.{u16_from_be}
use hyper_ruby.Syslog.Proxy.{
  ProxyError, bad_version, bad_signature, IpAddr, complete, signature, v1_signature, agrees,
  source_of, with_length, check_fields, parse_prefix, parse,
}
use hyper_ruby.Syslog.Proxy.Signature.{agrees-cons, agrees-append, agrees-append_long}

-- The address block is read from inside the header.
address-append :
    (k al : ℕ) (buf more : Bytes)
    → k ≤ al
    → 16 + al ≤ length buf
    → take k (drop 16 (buf ++ more)) ≡ take k (drop 16 buf)
address-append k al buf more h fits =
    rw (drop-append_le 16 buf more (omega arith))
      (take-append_le k (drop 16 buf) more (omega (arith, length-drop 16 buf)))

source_of-append :
    (command family al : ℕ) (buf more : Bytes)
    → 16 + al ≤ length buf
    → source_of command family al (buf ++ more) ≡ source_of command family al buf
unfolding source_of
source_of-append command family al buf more fits =
    ground (arith, address-append 4 al buf more, address-append 16 al buf more)

module _ (vc family al max_length : ℕ) (buf more : Bytes) where
  check_fields-complete :
      {s : Option IpAddr} {n : ℕ}
      → check_fields vc family al max_length buf ≡ ok (complete s n)
      → check_fields vc family al max_length (buf ++ more) ≡ ok (complete s n)
  unfolding check_fields with_length
  check_fields-complete h =
      ground (arith, length-append buf more, source_of-append (vc % 16) family al buf more)

  check_fields-err :
      {e : ProxyError}
      → check_fields vc family al max_length buf ≡ err e
      → check_fields vc family al max_length (buf ++ more) ≡ err e
  unfolding check_fields with_length
  check_fields-err h =
      ground (arith, length-append buf more, source_of-append (vc % 16) family al buf more)

module _ (buf more : Bytes) (max_length : ℕ) (long : 16 ≤ length buf) where
  parse_prefix-append :
      parse_prefix (buf ++ more) max_length
      ≡ check_fields
          (get_or buf 12 0)
          (get_or buf 13 0)
          (u16_from_be (get_or buf 14 0) (get_or buf 15 0))
          max_length
          (buf ++ more)
  unfolding parse_prefix
  parse_prefix-append = rw (
    get_or-append_lt buf more 12 0 (omega arith),
    get_or-append_lt buf more 13 0 (omega arith),
    get_or-append_lt buf more 14 0 (omega arith),
    get_or-append_lt buf more 15 0 (omega arith),
  )

  parse_prefix-complete :
      {s : Option IpAddr} {n : ℕ}
      → parse_prefix buf max_length ≡ ok (complete s n)
      → parse_prefix (buf ++ more) max_length ≡ ok (complete s n)
  unfolding parse_prefix
  parse_prefix-complete h = rw parse_prefix-append (check_fields-complete _ _ _ _ buf more h)

  parse_prefix-err :
      {e : ProxyError}
      → parse_prefix buf max_length ≡ err e
      → parse_prefix (buf ++ more) max_length ≡ err e
  unfolding parse_prefix
  parse_prefix-err h = rw parse_prefix-append (check_fields-err _ _ _ _ buf more h)

-- What each outcome of `parse` says of the signatures and of the prefix.
pub parse_long :
    (buf : Bytes) (max_length : ℕ)
    → agrees buf v1_signature ≡ false
    → agrees buf signature ≡ true
    → 16 ≤ length buf
    → parse buf max_length ≡ parse_prefix buf max_length
unfolding parse
parse_long [] max_length a b h = absurd (omega arith)
parse_long (b ∷ bs) max_length p q h = ground arith

pub parse_complete_long :
    (buf : Bytes) (max_length : ℕ) {s : Option IpAddr} {n : ℕ}
    → parse buf max_length ≡ ok (complete s n)
    → (agrees buf v1_signature ≡ false)
      × (agrees buf signature ≡ true)
      × (16 ≤ length buf)
      × (parse_prefix buf max_length ≡ ok (complete s n))
unfolding parse
parse_complete_long [] max_length h = cc
parse_complete_long (b ∷ bs) max_length h = ground arith

-- A refusal of the first bytes, or of the fields of a whole prefix.
pub Refused : Bytes → ℕ → ProxyError → Type 0
Refused buf max_length e =
    ((agrees buf v1_signature ≡ true) × (e ≡ bad_version))
    ⊎ ((agrees buf v1_signature ≡ false) × (agrees buf signature ≡ false) × (e ≡ bad_signature))
    ⊎ ((agrees buf v1_signature ≡ false)
        × (agrees buf signature ≡ true)
        × (16 ≤ length buf)
        × (parse_prefix buf max_length ≡ err e))

parse-Refused :
    (b : ℕ) (bs : Bytes) (max_length : ℕ) (e : ProxyError)
    → parse (b ∷ bs) max_length ≡ err e
    → Refused (b ∷ bs) max_length e
unfolding parse Refused
parse-Refused b bs max_length e h = ground arith

parse_v1 :
    (buf : Bytes) (max_length b : ℕ)
    → agrees (b ∷ buf) v1_signature ≡ true
    → parse (b ∷ buf) max_length ≡ err bad_version
unfolding parse
parse_v1 buf max_length b h = ground arith

parse_unsigned :
    (buf : Bytes) (max_length b : ℕ)
    → agrees (b ∷ buf) v1_signature ≡ false
    → agrees (b ∷ buf) signature ≡ false
    → parse (b ∷ buf) max_length ≡ err bad_signature
unfolding parse
parse_unsigned buf max_length b h k = ground arith

-- The first byte tells the two signatures apart.
v1-not-v2 :
    (b : ℕ) (buf : Bytes)
    → agrees (b ∷ buf) v1_signature ≡ true
    → agrees (b ∷ buf) signature ≡ false
v1-not-v2 b buf h =
    ground (
      arith,
      agrees-cons b b'P' buf (drop 1 v1_signature),
      agrees-cons b 0x0d buf (drop 1 signature),
    )

not-agrees-append :
    (buf more sig : Bytes) → agrees buf sig ≡ false → agrees (buf ++ more) sig ≡ false
not-agrees-append buf more sig h = elim (Bool-cases (agrees (buf ++ more) sig)) [
  | inl e ↦ absurd (true≢false (sym (agrees-append buf more sig e) ∙ h))
  | inr e ↦ e
]

-- A complete header stays the same header, whatever follows it in the buffer.
pub parse-append_complete :
    (buf more : Bytes) (max_length : ℕ) {s : Option IpAddr} {n : ℕ}
    → parse buf max_length ≡ ok (complete s n)
    → parse (buf ++ more) max_length ≡ ok (complete s n)
parse-append_complete buf more max_length h =
    let (v1, v2, long, p) = parse_complete_long buf max_length h in
    parse_long (buf ++ more) max_length (not-agrees-append buf more v1_signature v1)
      (agrees-append_long buf more signature (omega arith) ∙ v2)
      (omega (arith, length-append buf more))
    ∙ parse_prefix-complete buf more max_length long p

-- The error that more bytes turn an error into: the same, but that a buffer which began like the
-- v1 header and then does not go on like it has no signature at all.
abbrev pub SameRefusal : ProxyError → ProxyError → Type 0
SameRefusal e e' = (e' ≡ e) ⊎ ((e ≡ bad_version) × (e' ≡ bad_signature))

Refused-append :
    (b : ℕ) (bs more : Bytes) (max_length : ℕ) (e : ProxyError)
    → Refused (b ∷ bs) max_length e
    → (e' : ProxyError) × (parse (b ∷ (bs ++ more)) max_length ≡ err e') × SameRefusal e e'
unfolding Refused
Refused-append b bs more max_length e (inl (v1, is)) =
    elim (Bool-cases (agrees (b ∷ (bs ++ more)) v1_signature)) [
      | inl t ↦ (bad_version, parse_v1 (bs ++ more) max_length b t, inl (sym is))
      | inr f ↦ (
        bad_signature,
        parse_unsigned (bs ++ more) max_length b f
            (not-agrees-append (b ∷ bs) more signature (v1-not-v2 b bs v1)),
        inr (is, refl),
      )
    ]
Refused-append b bs more max_length e (inr (inl (v1, v2, is))) = (
  bad_signature,
  parse_unsigned (bs ++ more) max_length b (not-agrees-append (b ∷ bs) more v1_signature v1)
      (not-agrees-append (b ∷ bs) more signature v2),
  inl (sym is),
)
Refused-append b bs more max_length e (inr (inr (v1, v2, long, p))) = (
  e,
  parse_long (b ∷ (bs ++ more)) max_length (not-agrees-append (b ∷ bs) more v1_signature v1)
        (agrees-append_long (b ∷ bs) more signature (omega arith) ∙ v2)
        (omega (arith, length-append (b ∷ bs) more))
      ∙ parse_prefix-err (b ∷ bs) more max_length long p,
  inl refl,
)

-- A buffer that is refused is refused with whatever follows it too.
pub parse-append_err :
    (buf more : Bytes) (max_length : ℕ) {e : ProxyError}
    → parse buf max_length ≡ err e
    → (e' : ProxyError) × (parse (buf ++ more) max_length ≡ err e') × SameRefusal e e'
unfolding parse
parse-append_err [] more max_length h = cc
parse-append_err (b ∷ bs) more max_length {e} h =
    Refused-append b bs more max_length e (parse-Refused b bs max_length e h)
