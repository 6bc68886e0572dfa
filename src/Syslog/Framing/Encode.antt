-- ===== src/Syslog/Framing/Encode.antt =====
-- The sender's side of octet counting: the length of a message in decimal, a space, and the message.
use hyper_ruby.Common.{
  ℕ, zero, suc, ◌+◌, ◌*◌, ◌/◌, ◌%◌, ◌≤◌, ◌<◌, true, [], ◌∷◌, ◌++◌, ◌≡◌, refl, ap, arith, ltb,
  lt→ltb, Bool-cases, inl, inr, length, length-append, Bytes,
}
use hyper_ruby.Rust.Word.{usize_mod}
use hyper_ruby.Rust.Utf8.{from_utf8}
use hyper_ruby.Rust.Decimal.{StartsWithDigit, to_string-StartsWithDigit, parse_usize-to_string}
use hyper_ruby.Http.Text.{to_string, digits_from}
use hyper_ruby.Syslog.Framing.{starts_frame}
use hyper_ruby.Syslog.Framing.Octets.{Header, header, Denotes, Frame, octets, IsSendable}

abbrev pub encode : Bytes → Bytes
encode body = to_string (length body) ++ (b' ' ∷ body)

-- A message that may be sent so to a framer of this maximum.
pub record IsCountable (max_length : ℕ) (body : Bytes) : Type 0 where
  pub nonempty : 0 < length body
  pub fits : length body ≤ max_length
  pub text : from_utf8 body ≡ true
  pub room : 2 ≤ max_length
  pub addressable : max_length * 2 < usize_mod

abbrev header_of : Bytes → Header
header_of [] = record { first = b'0'; others = [] }
header_of (c ∷ cs) = record { first = c; others = cs }

abbrev pub to_frame : Bytes → Frame
to_frame body = record { head = header_of (to_string (length body)); body = body }

header-header_of : (text : Bytes) → StartsWithDigit 1 text → header (header_of text) ≡ text
header-header_of [] s = absurd s
header-header_of (c ∷ cs) s = refl

starts_frame-header_of :
    (text : Bytes) → StartsWithDigit 1 text → starts_frame (header_of text).first ≡ true
starts_frame-header_of [] s = absurd s
starts_frame-header_of (c ∷ cs) (low, high) = ground arith

length-digits_from :
    (fuel n : ℕ) (ds : Bytes) → n < fuel → length (digits_from fuel n ds) ≤ 1 + n / 10 + length ds
unfolding digits_from
length-digits_from zero n ds l = absurd (omega arith)
length-digits_from (suc fuel) n ds l = elim (Bool-cases (ltb n 10)) [
  | inl small ↦ rw small (omega arith)
  | inr large ↦
      let g : 10 ≤ n = ground (arith, lt→ltb n 10) in
      let rest = length-digits_from fuel (n / 10) ((b'0' + n % 10) ∷ ds) (omega arith) in
      rw large (omega arith)
]

length-to_string : (n : ℕ) → length (to_string n) ≤ 1 + n / 10
unfolding to_string
length-to_string n = let h = length-digits_from (suc n) n [] (omega arith) in omega arith

module _ (m : ℕ) (body : Bytes) (s : IsCountable m body) where
  counted_header : header (to_frame body).head ≡ to_string (length body)
  counted_header =
      header-header_of (to_string (length body))
        (to_string-StartsWithDigit 1 (length body) s.nonempty (omega arith))

  pub octets-to_frame : octets (to_frame body) ≡ encode body
  octets-to_frame = ap (λ x. x ++ (b' ' ∷ body)) counted_header

  counted-Denotes : Denotes m (to_frame body).head (length body)
  counted-Denotes = record {
    starts =
        starts_frame-header_of (to_string (length body))
          (to_string-StartsWithDigit 1 (length body) s.nonempty (omega arith));
    value =
        rw counted_header
          (parse_usize-to_string (length body) (omega (arith, s.fits, s.addressable)));
    short = omega (arith, ap length counted_header, length-to_string (length body), s.fits, s.room);
  }

  pub to_frame-IsSendable : IsSendable m (to_frame body)
  to_frame-IsSendable = record {
    denotes = counted-Denotes;
    fits = s.fits;
    text = s.text;
    addressable = omega (
      arith,
      ap length octets-to_frame,
      length-append (to_string (length body)) (b' ' ∷ body),
      length-to_string (length body),
      s.fits,
      s.room,
      s.addressable,
    );
  }
