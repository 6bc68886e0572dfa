-- ===== src/Syslog/Framing/Octets.antt =====
-- One octet counted frame, whole and in part: a length, a space, and as many bytes of message.
use hyper_ruby.Common.{
  ℕ, ◌+◌, ◌≤◌, ◌<◌, true, [], ◌∷◌, ◌++◌, ◌≡◌, refl, ap, sym, ◌∙◌, subst, arith, none, some,
  append_split, drop_at, length, drop, length-append, take-append, append_assoc, Bytes, ok, le→ltb,
  lt→ltb,
}
use native.Mathlib.Decide.{dec_le}
use native.Mathlib.Nat.{mod-eq_of_lt}
use hyper_ruby.Rust.Word.{usize_mod}
use hyper_ruby.Rust.Utf8.{from_utf8}
use hyper_ruby.Rust.Parse.{Digits, Digits-front, parse_usize, parse_usize-Digits}
use hyper_ruby.Syslog.Framing.{
  with_len, not_discarding, discarding, Framer, get_range, octet_decode, starts_frame,
}
use hyper_ruby.Syslog.Framing.Steps.{
  position-Digits, position-Digits-none, get_range_lem, get_range_short,
}

-- A length as it is written, its first digit and the others.
pub record Header : Type 0 where
  pub first : ℕ
  pub others : Bytes

abbrev pub header : Header → Bytes
header h = h.first ∷ h.others

-- The framer reads `h` as the length `n`, and reads all of it before it gives up.
pub record Denotes (max_length : ℕ) (h : Header) (n : ℕ) : Type 0 where
  pub starts : starts_frame h.first ≡ true
  pub value : parse_usize (header h) ≡ some n
  pub short : length (header h) < max_length

pub Denotes-Digits : {m n : ℕ} (h : Header) → Denotes m h n → Digits (header h)
Denotes-Digits h d = parse_usize-Digits h.first h.others d.starts d.value

pub record Frame : Type 0 where
  pub head : Header
  pub body : Bytes

abbrev pub octets : Frame → Bytes
octets fr = header fr.head ++ (b' ' ∷ fr.body)

-- A frame that a sender may send to a framer of this maximum; it fits into the memory.
pub record IsSendable (max_length : ℕ) (fr : Frame) : Type 0 where
  pub denotes : Denotes max_length fr.head (length fr.body)
  pub fits : length fr.body ≤ max_length
  pub text : from_utf8 fr.body ≡ true
  pub addressable : length (octets fr) < usize_mod

module _ {C : Type 0} (f : Framer C) (m : ℕ) where
  -- The header is there: what happens next is decided by the length alone.
  pub octet_decode-header :
      (h : Header) (n : ℕ) (after : Bytes)
      → Denotes m h n
      → octet_decode m f not_discarding (header h ++ (b' ' ∷ after))
        ≡ with_len m f (header h ++ (b' ' ∷ after)) (length (header h)) (some n)
  unfolding octet_decode
  octet_decode-header h n after d = rw (position-Digits (header h) after (Denotes-Digits h d)) (
      rw (lt→ltb (length (header h)) m d.short)
        (rw (take-append (header h) (b' ' ∷ after)) (rw d.value)))

  -- The message is all there.
  get_range-frame :
      (h : Header) (body rest : Bytes)
      → get_range
          (length (header h) + 1)
          (length (header h) + 1 + length body)
          (header h ++ (b' ' ∷ (body ++ rest)))
        ≡ some body
  get_range-frame h body rest =
      let e = append_assoc (header h) (b' ' ∷ []) (body ++ rest) in
      let l : length (header h ++ (b' ' ∷ [])) ≡ length (header h) + 1 =
        length-append (header h) (b' ' ∷ []) in
      rw (← l) (
        subst
          (λ src.
            get_range (length (header h ++ (b' ' ∷ [])))
              (length (header h ++ (b' ' ∷ [])) + length body) src
            ≡ some body)
          e (get_range_lem (header h ++ (b' ' ∷ [])) body rest))

  drop-frame :
      (h : Header) (body rest : Bytes)
      → drop (length (header h) + 1 + length body) (header h ++ (b' ' ∷ (body ++ rest))) ≡ rest
  drop-frame h body rest =
      drop_at _ (header h ++ (b' ' ∷ body)) rest
        (omega (arith, length-append (header h) (b' ' ∷ body)))
        (sym (append_assoc (header h) (b' ' ∷ body) rest))

  -- A length above the maximum: that many bytes are to be discarded.
  pub with_len-discards :
      (src : Bytes) (space_pos n : ℕ)
      → m < n
      → with_len m f src space_pos (some n)
        ≡ (record f { octet_decoding = some (discarding n) }, drop (space_pos + 1) src, ok none)
  unfolding with_len
  with_len-discards src space_pos n over = rw (lt→ltb m n over)

  -- A message that is not all there stays in the buffer.
  with_len-waits :
      (src : Bytes) (space_pos n : ℕ)
      → n ≤ m
      → space_pos + 1 + n < usize_mod
      → length src < space_pos + 1 + n
      → with_len m f src space_pos (some n) ≡ (f, src, ok none)
  unfolding with_len
  with_len-waits src space_pos n fits small there =
      rw (le→ltb m n fits) (
        rw (mod-eq_of_lt small)
          (rw (get_range_short (space_pos + 1) (space_pos + 1 + n) src there)))

  with_len-takes :
      (h : Header) (body rest : Bytes)
      → length body ≤ m
      → length (header h) + 1 + length body < usize_mod
      → from_utf8 body ≡ true
      → with_len m f (header h ++ (b' ' ∷ (body ++ rest))) (length (header h)) (some (length body))
        ≡ (record f { octet_decoding = none }, rest, ok (some body))
  unfolding with_len
  with_len-takes h body rest fits small text = rw (le→ltb m (length body) fits) (
      rw (mod-eq_of_lt small)
        (rw (get_range-frame h body rest) (rw text (rw (drop-frame h body rest)))))

  -- A whole frame is taken off the buffer, and its message is the result.
  pub octet_decode-frame :
      (fr : Frame) (rest : Bytes)
      → IsSendable m fr
      → octet_decode m f not_discarding (octets fr ++ rest)
        ≡ (record f { octet_decoding = none }, rest, ok (some fr.body))
  octet_decode-frame fr rest s = rw (append_assoc (header fr.head) (b' ' ∷ fr.body) rest) (
      octet_decode-header fr.head (length fr.body) (fr.body ++ rest) s.denotes
      ∙ with_len-takes fr.head fr.body rest s.fits
          (omega (arith, s.addressable, length-append (header fr.head) (b' ' ∷ fr.body))) s.text)

  -- Part of the length, and no space.
  octet_decode-Digits :
      (cs : Bytes)
      → Digits cs
      → length cs < m
      → octet_decode m f not_discarding cs ≡ (f, cs, ok none)
  unfolding octet_decode
  octet_decode-Digits cs ds short =
      rw (position-Digits-none b' ' cs refl ds)
        (rw (position-Digits-none b'\n' cs refl ds) (rw (lt→ltb (length cs) m short)))

  octet_decode_in_body :
      (fr : Frame) (part rest : Bytes)
      → IsSendable m fr
      → fr.body ≡ part ++ rest
      → length part < length fr.body
      → octet_decode m f not_discarding (header fr.head ++ (b' ' ∷ part))
        ≡ (f, header fr.head ++ (b' ' ∷ part), ok none)
  octet_decode_in_body fr part rest s e l =
      octet_decode-header fr.head (length fr.body) part s.denotes
      ∙ with_len-waits _ (length (header fr.head)) (length fr.body) s.fits
          (omega (arith, s.addressable, length-append (header fr.head) (b' ' ∷ fr.body)))
          (omega (arith, length-append (header fr.head) (b' ' ∷ part)))

  -- A buffer that ends inside a frame is left as it is.
  pub octet_decode_part :
      (fr : Frame) (part rest : Bytes)
      → IsSendable m fr
      → octets fr ≡ part ++ rest
      → length part < length (octets fr)
      → octet_decode m f not_discarding part ≡ (f, part, ok none)
  octet_decode_part fr part rest s e l = elim (dec_le (length part) (length (header fr.head))) [
    | yes h ↦
        let (mid, p, q) = append_split (header fr.head) (b' ' ∷ fr.body) part rest e h in
        octet_decode-Digits part
          (Digits-front part mid (subst Digits p (Denotes-Digits fr.head s.denotes)))
          (omega (arith, s.denotes.short))
    | no h ↦
        let whole = append_assoc (header fr.head) (b' ' ∷ []) fr.body in
        let (mid, p, q) =
          append_split part rest (header fr.head ++ (b' ' ∷ [])) fr.body (sym e ∙ sym whole)
            (omega (arith, length-append (header fr.head) (b' ' ∷ []))) in
        let p' = p ∙ append_assoc (header fr.head) (b' ' ∷ []) mid in
        rw p' (
          octet_decode_in_body fr mid rest s (sym q) (
            omega (
              arith,
              ap length p',
              length-append (header fr.head) (b' ' ∷ mid),
              length-append (header fr.head) (b' ' ∷ fr.body),
            )))
  ]
