-- ===== src/Syslog/Framing/Stream/Oversize.antt =====
-- A frame whose length is above the maximum, cut into reads.
use hyper_ruby.Common.{
  ℕ, zero, suc, ◌-◌, ◌≤◌, ◌<◌, [], ◌∷◌, ◌++◌, ◌≡◌, ap, sym, ◌∙◌, arith, List, none, some, le→leb,
  lt→leb, length, drop, drop_at, drop-length, length-append, append_assoc, Bytes, ok, err,
}
use hyper_ruby.Syslog.Framing.{discarding, Framer, octet_decode, entry_state, new, decode}
use hyper_ruby.Syslog.Framing.Lines.{LinesCodec, IsLinesCodec, fatal, oversize}
use hyper_ruby.Syslog.Framing.Octets.{
  Header, header, Denotes, octet_decode-header, with_len-discards,
}
use hyper_ruby.Syslog.Framing.Stream.{append_output, decode_all, receive}
use hyper_ruby.Syslog.Framing.Stream.Units.{flatten}

-- A cut beyond the front part goes on in what follows.
drop_beyond : (n : ℕ) (xs ys : Bytes) → length xs ≤ n → drop n (xs ++ ys) ≡ drop (n - length xs) ys
drop_beyond n [] ys h = let e : n ≡ n - 0 = omega arith in ap (λ k. drop k ys) e
drop_beyond zero (x ∷ xs) ys h = absurd (omega arith)
drop_beyond (suc n) (x ∷ xs) ys h =
    let e : n - length xs ≡ suc n - suc (length xs) = omega arith in
    drop_beyond n xs ys (omega arith) ∙ ap (λ k. drop k ys) e

module _ (lines : LinesCodec) (c : lines.Codec) where
  abbrev counting : ℕ → Framer lines.Codec
  counting n = record { other = c; octet_decoding = some (discarding n) }

  abbrev idle : Framer lines.Codec
  idle = record { other = c; octet_decoding = none }

  decode_counting :
      (n : ℕ) (src : Bytes)
      → length src < n
      → decode lines (counting n) src ≡ (counting (n - length src), [], ok none)
  unfolding decode entry_state octet_decode
  decode_counting n src h = rw (lt→leb n (length src) h) (rw (drop-length src))

  decode_counted :
      (n : ℕ) (src : Bytes)
      → n ≤ length src
      → decode lines (counting n) src ≡ (idle, drop n src, err (fatal oversize))
  unfolding decode entry_state octet_decode
  decode_counted n src h = rw (le→leb n (length src) h)

  receive-counting :
      (chunks : List Bytes) (n : ℕ) (src last : Bytes)
      → length (src ++ flatten chunks) < n
      → n ≤ length (src ++ (flatten chunks ++ last))
      → receive lines (counting n) src (chunks ++ last ∷ [])
        ≡ (err (fatal oversize) ∷ [], idle, drop n (src ++ (flatten chunks ++ last)))
  unfolding receive decode_all
  receive-counting [] n src last short long = rw (decode_counted n (src ++ last) long)
  receive-counting (x ∷ chunks) n src last short long =
      let front = src ++ x in
      let l = length-append front (flatten chunks) in
      let a = append_assoc src x (flatten chunks) in
      let whole : front ++ (flatten chunks ++ last) ≡ src ++ ((x ++ flatten chunks) ++ last) =
        append_assoc src x (flatten chunks ++ last)
        ∙ ap (◌++◌ src) (sym (append_assoc x (flatten chunks) last)) in
      let k = length-append front (flatten chunks ++ last) in
      let p : length (flatten chunks) < n - length front = omega (arith, ap length a, l) in
      let q : n - length front ≤ length (flatten chunks ++ last) =
        omega (arith, ap length whole, k) in
      let r : drop (n - length front) (flatten chunks ++ last)
          ≡ drop n (src ++ ((x ++ flatten chunks) ++ last)) =
        sym (drop_beyond n front (flatten chunks ++ last) (omega (arith, p))) ∙ ap (drop n) whole in
      rw (decode_counting n front (omega (arith, p))) (
        ap (append_output []) (receive-counting chunks (n - length front) [] last p q)
        ∙ ap (λ kept. (err (fatal oversize) ∷ [], idle, kept)) r)

  decode-oversize :
      (h : Header) (n : ℕ) (after : Bytes)
      → Denotes (lines.max_length c) h n
      → lines.max_length c < n
      → decode lines idle (header h ++ (b' ' ∷ after)) ≡ (counting n, after, ok none)
  unfolding decode entry_state
  decode-oversize h n after d over = rw d.starts (
      octet_decode-header _ (lines.max_length c) h n after d
      ∙ with_len-discards _ (lines.max_length c) _ (length (header h)) n over
      ∙ ap (λ kept. (counting n, kept, ok none))
          (drop_at _ (header h ++ (b' ' ∷ [])) after (length-append (header h) (b' ' ∷ []))
            (sym (append_assoc (header h) (b' ' ∷ []) after))))

-- A frame that announces more bytes than the maximum is answered by one fatal error, and then
-- exactly as many bytes as it announces are gone: what follows them is kept. This holds wherever
-- the reads cut the body, if the length as it is written has fewer digits than the maximum has
-- bytes, the first read has the length and its space, `last` is the read that completes the body,
-- and the first read holds less than the body.
pub receive-oversize :
    (lines : LinesCodec) (laws : IsLinesCodec lines) (max_length : ℕ) (h : Header) (n : ℕ)
    (start : Bytes) (chunks : List Bytes) (last : Bytes)
    → Denotes max_length h n
    → max_length < n
    → length (start ++ flatten chunks) < n
    → n ≤ length (start ++ (flatten chunks ++ last))
    → receive lines (new lines max_length) [] ((header h ++ (b' ' ∷ start)) ∷ (chunks ++ last ∷ []))
      ≡ (
        err (fatal oversize) ∷ [],
        new lines max_length,
        drop n (start ++ (flatten chunks ++ last)),
      )
unfolding receive decode_all new
receive-oversize lines laws max_length h n start chunks last d over short long =
    let c = lines.new_with_max_length max_length in
    let e = laws.max_length-new max_length in
    rw (decode-oversize lines c h n start (rw e d) (rw e over))
      (ap (append_output []) (receive-counting lines c chunks n start last short long))
