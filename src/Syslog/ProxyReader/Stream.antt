-- ===== src/Syslog/ProxyReader/Stream.antt =====
-- The reader over any cuts of a connection's first bytes.
use hyper_ruby.Common.{
  ℕ, ◌+◌, ◌≤◌, [], ◌∷◌, ◌++◌, ◌≡◌, refl, ap, sym, ◌∙◌, subst, arith, List, Option, none, some, drop,
  drop_at, drop-append_le, length, append_assoc, append-nil, Bytes, Result, ok, err,
}
use hyper_ruby.Syslog.Proxy.{
  ProxyError, IpAddr, ProxyHeader, incomplete, complete, with_length, parse,
}
use hyper_ruby.Syslog.Proxy.Stable.{parse-append_complete, parse-append_err}
use hyper_ruby.Syslog.Proxy.Bounds.{parse-complete_bounds, parse-incomplete_bounds}
use hyper_ruby.Syslog.Proxy.RoundTrip.{v2_header, announced, parse-v2_header}
use hyper_ruby.Syslog.ProxyReader.{
  max_proxy_header_bytes, header, Read, bytes, HeaderRead, decide, read_proxy_header,
}

-- Reads that all give bytes, and these bytes together.
abbrev pub arrived : List (ℕ × Bytes) → List Read
arrived [] = []
arrived ((b, bs) ∷ chunks) = bytes b bs ∷ arrived chunks

abbrev pub contents : List (ℕ × Bytes) → Bytes
contents [] = []
contents ((b, bs) ∷ chunks) = (b ∷ bs) ++ contents chunks

-- The three ways in which the parser answers.
data Answer (buf : Bytes) : Type 0 where
  waits : parse buf max_proxy_header_bytes ≡ ok incomplete → Answer buf
  found :
      (s : Option IpAddr) (n : ℕ)
      → parse buf max_proxy_header_bytes ≡ ok (complete s n)
      → Answer buf
  refused : (e : ProxyError) → parse buf max_proxy_header_bytes ≡ err e → Answer buf

answer_of :
    (buf : Bytes) (r : Result ProxyError ProxyHeader)
    → parse buf max_proxy_header_bytes ≡ r
    → Answer buf
answer_of buf (ok incomplete) e = waits e
answer_of buf (ok (complete s n)) e = found s n e
answer_of buf (err x) e = refused x e

-- Of a header that is found: the source, and what lies in the buffer and ahead of it.
abbrev pub Finds : Option HeaderRead → Option IpAddr → Bytes → Type 0
Finds r source payload =
    (h : HeaderRead) × (rest : List (ℕ × Bytes)) × (r ≡ some h)
    × (h.result ≡ ok source)
    × (h.unread ≡ arrived rest)
    × (h.buffer ++ contents rest ≡ payload)

module _ (source : Option IpAddr) (n : ℕ) where
  -- The header stands in the buffer and the bytes to come.
  abbrev Ahead : Bytes → Bytes → Type 0
  Ahead buf later = parse (buf ++ later) max_proxy_header_bytes ≡ ok (complete source n)

  unfound :
      (buf later : Bytes) (e : ProxyError)
      → Ahead buf later
      → parse buf max_proxy_header_bytes ≡ err e
      → ⊥
  unfound buf later e a r =
      let (e', p, _) = parse-append_err buf later max_proxy_header_bytes r in cc

  same_header :
      (buf later : Bytes) (s : Option IpAddr) (k : ℕ)
      → Ahead buf later
      → parse buf max_proxy_header_bytes ≡ ok (complete s k)
      → (s ≡ source) × (k ≡ n)
  same_header buf later s k a p =
      let q = parse-append_complete buf later max_proxy_header_bytes p in (cc, cc)

  found_here :
      (buf : Bytes) (chunks : List (ℕ × Bytes)) (more : Option HeaderRead) (s : Option IpAddr)
      (k : ℕ)
      → Ahead buf (contents chunks)
      → parse buf max_proxy_header_bytes ≡ ok (complete s k)
      → Finds
          (decide (parse buf max_proxy_header_bytes) buf (arrived chunks) more)
          source
          (drop n (buf ++ contents chunks))
  found_here buf chunks more s k a p =
      let (es, ek) = same_header buf (contents chunks) s k a p in
      let b = parse-complete_bounds buf max_proxy_header_bytes p in
      (
        record { result = ok s; buffer = drop k buf; unread = arrived chunks },
        chunks,
        rw p,
        ap ok es,
        refl,
        rw ek (sym (drop-append_le n buf (contents chunks) (omega (arith, b, ek)))),
      )

  decide_waits :
      (buf : Bytes) (reads : List Read) (more : Option HeaderRead)
      → parse buf max_proxy_header_bytes ≡ ok incomplete
      → decide (parse buf max_proxy_header_bytes) buf reads more ≡ more
  decide_waits buf reads more w = rw w

  not_both :
      (buf : Bytes)
      → parse buf max_proxy_header_bytes ≡ ok incomplete
      → parse buf max_proxy_header_bytes ≡ ok (complete source n)
      → ⊥
  not_both buf w p = cc

  read-Finds :
      (buf : Bytes) (chunks : List (ℕ × Bytes))
      → Ahead buf (contents chunks)
      → Finds (read_proxy_header buf (arrived chunks)) source (drop n (buf ++ contents chunks))
  unfolding read_proxy_header
  read-Finds buf [] a = elim (answer_of buf _ refl) [
    | waits w ↦ absurd (
        not_both buf w
          (subst (λ x. parse x max_proxy_header_bytes ≡ ok (complete source n)) (append-nil buf) a))
    | found s k p ↦ found_here buf [] none s k a p
    | refused e p ↦ absurd (unfound buf [] e a p)
  ]
  read-Finds buf ((b, bs) ∷ chunks) a = elim (answer_of buf _ refl) [
    | waits w ↦
        let e = append_assoc buf (b ∷ bs) (contents chunks) in
        let (h, rest, p, q, u, r) =
          read-Finds (buf ++ (b ∷ bs)) chunks
            (subst (λ x. parse x max_proxy_header_bytes ≡ ok (complete source n)) (sym e) a) in
        (h, rest, decide_waits buf _ _ w ∙ p, q, u, r ∙ ap (drop n) e)
    | found s k p ↦ found_here buf ((b, bs) ∷ chunks) _ s k a p
    | refused e p ↦ absurd (unfound buf _ e a p)
  ]

length-v2_header :
    (family command : ℕ) (address : Bytes)
    → length (v2_header family command address) ≡ 16 + length address
unfolding v2_header
length-v2_header family command address = omega arith

with_length-ok :
    (source : Option IpAddr) (n : ℕ) → with_length (ok source) n ≡ ok (complete source n)
unfolding with_length
with_length-ok source n = refl

-- A connection that starts with a PROXY v2 header of at most 1024 bytes, of which the protocol
-- says that it names `source`: wherever the reads cut it, the reader returns `source`, and the
-- bytes behind the header are, in order, what is left in the buffer and what the reads bring that it
-- has not made.
pub read_proxy_header-v2_header :
    (family command : ℕ) (address payload : Bytes) (source : Option IpAddr)
    (chunks : List (ℕ × Bytes))
    → command ≤ 1
    → 16 + length address ≤ max_proxy_header_bytes
    → announced command family address ≡ ok source
    → contents chunks ≡ v2_header family command address ++ payload
    → Finds (read_proxy_header [] (arrived chunks)) source payload
read_proxy_header-v2_header family command address payload source chunks c fits names w =
    let n = 16 + length address in
    let ahead : parse (contents chunks) max_proxy_header_bytes ≡ ok (complete source n) = rw w (
      parse-v2_header family command address payload max_proxy_header_bytes c (omega arith) fits
      ∙ rw names (with_length-ok source n)) in
    let (h, rest, p, q, u, r) = read-Finds source n [] chunks ahead in
    let behind =
      drop_at n (v2_header family command address) payload (length-v2_header family command address)
        refl in
    (h, rest, p, q, u, r ∙ ap (drop n) w ∙ behind)

module _ (buf : Bytes) (reads : List Read) (more : Option HeaderRead) where
  abbrev decision : Option HeaderRead
  decision = decide (parse buf max_proxy_header_bytes) buf reads more

  decide_found :
      (s : Option IpAddr) (k : ℕ)
      → parse buf max_proxy_header_bytes ≡ ok (complete s k)
      → (h : HeaderRead) × (decision ≡ some h)
  decide_found s k p = (record { result = ok s; buffer = drop k buf; unread = reads }, rw p)

  decide_refused :
      (e : ProxyError)
      → parse buf max_proxy_header_bytes ≡ err e
      → (h : HeaderRead) × (decision ≡ some h)
  decide_refused e p = (record { result = err (header e); buffer = buf; unread = reads }, rw p)

read_decides :
    (buf : Bytes) (chunks : List (ℕ × Bytes))
    → max_proxy_header_bytes ≤ length (buf ++ contents chunks)
    → (h : HeaderRead) × (read_proxy_header buf (arrived chunks) ≡ some h)
unfolding read_proxy_header
read_decides buf [] l = elim (answer_of buf _ refl) [
  | waits w ↦ absurd (
      omega (
        arith,
        parse-incomplete_bounds buf max_proxy_header_bytes (omega arith) w,
        ap length (append-nil buf),
      ))
  | found s k p ↦ decide_found buf _ _ s k p
  | refused e p ↦ decide_refused buf _ _ e p
]
read_decides buf ((b, bs) ∷ chunks) l = elim (answer_of buf _ refl) [
  | waits w ↦
      let e = append_assoc buf (b ∷ bs) (contents chunks) in
      let (h, p) = read_decides (buf ++ (b ∷ bs)) chunks (omega (arith, ap length e)) in (h, rw w p)
  | found s k p ↦ decide_found buf _ _ s k p
  | refused e p ↦ decide_refused buf _ _ e p
]

-- The reader decides, one way or the other, by the time that 1024 bytes have arrived.
pub read_proxy_header-decides :
    (chunks : List (ℕ × Bytes))
    → max_proxy_header_bytes ≤ length (contents chunks)
    → (h : HeaderRead) × (read_proxy_header [] (arrived chunks) ≡ some h)
read_proxy_header-decides chunks l = read_decides [] chunks l
