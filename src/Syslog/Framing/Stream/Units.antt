-- ===== src/Syslog/Framing/Stream/Units.antt =====
-- A stream of units, such as frames, one after another and cut into reads, where the decoder takes
-- whole units off the buffer and leaves the start of the next one there.
use hyper_ruby.Common.{
  ℕ, zero, suc, ◌<◌, [], ◌∷◌, ◌++◌, ◌≡◌, refl, ap, sym, ◌∙◌, subst, arith, List, map, none, some,
  append_split, length, length-append, append_assoc, append-nil, Bytes, Result, ok,
}
use native.Mathlib.Decide.{dec_le}
use hyper_ruby.Syslog.Framing.{Framer, decode}
use hyper_ruby.Syslog.Framing.Lines.{LinesCodec, FrameError}
use hyper_ruby.Syslog.Framing.Stream.{Output, append_output, decode_all, receive}

abbrev pub flatten : List Bytes → Bytes
flatten [] = []
flatten (x ∷ xs) = x ++ flatten xs

-- What there is to know of the units and of the decoder on them. `Ready f src` says that the framer
-- is as it may be with `src` in the buffer; `tail` is what the stream ends with behind the last unit.
pub record Units (lines : LinesCodec) : Type 1 where
  pub U : Type 0
  pub octets_of : U → Bytes
  pub message : U → Bytes
  pub IsGood : U → Type 0
  pub Ready : Framer lines.Codec → Bytes → Type 0
  pub tail : Bytes
  pub nonempty : (u : U) → IsGood u → 0 < length (octets_of u)
  pub extend : (f : Framer lines.Codec) (src more : Bytes) → Ready f src → Ready f (src ++ more)
  pub whole :
      (f : Framer lines.Codec) (u : U) (rest : Bytes)
      → IsGood u
      → Ready f (octets_of u ++ rest)
      → (g : Framer lines.Codec) × (decode lines f (octets_of u ++ rest)
          ≡ (g, rest, ok (some (message u))))
        × Ready g rest
  pub part :
      (f : Framer lines.Codec) (u : U) (src rest : Bytes)
      → IsGood u
      → Ready f src
      → octets_of u ≡ src ++ rest
      → length src < length (octets_of u)
      → (g : Framer lines.Codec) × (decode lines f src ≡ (g, src, ok none)) × Ready g src
  pub pending :
      (f : Framer lines.Codec) (src rest : Bytes)
      → Ready f src
      → tail ≡ src ++ rest
      → (g : Framer lines.Codec) × (decode lines f src ≡ (g, src, ok none)) × Ready g src

module _ (lines : LinesCodec) (units : Units lines) where
  open units use {U, octets_of, message, IsGood, Ready, tail}

  abbrev pub AllGood : List U → Type 0
  AllGood [] = Unit {0}
  AllGood (u ∷ us) = IsGood u × AllGood us

  -- All units of a list and the tail, one after the other.
  abbrev pub stream_of : List U → Bytes
  stream_of [] = tail
  stream_of (u ∷ us) = octets_of u ++ stream_of us

  abbrev pub messages : List U → List (Result FrameError Bytes)
  messages = map (λ u. ok (message u))

  -- The buffer holds less than the next unit.
  abbrev IsShort : Bytes → List U → Type 0
  IsShort src [] = Unit {0}
  IsShort src (u ∷ us) = length src < length (octets_of u)

  -- One call of `decode_all` hands over whole units, and keeps the start of the next.
  record Progress (fuel : ℕ) (f : Framer lines.Codec) (src later : Bytes) (us : List U)
      : Type 0 where
    done : List U
    left : List U
    framer : Framer lines.Codec
    kept : Bytes
    splits : us ≡ done ++ left
    result : decode_all lines fuel f src ≡ (messages done, framer, kept)
    ready : Ready framer kept
    remaining : kept ++ later ≡ stream_of left
    short : IsShort kept left

  -- Nothing is decoded: the buffer ends inside the next unit, or inside the tail.
  Progress-none :
      (fuel : ℕ) (f g : Framer lines.Codec) (src later : Bytes) (us : List U)
      → decode lines f src ≡ (g, src, ok none)
      → Ready g src
      → src ++ later ≡ stream_of us
      → IsShort src us
      → Progress (suc fuel) f src later us
  unfolding decode_all
  Progress-none fuel f g src later us e r w s = record {
    done = [];
    left = us;
    framer = g;
    kept = src;
    splits = refl;
    result = rw e;
    ready = r;
    remaining = w;
    short = s;
  }

  Progress-cons :
      (fuel : ℕ) (f g : Framer lines.Codec) (u : U) (src later : Bytes) (us : List U)
      → decode lines f (octets_of u ++ src) ≡ (g, src, ok (some (message u)))
      → Progress fuel g src later us
      → Progress (suc fuel) f (octets_of u ++ src) later (u ∷ us)
  unfolding decode_all
  Progress-cons fuel f g u src later us e p = record {
    done = u ∷ p.done;
    left = p.left;
    framer = p.framer;
    kept = p.kept;
    splits = ap (◌∷◌ u) p.splits;
    result = rw e (rw p.result);
    ready = p.ready;
    remaining = p.remaining;
    short = p.short;
  }

  progress :
      (fuel : ℕ) (f : Framer lines.Codec) (src later : Bytes) (us : List U)
      → length src < fuel
      → Ready f src
      → AllGood us
      → src ++ later ≡ stream_of us
      → Progress fuel f src later us
  progress zero f src later us l r good w = absurd (omega arith)
  progress (suc fuel) f src later [] l r good w =
      let (g, e, r') = units.pending f src later r (sym w) in
      Progress-none fuel f g src later [] e r' w tt
  progress (suc fuel) f src later (u ∷ us) l r good w =
      elim (dec_le (length (octets_of u)) (length src)) [
        | yes h ↦
            let (mid, p, q) = append_split src later (octets_of u) (stream_of us) w h in
            let (g, e, r') = units.whole f u mid good.0 (subst (Ready f) p r) in
            let shorter : length mid < fuel =
              omega
                (arith, ap length p, length-append (octets_of u) mid, units.nonempty u good.0) in
            subst (λ x. Progress (suc fuel) f x later (u ∷ us)) (sym p)
              (Progress-cons fuel f g u mid later us e
                (progress fuel g mid later us shorter r' good.1 q))
        | no h ↦
            let (mid, p, q) =
              append_split (octets_of u) (stream_of us) src later (sym w) (omega arith) in
            let (g, e, r') = units.part f u src mid good.0 r p (omega arith) in
            Progress-none fuel f g src later (u ∷ us) e r' w (omega arith)
      ]

  AllGood-left : (done left : List U) → AllGood (done ++ left) → AllGood left
  AllGood-left [] left good = good
  AllGood-left (u ∷ done) left good = AllGood-left done left good.1

  messages-append : (done left : List U) → messages (done ++ left) ≡ messages done ++ messages left
  messages-append [] left = refl
  messages-append (u ∷ done) left = ap (◌∷◌ (ok (message u))) (messages-append done left)

  -- At the end of the stream no unit is left.
  at_end :
      (src : Bytes) (us : List U)
      → src ++ [] ≡ stream_of us
      → IsShort src us
      → (us ≡ []) × (src ≡ tail)
  at_end src [] w s = (refl, sym (append-nil src) ∙ w)
  at_end src (u ∷ us) w s =
      absurd (
        omega
          (arith, ap length w, length-append src [], length-append (octets_of u) (stream_of us)))

  -- What a read decodes, and then the reads that follow.
  abbrev after_read : List Bytes → Output lines.Codec → Output lines.Codec
  after_read chunks (out, f, src) = append_output out (receive lines f src chunks)

  -- From some state on, however the rest of the stream is cut.
  receive-from :
      (chunks : List Bytes) (f : Framer lines.Codec) (src : Bytes) (us : List U)
      → Ready f src
      → AllGood us
      → src ++ flatten chunks ≡ stream_of us
      → IsShort src us
      → (g : Framer lines.Codec) × (receive lines f src chunks ≡ (messages us, g, tail))
        × Ready g tail
  unfolding receive
  receive-from [] f src us r good w short =
      let (a, e) = at_end src us w short in (f, rw (a, e) refl, subst (Ready f) e r)
  receive-from (chunk ∷ chunks) f src us r good w short =
      let p =
        progress (suc (length (src ++ chunk))) f (src ++ chunk) (flatten chunks) us (omega arith)
          (units.extend f src chunk r) good (append_assoc src chunk (flatten chunks) ∙ w) in
      let (g, e, r') =
        receive-from chunks p.framer p.kept p.left p.ready
          (AllGood-left p.done p.left (subst AllGood p.splits good)) p.remaining p.short in
      let all : messages us ≡ messages p.done ++ messages p.left =
        ap messages p.splits ∙ messages-append p.done p.left in
      (
        g,
        ap (after_read chunks) p.result
            ∙ ap (append_output (messages p.done)) e
            ∙ ap (λ out. (out, g, tail)) (sym all),
        r',
      )

  IsShort-nil : (us : List U) → AllGood us → IsShort [] us
  IsShort-nil [] good = tt
  IsShort-nil (u ∷ us) good = units.nonempty u good.0

  -- From an empty buffer, the units come out as their messages, and the tail is left.
  pub receive-units :
      (chunks : List Bytes) (f : Framer lines.Codec) (us : List U)
      → Ready f []
      → AllGood us
      → flatten chunks ≡ stream_of us
      → (g : Framer lines.Codec) × (receive lines f [] chunks ≡ (messages us, g, tail))
        × Ready g tail
  receive-units chunks f us r good w = receive-from chunks f [] us r good w (IsShort-nil us good)
