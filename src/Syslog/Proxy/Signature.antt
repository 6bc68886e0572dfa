-- ===== src/Syslog/Proxy/Signature.antt =====
-- The comparison of the bytes seen so far with a signature, as the buffer grows.
use hyper_ruby.Common.{
  ℕ, suc, ◌≤◌, true, ◌&&◌, [], ◌∷◌, ◌++◌, ◌≡◌, refl, sym, ◌∙◌, arith, ◌==◌, min, length, equal,
  Bytes,
}
use hyper_ruby.Syslog.Proxy.{agrees}

min-suc : (a b : ℕ) → min (suc a) (suc b) ≡ suc (min a b)
min-suc a b = omega arith

min-zero : (b : ℕ) → min 0 b ≡ 0
min-zero b = omega arith

-- Byte by byte.
pub agrees-cons : (x y : ℕ) (xs ys : Bytes) → agrees (x ∷ xs) (y ∷ ys) ≡ (x == y && agrees xs ys)
unfolding agrees equal
agrees-cons x y xs ys = rw (min-suc (length xs) (length ys)) (ground arith)

agrees-nil : (ys : Bytes) → agrees [] ys ≡ true
unfolding agrees equal
agrees-nil ys = rw (min-zero (length ys)) refl

min-zero_right : (b : ℕ) → min b 0 ≡ 0
min-zero_right b = omega arith

agrees_empty : (buf : Bytes) → agrees buf [] ≡ true
unfolding agrees equal
agrees_empty buf = rw (min-zero_right (length buf)) refl

-- A buffer agrees with a signature as long as it has agreed with it all along.
pub agrees-append : (buf more sig : Bytes) → agrees (buf ++ more) sig ≡ true → agrees buf sig ≡ true
agrees-append [] more sig h = agrees-nil sig
agrees-append (x ∷ buf) more [] h = agrees_empty (x ∷ buf)
agrees-append (x ∷ buf) more (y ∷ sig) h =
    ground (
      arith,
      agrees-cons x y buf sig,
      agrees-cons x y (buf ++ more) sig,
      agrees-append buf more sig,
    )

-- Once the signature has been seen, what follows does not matter.
pub agrees-append_long :
    (buf more sig : Bytes) → length sig ≤ length buf → agrees (buf ++ more) sig ≡ agrees buf sig
agrees-append_long buf more [] h = agrees_empty (buf ++ more) ∙ sym (agrees_empty buf)
agrees-append_long [] more (y ∷ sig) h = absurd (omega arith)
agrees-append_long (x ∷ buf) more (y ∷ sig) h = ground (
  arith,
  agrees-cons x y buf sig,
  agrees-cons x y (buf ++ more) sig,
  agrees-append_long buf more sig,
)
