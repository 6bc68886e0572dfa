-- ===== src/Rust/Decimal.antt =====
-- Numbers in decimal: `to_string` and `parse::<usize>` undo each other.
use hyper_ruby.Common.{
  ℕ, zero, suc, ◌+◌, ◌*◌, ◌/◌, ◌%◌, ◌≤◌, ◌<◌, [], ◌∷◌, some, ◌≡◌, ap, ◌∙◌, arith, Bool-cases, inl,
  inr, ltb, lt→ltb, ltb→lt, Bytes,
}
use hyper_ruby.Rust.Word.{usize_mod}
use hyper_ruby.Rust.Parse.{parse_digits, parse_usize}
use hyper_ruby.Http.Text.{to_string, digits_from}

parse_digits-digit :
    (acc d : ℕ) (ds : Bytes)
    → d < 10
    → acc * 10 + d < usize_mod
    → parse_digits acc ((b'0' + d) ∷ ds) ≡ parse_digits (acc * 10 + d) ds
unfolding parse_digits
parse_digits-digit acc d ds l fits = ground arith

parse_digits-digits_from :
    (fuel n : ℕ) (ds : Bytes)
    → n < fuel
    → n < usize_mod
    → parse_digits 0 (digits_from fuel n ds) ≡ parse_digits n ds
unfolding digits_from
parse_digits-digits_from zero n ds l fits = absurd (omega arith)
parse_digits-digits_from (suc fuel) n ds l fits = elim (Bool-cases (ltb n 10)) [
  | inl small ↦
      let l' = ltb→lt n 10 small in
      rw small (
        parse_digits-digit 0 (n % 10) ds (omega arith) (omega arith)
        ∙ ap (λ k. parse_digits k ds) (omega arith))
  | inr large ↦
      let g : 10 ≤ n = ground (arith, lt→ltb n 10) in
      rw large (
        parse_digits-digits_from fuel (n / 10) ((b'0' + n % 10) ∷ ds) (omega arith) (omega arith)
        ∙ parse_digits-digit (n / 10) (n % 10) ds (omega arith) (omega arith)
        ∙ ap (λ k. parse_digits k ds) (omega arith))
]

-- It starts with a digit, no less than `low`.
abbrev pub StartsWithDigit : ℕ → Bytes → Type 0
StartsWithDigit low [] = ⊥
StartsWithDigit low (c ∷ cs) = (b'0' + low ≤ c) × (c ≤ b'9')

digits_from-StartsWithDigit :
    (low fuel n : ℕ) (ds : Bytes)
    → n < fuel
    → low ≤ n
    → low ≤ 1
    → StartsWithDigit low (digits_from fuel n ds)
unfolding digits_from
digits_from-StartsWithDigit low zero n ds l p q = absurd (omega arith)
digits_from-StartsWithDigit low (suc fuel) n ds l p q = elim (Bool-cases (ltb n 10)) [
  | inl small ↦ let l' = ltb→lt n 10 small in rw small (omega arith, omega arith)
  | inr large ↦
      let g : 10 ≤ n = ground (arith, lt→ltb n 10) in
      rw large (
        digits_from-StartsWithDigit low fuel (n / 10) ((b'0' + n % 10) ∷ ds) (omega arith)
          (omega arith) q)
]

pub to_string-StartsWithDigit : (low n : ℕ) → low ≤ n → low ≤ 1 → StartsWithDigit low (to_string n)
unfolding to_string
to_string-StartsWithDigit low n p q = digits_from-StartsWithDigit low (suc n) n [] (omega arith) p q

parse_usize-StartsWithDigit :
    (text : Bytes) → StartsWithDigit 0 text → parse_usize text ≡ parse_digits 0 text
unfolding parse_usize
parse_usize-StartsWithDigit [] s = absurd s
parse_usize-StartsWithDigit (c ∷ cs) (low, high) = ground arith

-- A number that fits is read back from its digits.
pub parse_usize-to_string : (n : ℕ) → n < usize_mod → parse_usize (to_string n) ≡ some n
unfolding to_string parse_digits
parse_usize-to_string n fits =
    parse_usize-StartsWithDigit (to_string n)
      (to_string-StartsWithDigit 0 n (omega arith) (omega arith))
    ∙ parse_digits-digits_from (suc n) n [] (omega arith) fits
