-- ===== src/Rust/Parse.antt =====
-- `str::parse::<usize>`: an optional `+`, then at least one ASCII digit and nothing else, with an
-- error where the value does not fit. Its error kinds are not kept: the program reads none.
use hyper_ruby.Common.{
  ◌++◌, true, arith, ◌≡◌, ℕ, ◌+◌, ◌*◌, ◌-◌, Bool, ◌&&◌, [], ◌∷◌, Option, none, some, leb, ltb, ◌==◌,
  if◌then◌else◌, Bytes,
}
use hyper_ruby.Rust.Word.{usize_mod}

abbrev pub is_digit : ℕ → Bool
is_digit c = leb b'0' c && leb c b'9'

-- The digits from the left, with the value so far; the check for overflow is made at each digit.
unfoldable pub parse_digits : ℕ → Bytes → Option ℕ
parse_digits acc [] = some acc
parse_digits acc (c ∷ cs) =
    let value = acc * 10 + (c - b'0') in
    let rest = parse_digits value cs in if is_digit c && ltb value usize_mod then rest else none

unfoldable unsigned : Bytes → Option ℕ
unfolding parse_digits
unsigned [] = none
unsigned (c ∷ cs) = parse_digits 0 (c ∷ cs)

unfoldable pub parse_usize : Bytes → Option ℕ
unfolding unsigned
parse_usize [] = none
parse_usize (c ∷ cs) = if c == b'+' then unsigned cs else unsigned (c ∷ cs)

abbrev pub Digits : Bytes → Type 0
Digits [] = Unit {0}
Digits (c ∷ cs) = (is_digit c ≡ true) × Digits cs

pub parse_digits-Digits : (acc : ℕ) (cs : Bytes) {n : ℕ} → parse_digits acc cs ≡ some n → Digits cs
unfolding parse_digits
parse_digits-Digits acc [] h = tt
parse_digits-Digits acc (c ∷ cs) {n} h =
    ground (arith, parse_digits-Digits (acc * 10 + (c - b'0')) cs {n = n})

pub parse_usize-Digits :
    (c : ℕ) (cs : Bytes) {n : ℕ}
    → (leb b'1' c && leb c b'9') ≡ true
    → parse_usize (c ∷ cs) ≡ some n
    → Digits (c ∷ cs)
unfolding parse_usize
parse_usize-Digits c cs {n} h e =
    ground (arith, parse_digits-Digits (0 * 10 + (c - b'0')) cs {n = n})

pub Digits-front : (cs ds : Bytes) → Digits (cs ++ ds) → Digits cs
Digits-front [] ds h = tt
Digits-front (c ∷ cs) ds h = (h.0, Digits-front cs ds h.1)
