-- ===== src/Rust/Word.antt =====
-- Machine integers: the moduli of the widths that the program uses, and the two shapes in which
-- it reads them from the wire.
use hyper_ruby.Common.{ℕ, ◌+◌, ◌*◌, ◌/◌, ◌%◌, ◌^◌, ◌<◌, ◌≡◌, [], ◌∷◌, Bytes, arith}

abbrev pub u8_mod : ℕ
u8_mod = 2 ^ 8

abbrev pub u32_mod : ℕ
u32_mod = 2 ^ 32

-- `usize` and `u64` on the 64-bit targets.
abbrev pub usize_mod : ℕ
usize_mod = 2 ^ 64

-- `u16::from_be_bytes` and `u32::from_be_bytes`.
abbrev pub u16_from_be : ℕ → ℕ → ℕ
u16_from_be a b = a * 256 + b

abbrev pub u32_from_be : ℕ → ℕ → ℕ → ℕ → ℕ
u32_from_be a b c d = ((a * 256 + b) * 256 + c) * 256 + d

-- `u16::to_be_bytes` and `u32::to_be_bytes`, at any number: what does not fit is cut off.
abbrev pub u16_to_be : ℕ → Bytes
u16_to_be n = n / 2 ^ 8 % 256 ∷ n % 256 ∷ []

abbrev pub u32_to_be : ℕ → Bytes
u32_to_be n = n / 2 ^ 24 % 256 ∷ n / 2 ^ 16 % 256 ∷ n / 2 ^ 8 % 256 ∷ n % 256 ∷ []

pub u16_from_be-to_be : (n : ℕ) → n < 2 ^ 16 → u16_from_be (n / 2 ^ 8 % 256) (n % 256) ≡ n
u16_from_be-to_be n h = omega arith

pub u32_from_be-to_be :
    (n : ℕ)
    → u32_from_be (n / 2 ^ 24 % 256) (n / 2 ^ 16 % 256) (n / 2 ^ 8 % 256) (n % 256) ≡ n % u32_mod
u32_from_be-to_be n = omega arith
