-- ===== src/Syslog/Framing/Steps.antt =====
-- What the searches and the number parser do on a run of digits.
use hyper_ruby.Common.{
  ℕ, ◌+◌, ◌-◌, ◌<◌, false, [], ◌∷◌, ◌++◌, ◌≡◌, refl, arith, none, some, length, length-append,
  take-append, drop-append, Bytes,
}
use hyper_ruby.Rust.Parse.{is_digit, Digits}
use hyper_ruby.Syslog.Framing.{position, get_range}

-- The first space after a run of digits is the one that ends it.
pub position-Digits :
    (cs rest : Bytes) → Digits cs → position b' ' (cs ++ (b' ' ∷ rest)) ≡ some (length cs)
unfolding position
position-Digits [] rest h = refl
position-Digits (c ∷ cs) rest h = rw (position-Digits cs rest h.1) (ground arith)

pub position-Digits-none :
    (wanted : ℕ) (cs : Bytes) → is_digit wanted ≡ false → Digits cs → position wanted cs ≡ none
unfolding position
position-Digits-none wanted [] w h = refl
position-Digits-none wanted (c ∷ cs) w h = rw (position-Digits-none wanted cs w h.1) (ground arith)

add-sub : (a b : ℕ) → a + b - a ≡ b
add-sub a b = omega arith

-- A range that the buffer holds, between what stands before it and after it.
pub get_range_lem :
    (front msg rest : Bytes)
    → get_range (length front) (length front + length msg) (front ++ (msg ++ rest)) ≡ some msg
unfolding get_range
get_range_lem front msg rest = rw (drop-append front (msg ++ rest)) (
    rw (add-sub (length front) (length msg)) (
      rw (take-append msg rest)
        (ground (arith, length-append front (msg ++ rest), length-append msg rest))))

-- A range whose end the buffer does not reach.
pub get_range_short : (from to : ℕ) (src : Bytes) → length src < to → get_range from to src ≡ none
unfolding get_range
get_range_short from to src h = ground arith
