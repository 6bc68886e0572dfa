-- ===== src/Grpc/RoundTrip.antt =====
-- The encoder and the decoder of gRPC frames.
use hyper_ruby.Common.{
  ℕ, ◌%◌, ◌≤◌, ◌<◌, Bool, false, not, ◌∷◌, ◌++◌, ◌≡◌, ap, sym, ◌∙◌, arith, Option, none, some, ltb,
  ◌==◌, if◌then◌else◌, le→ltb, length, take, drop, length-append, length-take, take-append,
  take-append-drop, Bytes,
}
use native.Mathlib.Nat.{mod-eq_of_lt}
use hyper_ruby.Rust.Word.{u32_mod, u32_from_be, u32_from_be-to_be}
use hyper_ruby.Grpc.{decode_grpc_frame, encode_grpc_frame}

-- Any frame, from its flag, the four bytes of its length and what follows them.
decode_frame :
    (flag a b c d : ℕ) (after : Bytes)
    → decode_grpc_frame (flag ∷ a ∷ b ∷ c ∷ d ∷ after) ≡ (
        if ltb (length after) (u32_from_be a b c d)
        then none
        else some (not (flag == 0), take (u32_from_be a b c d) after))
unfolding decode_grpc_frame
decode_frame flag a b c d after = ground arith

-- A message of less than 2 ^ 32 bytes is read back from its frame, as not compressed, whatever
-- follows the frame.
pub decode-encode :
    (message rest : Bytes)
    → length message < u32_mod
    → decode_grpc_frame (encode_grpc_frame message ++ rest) ≡ some (false, message)
unfolding encode_grpc_frame
decode-encode message rest h =
    decode_frame 0 _ _ _ _ (message ++ rest)
    ∙ rw (u32_from_be-to_be (length message)) (
        rw (mod-eq_of_lt h) (
          rw
            (le→ltb (length (message ++ rest)) (length message)
              (omega (arith, length-append message rest)))
            (rw (take-append message rest))))

-- A longer message is cut: only its length modulo 2 ^ 32 is announced, and that much is read back.
pub decode-encode_long :
    (message : Bytes)
    → decode_grpc_frame (encode_grpc_frame message)
      ≡ some (false, take (length message % u32_mod) message)
unfolding encode_grpc_frame
decode-encode_long message =
    decode_frame 0 _ _ _ _ message
    ∙ rw (u32_from_be-to_be (length message))
        (rw (le→ltb (length message) (length message % u32_mod) (omega arith)))

frame_facts :
    (flag n : ℕ) (after : Bytes) (compressed : Bool) (message : Bytes)
    → ◌≡◌ {A = Option (Bool × Bytes)}
        (if ltb (length after) n then none else some (not (flag == 0), take n after))
        (some (compressed, message))
    → (n ≤ length after) × (message ≡ take n after) × (compressed ≡ not (flag == 0))
frame_facts flag n after compressed message h = ground arith

-- What is read stands in the buffer, behind a header that announces it: nothing is read from
-- beyond the buffer.
pub decode-splits :
    (src : Bytes) {compressed : Bool} {message : Bytes}
    → decode_grpc_frame src ≡ some (compressed, message)
    → (flag a b c d : ℕ) × (rest : Bytes) × (src ≡ flag ∷ a ∷ b ∷ c ∷ d ∷ (message ++ rest))
      × (length message ≡ u32_from_be a b c d)
      × (compressed ≡ not (flag == 0))
unfolding decode_grpc_frame
decode-splits (flag ∷ a ∷ b ∷ c ∷ d ∷ after) {compressed} {message} h =
    let n = u32_from_be a b c d in
    let (fits, is, bit) =
      frame_facts flag n after compressed message (sym (decode_frame flag a b c d after) ∙ h) in
    (
      flag,
      a,
      b,
      c,
      d,
      drop n after,
      ap (λ rest. flag ∷ a ∷ b ∷ c ∷ d ∷ rest) (rw is (sym (take-append-drop n after))),
      rw is (omega (arith, length-take n after)),
      bit,
    )
decode-splits _ h = ground arith
