-- ===== src/Syslog/Framing/Stream.antt =====
-- The decoder over a stream that arrives in pieces. `decode_all` is the loop of the tests in
-- framing.rs, and `receive` what they do at each read: put the bytes into the buffer and decode.
pub mod Units
pub mod Frames
pub mod Sent
pub mod Ready
pub mod Mixed
pub mod Oversize
pub mod Injected
use hyper_ruby.Common.{
  ℕ, zero, suc, [], ◌∷◌, ◌++◌, List, Option, none, some, length, Bytes, Result, ok, err,
  if◌then◌else◌,
}
use hyper_ruby.Syslog.Framing.{Framer, Decoded, decode}
use hyper_ruby.Syslog.Framing.Lines.{LinesCodec, FrameError}

-- What was decoded, in order, and what is left.
abbrev pub Output : Type 0 → Type 0
Output C = List (Result FrameError Bytes) × Framer C × Bytes

abbrev pub prepend : {C : Type 0} → Result FrameError Bytes → Output C → Output C
prepend r (out, f, src) = (r ∷ out, f, src)

abbrev pub append_output : {C : Type 0} → List (Result FrameError Bytes) → Output C → Output C
append_output front (out, f, src) = (front ++ out, f, src)

unfoldable pub collect : {C : Type 0} → (Framer C → Bytes → Output C) → Decoded C → Output C
collect more (f, src, ok (some frame)) = prepend (ok frame) (more f src)
collect more (f, src, ok none) = ([], f, src)
collect more (f, src, err e) =
    let rest = more f src in if e.is_fatal then (err e ∷ [], f, src) else prepend (err e) rest

module _ (lines : LinesCodec) where
  open lines use {Codec}

  unfoldable pub decode_all : ℕ → Framer Codec → Bytes → Output Codec
  unfolding collect
  decode_all zero f src = ([], f, src)
  decode_all (suc fuel) f src = collect (decode_all fuel) (decode lines f src)

  -- One read after another, with fuel for as many calls as the buffer has bytes, and one.
  unfoldable pub receive : Framer Codec → Bytes → List Bytes → Output Codec
  receive f src [] = ([], f, src)
  receive f src (chunk ∷ chunks) =
      let (out, f', src') = decode_all (suc (length (src ++ chunk))) f (src ++ chunk) in
      append_output out (receive f' src' chunks)
