-- ===== src/Grpc.antt =====
-- ext/hyper_ruby/src/grpc.rs: gRPC message frames, and the recognition of gRPC requests.
pub mod RoundTrip
use hyper_ruby.Common.{
  ℕ, ◌+◌, ◌%◌, Bool, true, false, not, ◌&&◌, ◌||◌, [], ◌∷◌, ◌++◌, List, Option, none, some, ltb,
  leb, ◌==◌, if◌then◌else◌, length, take, drop, get_or, Bytes,
}
use hyper_ruby.Rust.Word.{u32_mod, u32_to_be, u32_from_be}

abbrev pub grpc_header_size : ℕ
grpc_header_size = 5

-- `bytes.slice(from..to)`, in bounds.
abbrev slice : ℕ → ℕ → Bytes → Bytes
slice from size src = take size (drop from src)

unfoldable pub decode_grpc_frame : Bytes → Option (Bool × Bytes)
decode_grpc_frame src =
    let message_len =
      u32_from_be (get_or src 1 0) (get_or src 2 0) (get_or src 3 0) (get_or src 4 0) in
    if ltb (length src) grpc_header_size
    then none
    else if ltb (length src) (grpc_header_size + message_len)
    then none
    else some (not (get_or src 0 0 == 0), slice grpc_header_size message_len src)

-- The length is cast to `u32`, which cuts off what does not fit.
unfoldable pub encode_grpc_frame : Bytes → Bytes
encode_grpc_frame message = 0 ∷ (u32_to_be (length message) ++ message)
