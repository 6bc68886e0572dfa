-- ===== src/Http/Response/Status.antt =====
-- What a gRPC response says of itself.
use hyper_ruby.Common.{ℕ, ◌<◌, [], Option, some, arith, ◌≡◌, refl, length, append-nil, Bytes}
use hyper_ruby.Rust.Word.{u32_mod}
use hyper_ruby.Grpc.{encode_grpc_frame}
use hyper_ruby.Grpc.RoundTrip.{decode-encode}
use hyper_ruby.Http.Text.{HeaderRules, get}
use hyper_ruby.Http.Response.{
  HyperResponse, grpc_headers, grpc_error, new_body, new_grpc_response, new_grpc_error, grpc_body,
  grpc_status,
}

-- A gRPC response gives back the message that it was made of, if that has less than 2 ^ 32 bytes.
pub grpc_body-new :
    (status : ℕ) (body : Bytes)
    → length body < u32_mod
    → grpc_body (new_grpc_response status body) ≡ body
unfolding grpc_body new_grpc_response new_body
grpc_body-new status body h =
    rw (← append-nil (encode_grpc_frame body)) (rw (decode-encode body [] h))

new_grpc_error-headers :
    (rules : HeaderRules) (status : ℕ) (message : Bytes) (r : HyperResponse)
    → new_grpc_error rules status message ≡ some r
    → r.headers ≡ grpc_headers
unfolding new_grpc_error grpc_error
new_grpc_error-headers rules status message r e = ground arith

-- `status` of a gRPC response is 0, the code of success, whatever status the response was made
-- with, an error's too: it looks into the headers, and the status is written to the trailers.
pub grpc_status-new :
    (to_str : Bytes → Option Bytes) (rules : HeaderRules) (status : ℕ) (body message : Bytes)
    (r : HyperResponse)
    → new_grpc_error rules status message ≡ some r
    → (grpc_status to_str (new_grpc_response status body) ≡ 0) × (grpc_status to_str r ≡ 0)
unfolding grpc_status new_grpc_response get
grpc_status-new to_str rules status body message r e =
    (refl, rw (new_grpc_error-headers rules status message r e) refl)
