-- ===== src/Http/Response/Received.antt =====
-- What a client gets of a gRPC response: the frames that hyper polls out of its body, decoded.
use hyper_ruby.Common.{
  ℕ, suc, ◌<◌, ◌^◌, ◌++◌, true, false, [], ◌∷◌, some, ◌≡◌, refl, ap, ◌∙◌, subst, arith, length,
  append-nil, Bytes,
}
use hyper_ruby.Rust.Word.{u32_mod}
use hyper_ruby.Rust.Parse.{parse_usize}
use hyper_ruby.Rust.Decimal.{parse_usize-to_string}
use hyper_ruby.Grpc.{encode_grpc_frame, decode_grpc_frame}
use hyper_ruby.Grpc.RoundTrip.{decode-encode}
use hyper_ruby.Http.Text.{HeaderMap, HeaderRules, to_string, get, insert}
use hyper_ruby.Http.Response.{
  HyperResponse, payload, trailer, grpc_trailers, with_message, new_grpc_response, grpc_error,
  new_grpc_error,
}
use hyper_ruby.Http.Response.Frames.{frames, data_frames, frames-new_body}

-- The trailers say that the call ended with this status.
abbrev pub SaysStatus : ℕ → HeaderMap → Type 0
SaysStatus status t = (s : Bytes) × (get "grpc-status" t ≡ some s) × (parse_usize s ≡ some status)

data_frames-encode :
    (body : Bytes) → data_frames (encode_grpc_frame body) ≡ payload (encode_grpc_frame body) ∷ []
unfolding encode_grpc_frame
data_frames-encode body = refl

grpc_trailers-SaysStatus :
    (status : ℕ) → status < u32_mod → SaysStatus status (grpc_trailers status)
unfolding get insert
grpc_trailers-SaysStatus status l =
    (to_string status, refl, parse_usize-to_string status (omega arith))

-- A client gets the message that a gRPC response was made of in one frame, not compressed, and then
-- trailers with the status that it was made with, polled twice or more often. The message has
-- less than 2 ^ 32 bytes, and the status fits into 16 bits.
pub new_grpc_response-received :
    (n status : ℕ) (body : Bytes)
    → status < 2 ^ 16
    → length body < u32_mod
    → (p : Bytes) × (t : HeaderMap) × (frames (suc (suc n)) (new_grpc_response status body).body
        ≡ payload p ∷ trailer t ∷ [])
      × (decode_grpc_frame p ≡ some (false, body))
      × SaysStatus status t
unfolding new_grpc_response
new_grpc_response-received n status body small l = (
  encode_grpc_frame body,
  grpc_trailers status,
  frames-new_body n (encode_grpc_frame body) (some (grpc_trailers status))
      ∙ ap (λ x. x ++ (trailer (grpc_trailers status) ∷ [])) (data_frames-encode body),
  subst (λ x. decode_grpc_frame x ≡ some (false, body)) (append-nil (encode_grpc_frame body))
      (decode-encode body [] l),
  grpc_trailers-SaysStatus status (omega arith),
)

with_message-SaysStatus :
    (status : ℕ) (message : Bytes)
    → status < u32_mod
    → SaysStatus status (with_message message (grpc_trailers status))
unfolding get insert
with_message-SaysStatus status [] l = grpc_trailers-SaysStatus status l
with_message-SaysStatus status (b ∷ bs) l =
    (to_string status, refl, parse_usize-to_string status (omega arith))

get-with_message :
    (status : ℕ) (b : ℕ) (bs : Bytes)
    → get "grpc-message" (with_message (b ∷ bs) (grpc_trailers status)) ≡ some (b ∷ bs)
unfolding get insert
get-with_message status b bs = refl

new_grpc_error-some :
    (rules : HeaderRules) (status : ℕ) (message : Bytes)
    → rules.is_value message ≡ true
    → new_grpc_error rules status message ≡ some (grpc_error status message)
unfolding new_grpc_error
new_grpc_error-some rules status [] v = refl
new_grpc_error-some rules status (b ∷ bs) v = rw v refl

-- A client gets no message of a gRPC error, but trailers with its status and with its message,
-- polled twice or more often. The status fits into 32 bits, and the message may stand in a
-- header and is not empty.
pub new_grpc_error-received :
    (rules : HeaderRules) (n status b : ℕ) (bs : Bytes)
    → status < u32_mod
    → rules.is_value (b ∷ bs) ≡ true
    → (r : HyperResponse) × (t : HeaderMap) × (new_grpc_error rules status (b ∷ bs) ≡ some r)
      × (frames (suc (suc n)) r.body ≡ trailer t ∷ [])
      × SaysStatus status t
      × (get "grpc-message" t ≡ some (b ∷ bs))
unfolding grpc_error
new_grpc_error-received rules n status b bs l v = (
  grpc_error status (b ∷ bs),
  with_message (b ∷ bs) (grpc_trailers status),
  new_grpc_error-some rules status (b ∷ bs) v,
  frames-new_body n [] (some (with_message (b ∷ bs) (grpc_trailers status))),
  with_message-SaysStatus status (b ∷ bs) l,
  get-with_message status b bs,
)
