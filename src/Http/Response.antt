-- ===== src/Http/Response.antt =====
-- ext/hyper_ruby/src/response.rs: the body type with its trailers, and the two response types.
pub mod Frames
pub mod Status
pub mod Given
pub mod Received
use Prim.Native.String.{String}
use hyper_ruby.Common.{
  ℕ, ◌^◌, Bool, true, false, not, ◌&&◌, ◌||◌, [], ◌∷◌, List, Option, none, some, leb, ltb,
  if◌then◌else◌, length, Bytes,
}
use hyper_ruby.Rust.Parse.{parse_usize}
use hyper_ruby.Grpc.{encode_grpc_frame, decode_grpc_frame}
use hyper_ruby.Http.Text.{codes, to_string, HeaderMap, HeaderRules, get, insert}

pub record BodyWithTrailers : Type 0 where
  pub content : Bytes
  pub data_sent : Bool
  pub trailers_sent : Bool
  pub trailers : Option HeaderMap

unfoldable pub new_body : Bytes → Option HeaderMap → BodyWithTrailers
new_body content trailers = record {
  content = content;
  data_sent = false;
  trailers_sent = false;
  trailers = trailers;
}

pub data Frame : Type 0 where
  payload : Bytes → Frame
  trailer : HeaderMap → Frame

abbrev is_nil : Bytes → Bool
is_nil [] = true
is_nil (_ ∷ _) = false

poll_trailers : BodyWithTrailers → Option HeaderMap → Option Frame × BodyWithTrailers
poll_trailers b (some t) = (some (trailer t), record b { trailers_sent = true })
poll_trailers b none = (none, record b { trailers_sent = true })

-- `poll_frame`, which is always ready.
pub poll_frame : BodyWithTrailers → Option Frame × BodyWithTrailers
unfolding poll_trailers
poll_frame b =
    if not b.data_sent && not (is_nil b.content)
    then (some (payload b.content), record b { data_sent = true })
    else if not b.trailers_sent
    then poll_trailers b b.trailers
    else (none, b)

pub record HyperResponse : Type 0 where
  pub status : ℕ
  pub headers : HeaderMap
  pub body : BodyWithTrailers

-- `Response::new`, with the headers of the hash in its order; a panic is `none`.
module _ (rules : HeaderRules) where
  unfoldable insert_one : String → Bytes → HeaderMap → Option HeaderMap
  insert_one key value m = elim (rules.parse_name key) [
    | some name ↦ if rules.is_value value then some (insert name value m) else none
    | none ↦ none
  ]

  unfoldable insert_all : List (String × Bytes) → HeaderMap → Option HeaderMap
  unfolding insert_one
  insert_all [] m = some m
  insert_all ((key, value) ∷ rest) m = elim (insert_one key value m) [
    | some m ↦ insert_all rest m
    | none ↦ none
  ]

  unfoldable with_content : ℕ → Bytes → HeaderMap → HyperResponse
  unfolding new_body
  with_content status body m = record {
    status = status;
    headers =
        if ltb 0 (length body)
        then insert "content-length" (to_string (length body)) m
        else insert "content-length" (codes "0") m;
    body = new_body body none;
  }

  unfoldable pub new_response : ℕ → List (String × Bytes) → Bytes → Option HyperResponse
  unfolding insert_all with_content
  new_response status headers body =
      if rules.is_status status
      then elim (insert_all headers []) [ some m ↦ some (with_content status body m) | none ↦ none ]
      else none

-- `Response::status` and `Response::body`, and `headers` of both classes: `to_str` is
-- `HeaderValue::to_str`, and a value that is no text is a panic, `none`.
unfoldable pub response_status : HyperResponse → ℕ
response_status r = r.status

unfoldable pub response_body : HyperResponse → Bytes
response_body r = r.body.content

unfoldable pub all_text : (Bytes → Option Bytes) → HeaderMap → HeaderMap → Option HeaderMap
all_text to_str [] hash = some hash
all_text to_str ((name, value) ∷ rest) hash = elim (to_str value) [
  | some text ↦ all_text to_str rest (insert name text hash)
  | none ↦ none
]

unfoldable pub response_headers : (Bytes → Option Bytes) → HyperResponse → Option HeaderMap
unfolding all_text
response_headers to_str r = all_text to_str r.headers []

-- The trailers of every gRPC response.
abbrev pub grpc_trailers : ℕ → HeaderMap
grpc_trailers status =
    insert "grpc-accept-encoding" (codes "identity,gzip,deflate,zstd")
      (insert "grpc-status" (to_string status) [])

abbrev pub grpc_headers : HeaderMap
grpc_headers = ("content-type", codes "application/grpc+proto") ∷ []

-- `GrpcResponse::new`
unfoldable pub new_grpc_response : ℕ → Bytes → HyperResponse
new_grpc_response status body = record {
  status = 200;
  headers = grpc_headers;
  body = new_body (encode_grpc_frame body) (some (grpc_trailers status));
}

-- `grpc-message`, where there is a message.
abbrev pub with_message : Bytes → HeaderMap → HeaderMap
with_message message trailers =
    if is_nil message then trailers else insert "grpc-message" message trailers

-- `GrpcResponse::error` with a message that may stand in a header.
unfoldable pub grpc_error : ℕ → Bytes → HyperResponse
grpc_error status message = record {
  status = 200;
  headers = grpc_headers;
  body = new_body [] (some (with_message message (grpc_trailers status)));
}

-- `GrpcResponse::error`, where another message is a panic, `none`.
unfoldable pub new_grpc_error : HeaderRules → ℕ → Bytes → Option HyperResponse
unfolding grpc_error
new_grpc_error rules status message =
    if is_nil message || rules.is_value message then some (grpc_error status message) else none

-- `GrpcResponse::body`
abbrev message_of : Option (Bool × Bytes) → Bytes
message_of (some (_, message)) = message
message_of none = []

pub grpc_body : HyperResponse → Bytes
grpc_body r = message_of (decode_grpc_frame r.body.content)

-- `parse::<u16>()`
abbrev below_u16 : Option ℕ → ℕ
below_u16 (some n) = if ltb n (2 ^ 16) then n else 0
below_u16 none = 0

module _ (to_str : Bytes → Option Bytes) where
  parse_status : Option Bytes → ℕ
  parse_status (some value) = elim (to_str value) [
    | some text ↦ below_u16 (parse_usize text)
    | none ↦ 0
  ]
  parse_status none = 0

  -- `GrpcResponse::status`
  pub grpc_status : HyperResponse → ℕ
  unfolding parse_status
  grpc_status r = parse_status (get "grpc-status" r.headers)
