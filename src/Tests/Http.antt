-- ===== src/Tests/Http.antt =====
-- Requests, responses and gRPC frames.
use Prim.Native.String.{String}
use text.Mathlib.Text.{◌==◌ as str_eq}
use hyper_ruby.Common.{
  not, ltb, leb, ◌&&◌, if◌then◌else◌, ℕ, [], ◌∷◌, ◌++◌, true, false, List, Option, none, some, ◌≡◌,
  refl, arith, length, equal, Bytes,
}
use hyper_ruby.Grpc.{decode_grpc_frame}
use hyper_ruby.Http.Text.{
  HeaderMap, HeaderRules, codes, starts_with, contains, split, non_empty, get,
}
use hyper_ruby.Http.Request.{
  HyperRequest, GrpcRequest, grpc_header, grpc_headers, header_text, header, headers, passes,
  is_grpc_request,
}
use hyper_ruby.Http.Response.{
  HyperResponse, payload, trailer, new_grpc_response, grpc_error, new_grpc_error, new_response,
  response_status, response_body, grpc_status,
}
use hyper_ruby.Http.Request.Headers.{IsDistinct, get_parsed, headers-header}
use hyper_ruby.Http.Response.Given.{AllGiven, last_header, expected, new_response-given}
use hyper_ruby.Http.Response.Frames.{frames}
use hyper_ruby.Http.Response.Received.{
  SaysStatus, new_grpc_response-received, new_grpc_error-received,
}
use hyper_ruby.Http.Response.Status.{grpc_status-new}
use hyper_ruby.Http.Handle.{
  silent, hangs_up, TrySend, create_grpc_error_response, unavailable, answered, whole, full, Round,
  Environment, Handled, response, handle_request, collected_body, with_body, sent_or_waiting,
  finish, await_response, send, poll_send, again,
}
use hyper_ruby.Http.Handle.Admission.{
  IsDecided, IsDeclared, handle_request-enqueued, paced_nil, paced_round, handle_request-ends,
}
use hyper_ruby.Http.Handle.Refusals.{Refusal, handle_request-Refusal}

abbrev compressed_frame : Bytes
compressed_frame = 1 ∷ 0 ∷ 0 ∷ 0 ∷ 2 ∷ codes "abc"

decode_compressed : decode_grpc_frame compressed_frame ≡ some (true, codes "ab")
unfolding decode_grpc_frame
decode_compressed = refl

-- `to_str` of a header value that is ASCII.
abbrev to_text : Bytes → Option Bytes
to_text = some

-- Some of the rules: `TE` is written in lower case, text has no line feed.
abbrev rules : HeaderRules
rules = record {
  parse_name = λ key. if str_eq key "TE" then some "te" else some key;
  is_value = λ value. not (contains value (b'\n' ∷ []));
  is_status = λ status. leb 100 status && ltb status 1000;
}

grpc_status-new_example :
    (grpc_status to_text (new_grpc_response 5 (codes "reply")) ≡ 0)
    × (grpc_status to_text (grpc_error 5 (codes "no")) ≡ 0)
unfolding new_grpc_error contains starts_with
grpc_status-new_example =
    grpc_status-new to_text rules 5 (codes "reply") (codes "no") (grpc_error 5 (codes "no")) refl

new_grpc_response-received_example :
    (p : Bytes) × (t : HeaderMap) × (frames 3 (new_grpc_response 5 (codes "reply")).body
      ≡ payload p ∷ trailer t ∷ [])
    × (decode_grpc_frame p ≡ some (false, codes "reply"))
    × SaysStatus 5 t
new_grpc_response-received_example =
    new_grpc_response-received 1 5 (codes "reply") (omega arith) (omega arith)

new_grpc_error-received_example :
    (r : HyperResponse) × (t : HeaderMap) × (new_grpc_error rules 5 (codes "no") ≡ some r)
    × (frames 2 r.body ≡ trailer t ∷ [])
    × SaysStatus 5 t
    × (get "grpc-message" t ≡ some (codes "no"))
unfolding contains starts_with
new_grpc_error-received_example =
    new_grpc_error-received rules 0 5 b'n' (codes "o") (omega arith) refl

-- A message with a line feed cannot stand in a trailer.
error_line_feed : new_grpc_error rules 5 (codes "no" ++ (b'\n' ∷ [])) ≡ none
unfolding new_grpc_error contains starts_with
error_line_feed = refl

abbrev say_hello : HyperRequest
say_hello = record {
  http_method = codes "POST";
  path = codes "/echo.Echo/Echo";
  query = none;
  uri_host = none;
  headers = ("content-type", codes "application/grpc+proto") ∷ ("te", codes "trailers") ∷ [];
  body = [];
}

say_hello_is_grpc : is_grpc_request to_text say_hello ≡ true
unfolding is_grpc_request passes header_text get starts_with contains split non_empty equal
say_hello_is_grpc = refl

-- `a=1&b=2&a=3`, whatever the text is.
abbrev some_form : Bytes → List (Bytes × Bytes)
some_form q = (codes "a", codes "1") ∷ (codes "b", codes "2") ∷ (codes "a", codes "3") ∷ []

abbrev search_request : HyperRequest
search_request = record say_hello { http_method = codes "GET"; query = some (codes "a=1&b=2&a=3") }

abbrev full_round : ℕ → Round
full_round n = record { elapsed = n; attempt = full }

-- A full channel, under a timeout of 15 milliseconds.
abbrev crowded : Environment
crowded = record {
  declared_len = some 5;
  collected = whole (codes "hello");
  first_attempt = full;
  rounds = full_round 0 ∷ full_round 11 ∷ full_round 21 ∷ [];
  worker = silent;
}

handle_request-ends_example :
    (h : Handled) × (handle_request to_text 15 say_hello crowded ≡ some h) × IsDecided silent h
handle_request-ends_example =
    handle_request-ends to_text 15 say_hello crowded
      (paced_round (omega arith) (paced_round (omega arith) (paced_round (omega arith) paced_nil)))
      (omega arith)

abbrev roomy : Environment
roomy = record crowded {
  rounds = full_round 0 ∷ record { elapsed = 10; attempt = TrySend.sent } ∷ [];
  worker = hangs_up;
}

abbrev said : HyperRequest
said = record say_hello { body = codes "hello" }

handle_roomy :
    handle_request to_text 15 say_hello roomy
    ≡ some (record {
      reply = response (create_grpc_error_response 500 13 (codes "Failed to get response"));
      enqueued = some said;
    })
unfolding handle_request collected_body with_body sent_or_waiting send poll_send again finish
    await_response unavailable is_grpc_request passes header_text get starts_with contains split
    non_empty equal
handle_roomy = refl

handle_request-enqueued_example :
    (b : Bytes) × (whole (codes "hello") ≡ whole b)
    × (said ≡ record say_hello { body = b })
    × IsDeclared (some 5) (length b)
handle_request-enqueued_example =
    handle_request-enqueued to_text 15 say_hello roomy
      (record {
        reply = response (create_grpc_error_response 500 13 (codes "Failed to get response"));
        enqueued = some said;
      })
      said handle_roomy refl

handle_crowded :
    handle_request to_text 15 say_hello crowded
    ≡ some (answered (create_grpc_error_response 429 8 (codes "Server too busy, try again later")))
unfolding handle_request collected_body with_body sent_or_waiting send poll_send again finish
    unavailable is_grpc_request passes header_text get starts_with contains split non_empty equal
handle_crowded = refl

handle_request-Refusal_example :
    (a : HyperResponse) × (response
        (create_grpc_error_response 429 8 (codes "Server too busy, try again later"))
      ≡ response a)
    × Refusal (is_grpc_request to_text said) a
handle_request-Refusal_example =
    handle_request-Refusal to_text 15 say_hello crowded (codes "hello")
      (answered (create_grpc_error_response 429 8 (codes "Server too busy, try again later"))) refl
      refl handle_crowded refl

say_hello-IsDistinct : IsDistinct say_hello.headers
unfolding get
say_hello-IsDistinct = (refl, (refl, tt))

abbrev echo : GrpcRequest
echo = record { request = say_hello; service = codes "echo.Echo"; rpc_method = codes "Echo" }

headers-header_example :
    (get_parsed rules "TE" (headers to_text say_hello) ≡ header to_text rules "TE" say_hello)
    × (get_parsed rules "TE" (grpc_headers to_text echo) ≡ grpc_header to_text rules "TE" echo)
headers-header_example = headers-header to_text rules echo "TE" say_hello-IsDistinct

header_te : header to_text rules "TE" say_hello ≡ some (codes "trailers")
unfolding header header_text get
header_te = refl

abbrev given : List (String × Bytes)
given = ("x-a", codes "1") ∷ ("x-a", codes "2") ∷ ("TE", codes "trailers") ∷ []

given-AllGiven : AllGiven rules given
unfolding contains starts_with
given-AllGiven = (("x-a", refl, refl), (("x-a", refl, refl), (("te", refl, refl), tt)))

new_response-given_example :
    (r : HyperResponse) × (new_response rules 201 given (codes "hello") ≡ some r)
    × (response_status r ≡ 201)
    × (response_body r ≡ codes "hello")
    × (get "x-a" r.headers ≡ expected rules "x-a" given (codes "hello"))
new_response-given_example =
    new_response-given rules 201 given (codes "hello") "x-a" refl given-AllGiven

given_last : expected rules "x-a" given (codes "hello") ≡ some (codes "2")
unfolding expected last_header
given_last = refl

-- A status below 100 is a panic.
response_status_low : new_response rules 99 given (codes "hello") ≡ none
unfolding new_response
response_status_low = refl
