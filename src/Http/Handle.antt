-- ===== src/Http/Handle.antt =====
-- ext/hyper_ruby/src/lib.rs, `handle_request`: from the body of a request to its response. The
-- body, the clock, the worker channel and the worker's answer are the environment's.
pub mod Admission
pub mod Refusals
use hyper_ruby.Common.{
  ℕ, Bool, true, false, not, ◌&&◌, ◌||◌, [], ◌∷◌, List, Option, none, some, leb, ltb, ◌==◌,
  if◌then◌else◌, length, Bytes,
}
use hyper_ruby.Http.Text.{codes, HeaderMap, insert}
use hyper_ruby.Http.Request.{HyperRequest, is_grpc_request}
use hyper_ruby.Http.Response.{
  BodyWithTrailers, new_body, HyperResponse, grpc_headers, grpc_trailers, with_message,
}

abbrev pub text_plain : HeaderMap
text_plain = ("content-type", codes "text/plain") ∷ []

-- `create_timeout_response`, `create_error_response`, `create_too_many_requests_response` and
-- `create_bad_request_response`.
unfoldable pub plain_response : ℕ → Bytes → HyperResponse
unfolding new_body
plain_response status message = record {
  status = status;
  headers = text_plain;
  body = new_body message none;
}

unfoldable pub create_timeout_response : HyperResponse
unfolding plain_response
create_timeout_response = plain_response 408 (codes "Request timed out while receiving body")

unfoldable pub create_error_response : Bytes → HyperResponse
unfolding plain_response
create_error_response = plain_response 500

unfoldable pub create_too_many_requests_response : Bytes → HyperResponse
unfolding plain_response
create_too_many_requests_response = plain_response 429

unfoldable pub create_bad_request_response : Bytes → HyperResponse
unfolding plain_response
create_bad_request_response = plain_response 400

-- `create_grpc_error_response` of grpc.rs: the status of an application error is 200.
unfoldable pub create_grpc_error_response : ℕ → ℕ → Bytes → HyperResponse
unfolding new_body
create_grpc_error_response http_status grpc_status message = record {
  status =
      if http_status == 200 || (leb 400 http_status && ltb http_status 500)
      then 200
      else http_status;
  headers = grpc_headers;
  body = new_body [] (some (with_message message (grpc_trailers grpc_status)));
}

-- `body.collect()` under its timeout.
pub data Collected : Type 0 where
  whole : Bytes → Collected
  broken late : Collected

pub data TrySend : Type 0 where
  sent full disconnected : TrySend

-- How the sending ended.
pub data Sent : Type 0 where
  queued busy gone : Sent

-- One round of the polling: the time since the first attempt when the round starts, in
-- milliseconds, and what the attempt after the sleep gives.
pub record Round : Type 0 where
  pub elapsed : ℕ
  pub attempt : TrySend

unfoldable pub again : TrySend → Option Sent → Option Sent
again sent more = some queued
again full more = more
again disconnected more = some gone

-- `none` where the rounds end before the polling does.
unfoldable pub poll_send : ℕ → List Round → Option Sent
unfolding again
poll_send send_timeout [] = none
poll_send send_timeout (r ∷ rounds) =
    let more = poll_send send_timeout rounds in
    if leb send_timeout r.elapsed then some busy else again r.attempt more

unfoldable pub send : ℕ → TrySend → List Round → Option Sent
send send_timeout sent rounds = some queued
send send_timeout full rounds = poll_send send_timeout rounds
send send_timeout disconnected rounds = some gone

-- What becomes of a request that is queued: its worker responds, or drops the sender of the response,
-- or has done neither; the wait for it has no timeout.
pub data WorkerAnswer : Type 0 where
  responds : HyperResponse → WorkerAnswer
  hangs_up silent : WorkerAnswer

-- What the connection gets, which may still wait for the worker, and the request that the workers
-- get, if they get one.
pub data Reply : Type 0 where
  failed awaiting : Reply
  response : HyperResponse → Reply

pub record Handled : Type 0 where
  pub reply : Reply
  pub enqueued : Option HyperRequest

abbrev pub answered : HyperResponse → Handled
answered r = record { reply = response r; enqueued = none }

-- A gRPC request gets a gRPC error, any other a plain one.
unfoldable pub unavailable : Bool → ℕ → ℕ → HyperResponse → Bytes → HyperResponse
unavailable true http_status grpc_status plain message =
    create_grpc_error_response http_status grpc_status message
unavailable false http_status grpc_status plain message = plain

abbrev pub too_busy : Bytes
too_busy = codes "Server too busy, try again later"

abbrev pub shutting_down : Bytes
shutting_down = codes "Server shutting down"

abbrev pub no_response : Bytes
no_response = codes "Failed to get response"

unfoldable pub await_response : Bool → WorkerAnswer → Reply
await_response is_grpc (responds r) = response r
await_response is_grpc hangs_up =
    response (unavailable is_grpc 500 13 (create_error_response no_response) no_response)
await_response is_grpc silent = awaiting

unfoldable pub finish : HyperRequest → Bool → WorkerAnswer → Sent → Handled
unfolding await_response
finish r is_grpc worker queued = record { reply = await_response is_grpc worker; enqueued = some r }
finish r is_grpc worker busy =
    answered (unavailable is_grpc 429 8 (create_too_many_requests_response too_busy) too_busy)
finish r is_grpc worker gone =
    answered (unavailable is_grpc 500 13 (create_error_response shutting_down) shutting_down)

-- `declared != body_bytes.len()`, where a length was declared.
abbrev pub mismatch : Option ℕ → ℕ → Bool
mismatch none len = false
mismatch (some declared) len = not (declared == len)

-- What the environment does to one request.
pub record Environment : Type 0 where
  pub declared_len : Option ℕ
  pub collected : Collected
  pub first_attempt : TrySend
  pub rounds : List Round
  pub worker : WorkerAnswer

unfoldable pub sent_or_waiting : HyperRequest → Bool → WorkerAnswer → Option Sent → Option Handled
sent_or_waiting r is_grpc worker (some s) = some (finish r is_grpc worker s)
sent_or_waiting r is_grpc worker none = none

module _ (to_str : Bytes → Option Bytes) (send_timeout : ℕ) where
  -- From the collected body on.
  unfoldable pub with_body : HyperRequest → Environment → Bytes → Option Handled
  unfolding finish send sent_or_waiting
  with_body parts env b =
      let r = record parts { body = b } in
      if mismatch env.declared_len (length b)
      then some (
          answered
            (create_bad_request_response (codes "Body length does not match Content-Length")))
      else sent_or_waiting r (is_grpc_request to_str r) env.worker
          (send send_timeout env.first_attempt env.rounds)

  unfoldable pub collected_body : HyperRequest → Environment → Collected → Option Handled
  unfolding with_body
  collected_body parts env (whole b) = with_body parts env b
  collected_body parts env broken = some (record { reply = failed; enqueued = none })
  collected_body parts env late = some (answered create_timeout_response)

  -- `none` while the request still waits for room in the channel.
  unfoldable pub handle_request : HyperRequest → Environment → Option Handled
  unfolding collected_body
  handle_request parts env = collected_body parts env env.collected
