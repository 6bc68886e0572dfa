-- ===== src/Worker/Served.antt =====
-- From the body of a request to the response of a worker's block: `handle_request` and the worker
-- that takes the request, together.
use hyper_ruby.Common.{
  ℕ, ◌<◌, Bool, true, false, [], ◌∷◌, List, Option, none, some, ◌≡◌, inl, inr, refl, ap, sym, arith,
  Bool-cases, lt→leb, length, Bytes,
}
use hyper_ruby.Http.Request.{HyperRequest, is_grpc_request}
use hyper_ruby.Http.Request.Grpc.{new_grpc_request-total}
use hyper_ruby.Http.Handle.{
  whole, TrySend, sent, full, disconnected, queued, Round, again, poll_send, send, response, finish,
  WorkerAnswer, responds, hangs_up, await_response, mismatch, Environment, sent_or_waiting,
  with_body, collected_body, handle_request,
}
use hyper_ruby.Http.Handle.Admission.{IsDeclared}
use hyper_ruby.Work.{http}
use hyper_ruby.Worker.{
  Argument, request, grpc_request, BlockResult, response_of, Answered, responded, judged,
  call_with_grpc, process,
}
use hyper_ruby.Worker.Answers.{Shows}

module _ (send_timeout : ℕ) where
  -- The channel is full for some rounds, and then has room, before the time is up.
  pub data Polls : List Round → Type 0 where
    has_room :
        {r : Round} {rounds : List Round}
        → r.elapsed < send_timeout
        → r.attempt ≡ sent
        → Polls (r ∷ rounds)
    still_full :
        {r : Round} {rounds : List Round}
        → r.elapsed < send_timeout
        → r.attempt ≡ full
        → Polls rounds
        → Polls (r ∷ rounds)

  pub data HasRoom : TrySend → List Round → Type 0 where
    at_once : {rounds : List Round} → HasRoom sent rounds
    later : {rounds : List Round} → Polls rounds → HasRoom full rounds

  poll_send-Polls :
      (rounds : List Round) → Polls rounds → poll_send send_timeout rounds ≡ some queued
  unfolding poll_send again
  poll_send-Polls [] p = elim p [ ]
  poll_send-Polls (r ∷ rounds) (has_room t a) = rw (lt→leb send_timeout r.elapsed t, a) refl
  poll_send-Polls (r ∷ rounds) (still_full t a p) =
      rw (lt→leb send_timeout r.elapsed t, a) (poll_send-Polls rounds p)

  send-HasRoom :
      (first : TrySend) (rounds : List Round)
      → HasRoom first rounds
      → send send_timeout first rounds ≡ some queued
  unfolding send
  send-HasRoom sent rounds at_once = refl
  send-HasRoom disconnected rounds h = elim h [ ]
  send-HasRoom full rounds (later p) = poll_send-Polls rounds p

IsDeclared-mismatch :
    (declared : Option ℕ) (len : ℕ) → IsDeclared declared len → mismatch declared len ≡ false
IsDeclared-mismatch none len d = refl
IsDeclared-mismatch (some x) len (inl e) = cc
IsDeclared-mismatch (some x) len (inr e) = ground arith

-- What the sender of a request gets back.
abbrev pub reply_of : Answered → WorkerAnswer
reply_of (responded r) = responds r
reply_of (judged v) = hangs_up

-- Whether the block is called with a gRPC request.
abbrev pub is_grpc : Argument → Bool
is_grpc (grpc_request g) = true
is_grpc _ = false

module _ (to_str : Bytes → Option Bytes) (block : Argument → BlockResult) where
  -- The block is called with the request, as a gRPC request if it is one, and its result is the
  -- reply.
  abbrev pub IsCalled : HyperRequest → Argument → Type 0
  IsCalled r x = Shows x (http r) × (is_grpc x ≡ is_grpc_request to_str r)

  process-reply :
      (r : HyperRequest)
      → (x : Argument) × IsCalled r x
        × (reply_of (process to_str block (http r)).1 ≡ responds (response_of (block x)))
  unfolding process call_with_grpc
  process-reply r = elim (Bool-cases (is_grpc_request to_str r)) [
    | inl grpc ↦
        let (g, made, same) = new_grpc_request-total to_str r grpc in
        (grpc_request g, (ap http (sym same), sym grpc), rw grpc (rw made refl))
    | inr plain ↦ (request r, (refl, sym plain), rw plain refl)
  ]

-- A request whose body has the length that was declared for it, if one was, and for which the channel
-- of the workers has room before the time is up: if a worker takes it, the block is called with the
-- request and its whole body, as a gRPC request where it is one, and the connection gets the response
-- that the block gave, or an internal error where it gave none.
pub handle_request-served :
    (to_str : Bytes → Option Bytes) (block : Argument → BlockResult) (send_timeout : ℕ)
    (parts : HyperRequest) (env : Environment) (b : Bytes)
    → env.collected ≡ whole b
    → IsDeclared env.declared_len (length b)
    → HasRoom send_timeout env.first_attempt env.rounds
    → let r = record parts { body = b } in
      env.worker ≡ reply_of (process to_str block (http r)).1
      → (x : Argument) × IsCalled to_str block r x
        × (handle_request to_str send_timeout parts env
            ≡ some (record { reply = response (response_of (block x)); enqueued = some r }))
unfolding handle_request collected_body with_body sent_or_waiting finish await_response
handle_request-served to_str block send_timeout parts env b c d room w =
    let (x, called, e) = process-reply to_str block (record parts { body = b }) in
    (
      x,
      called,
      rw
          (
            c,
            IsDeclared-mismatch env.declared_len (length b) d,
            send-HasRoom send_timeout env.first_attempt env.rounds room,
            w,
            e,
          )
          refl,
    )
