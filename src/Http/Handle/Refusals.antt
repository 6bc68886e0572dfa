-- ===== src/Http/Handle/Refusals.antt =====
-- What the answers of the handler say when a request does not reach the workers.
use hyper_ruby.Common.{
  ℕ, Bool, true, false, Option, none, some, ◌≡◌, ◌⊎◌, inl, inr, refl, sym, ap, ◌∙◌, length, Bytes,
}
use hyper_ruby.Http.Text.{codes, get, insert, to_string}
use hyper_ruby.Http.Request.{HyperRequest, is_grpc_request}
use hyper_ruby.Http.Response.{HyperResponse, new_body}
use hyper_ruby.Http.Handle.{
  unavailable, create_too_many_requests_response, create_error_response, plain_response, whole,
  Sent, queued, busy, gone, send, Handled, finish, mismatch, Environment, response, WorkerAnswer,
  create_grpc_error_response, sent_or_waiting, with_body, collected_body, handle_request,
}

-- The `grpc-status` in the trailers of a response.
abbrev pub grpc_status_of : HyperResponse → Option Bytes
grpc_status_of a = elim a.body.trailers [ some t ↦ get "grpc-status" t | none ↦ none ]

-- The answers to a request that has a body of the right length and gets no worker.
pub Refusal : Bool → HyperResponse → Type 0
Refusal true a =
    ((a.status ≡ 200) × (grpc_status_of a ≡ some (codes "8")))
    ⊎ ((a.status ≡ 500) × (grpc_status_of a ≡ some (codes "13")))
Refusal false a =
    ((a.status ≡ 429) × (a.body.trailers ≡ none)) ⊎ ((a.status ≡ 500) × (a.body.trailers ≡ none))

finish-Refusal :
    (r : HyperRequest) (is_grpc : Bool) (worker : WorkerAnswer) (s : Sent)
    → (finish r is_grpc worker s).enqueued ≡ none
    → (a : HyperResponse) × ((finish r is_grpc worker s).reply ≡ response a) × Refusal is_grpc a
unfolding finish Refusal unavailable create_grpc_error_response create_too_many_requests_response
    create_error_response new_body plain_response get insert to_string
finish-Refusal r is_grpc worker queued n = cc
finish-Refusal r true worker busy n = (_, refl, inl (refl, refl))
finish-Refusal r false worker busy n = (_, refl, inl (refl, refl))
finish-Refusal r true worker gone n = (_, refl, inr (refl, refl))
finish-Refusal r false worker gone n = (_, refl, inr (refl, refl))

sent_or_waiting-Refusal :
    (r : HyperRequest) (is_grpc : Bool) (worker : WorkerAnswer) (s : Option Sent) (h : Handled)
    → sent_or_waiting r is_grpc worker s ≡ some h
    → h.enqueued ≡ none
    → (a : HyperResponse) × (h.reply ≡ response a) × Refusal is_grpc a
unfolding sent_or_waiting
sent_or_waiting-Refusal r is_grpc worker none h e n = cc
sent_or_waiting-Refusal r is_grpc worker (some s) h e n =
    let e' : finish r is_grpc worker s ≡ h = cc in
    let (a, reply, refusal) = finish-Refusal r is_grpc worker s (ap (λ x. x.enqueued) e' ∙ n) in
    (a, sym (ap (λ x. x.reply) e') ∙ reply, refusal)

-- A request whose body is as declared and that does not reach the workers is refused: a gRPC
-- request with grpc-status 8 under HTTP status 200, or with 13 under 500; another with 429 or 500.
pub handle_request-Refusal :
    (to_str : Bytes → Option Bytes) (send_timeout : ℕ) (parts : HyperRequest) (env : Environment)
    (b : Bytes) (h : Handled)
    → env.collected ≡ whole b
    → mismatch env.declared_len (length b) ≡ false
    → handle_request to_str send_timeout parts env ≡ some h
    → h.enqueued ≡ none
    → (a : HyperResponse) × (h.reply ≡ response a)
      × Refusal (is_grpc_request to_str (record parts { body = b })) a
unfolding handle_request collected_body with_body
handle_request-Refusal to_str send_timeout parts env b h c m e n =
    sent_or_waiting-Refusal (record parts { body = b })
      (is_grpc_request to_str (record parts { body = b })) env.worker
      (send send_timeout env.first_attempt env.rounds) h (rw m at (rw c at e)) n
