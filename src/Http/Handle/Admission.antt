-- ===== src/Http/Handle/Admission.antt =====
-- What reaches the workers, and when the polling for room ends.
use hyper_ruby.Common.{
  ℕ, ◌+◌, ◌*◌, ◌≤◌, ◌<◌, Bool, false, [], ◌∷◌, List, Option, none, some, ◌≡◌, ◌⊎◌, inl, inr, refl,
  ap, ◌∙◌, arith, Bool-cases, leb, le→leb, length, Bytes,
}
use hyper_ruby.Http.Text.{codes}
use hyper_ruby.Http.Request.{HyperRequest, is_grpc_request}
use hyper_ruby.Http.Response.{HyperResponse}
use hyper_ruby.Http.Handle.{
  WorkerAnswer, responds, hangs_up, silent, await_response, failed, awaiting, response, answered,
  create_bad_request_response, create_timeout_response, Collected, whole, broken, late, TrySend,
  sent, full, disconnected, Sent, queued, busy, gone, Round, again, poll_send, send, Handled,
  finish, mismatch, Environment, sent_or_waiting, with_body, collected_body, handle_request,
}

-- The body has the length that was declared for it, if one was.
abbrev pub IsDeclared : Option ℕ → ℕ → Type 0
IsDeclared declared len = (declared ≡ none) ⊎ (declared ≡ some len)

matches-IsDeclared :
    (declared : Option ℕ) (len : ℕ) → mismatch declared len ≡ false → IsDeclared declared len
matches-IsDeclared none len h = inl refl
matches-IsDeclared (some d) len h = inr (ground arith)

finish-enqueued :
    (r q : HyperRequest) (is_grpc : Bool) (worker : WorkerAnswer) (s : Sent)
    → (finish r is_grpc worker s).enqueued ≡ some q
    → (q ≡ r) × (s ≡ queued)
unfolding finish
finish-enqueued r q is_grpc worker queued h = (cc, refl)
finish-enqueued r q is_grpc worker busy h = cc
finish-enqueued r q is_grpc worker gone h = cc

sent_or_waiting-enqueued :
    (r q : HyperRequest) (is_grpc : Bool) (worker : WorkerAnswer) (s : Option Sent) (h : Handled)
    → sent_or_waiting r is_grpc worker s ≡ some h
    → h.enqueued ≡ some q
    → q ≡ r
unfolding sent_or_waiting
sent_or_waiting-enqueued r q is_grpc worker none h e n = cc
sent_or_waiting-enqueued r q is_grpc worker (some s) h e n =
    let e' : finish r is_grpc worker s ≡ h = cc in
    (finish-enqueued r q is_grpc worker s (rw e' n)).0

answered-enqueued :
    (r : HyperResponse) (h : Handled) (q : HyperRequest)
    → some (answered r) ≡ some h
    → h.enqueued ≡ some q
    → ⊥
answered-enqueued r h q e n =
    let e' : answered r ≡ h = cc in
    let n' : ◌≡◌ {A = Option HyperRequest} none (some q) = ap (λ x. x.enqueued) e' ∙ n in cc

module _ (to_str : Bytes → Option Bytes) (send_timeout : ℕ) (parts : HyperRequest)
    (env : Environment) where
  with_body-enqueued :
      (b : Bytes) (h : Handled) (q : HyperRequest)
      → with_body to_str send_timeout parts env b ≡ some h
      → h.enqueued ≡ some q
      → (q ≡ record parts { body = b }) × IsDeclared env.declared_len (length b)
  unfolding with_body
  with_body-enqueued b h q e n = elim (Bool-cases (mismatch env.declared_len (length b))) [
    | inl bad ↦ absurd (
        answered-enqueued
          (create_bad_request_response (codes "Body length does not match Content-Length")) h q
          (rw bad at e) n)
    | inr good ↦ (
      sent_or_waiting-enqueued (record parts { body = b }) q
          (is_grpc_request to_str (record parts { body = b })) env.worker
          (send send_timeout env.first_attempt env.rounds) h (rw good at e) n,
      matches-IsDeclared env.declared_len (length b) good,
    )
  ]

  collected_body-enqueued :
      (c : Collected) (h : Handled) (q : HyperRequest)
      → collected_body to_str send_timeout parts env c ≡ some h
      → h.enqueued ≡ some q
      → (b : Bytes) × (c ≡ whole b)
        × (q ≡ record parts { body = b })
        × IsDeclared env.declared_len (length b)
  unfolding collected_body
  collected_body-enqueued (whole b) h q e n =
      let (i, d) = with_body-enqueued b h q e n in (b, refl, i, d)
  collected_body-enqueued broken h q e n =
      let e' : record { reply = failed; enqueued = none } ≡ h = cc in
      let n' : ◌≡◌ {A = Option HyperRequest} none (some q) = ap (λ x. x.enqueued) e' ∙ n in cc
  collected_body-enqueued late h q e n = absurd (answered-enqueued create_timeout_response h q e n)

  -- A request that reaches the workers has the whole body that the connection carried, of the
  -- length declared for it if one was declared, and is otherwise as it came.
  pub handle_request-enqueued :
      (h : Handled) (q : HyperRequest)
      → handle_request to_str send_timeout parts env ≡ some h
      → h.enqueued ≡ some q
      → (b : Bytes) × (env.collected ≡ whole b)
        × (q ≡ record parts { body = b })
        × IsDeclared env.declared_len (length b)
  unfolding handle_request
  handle_request-enqueued h q e n = collected_body-enqueued env.collected h q e n

-- Rounds that start at least ten milliseconds apart, the first no earlier than `from`.
pub data Paced : ℕ → List Round → Type 0 where
  paced_nil : {from : ℕ} → Paced from []
  paced_round :
      {from : ℕ} {r : Round} {rounds : List Round}
      → from ≤ r.elapsed
      → Paced (from + 10) rounds
      → Paced from (r ∷ rounds)

again-some : (t : TrySend) (more : Sent) → (s : Sent) × (again t (some more) ≡ some s)
unfolding again
again-some sent more = (_, refl)
again-some full more = (_, refl)
again-some disconnected more = (_, refl)

poll_send-ends :
    (send_timeout from : ℕ) (rounds : List Round)
    → Paced from rounds
    → send_timeout + 10 ≤ from + 10 * length rounds
    → from < send_timeout + 10
    → (s : Sent) × (poll_send send_timeout rounds ≡ some s)
unfolding poll_send
poll_send-ends send_timeout from [] p h l = absurd (omega arith)
poll_send-ends send_timeout from (r ∷ rounds) (paced_round at p) h l =
    elim (Bool-cases (leb send_timeout r.elapsed)) [
      | inl over ↦ (busy, rw over refl)
      | inr under ↦
          let earlier : r.elapsed < send_timeout = ground (arith, le→leb send_timeout r.elapsed) in
          let (s, e) =
            poll_send-ends send_timeout (from + 10) rounds p (omega arith) (omega arith) in
          let (s', e') = again-some r.attempt s in (s', rw under (rw e e'))
    ]

send-ends :
    (send_timeout : ℕ) (first : TrySend) (rounds : List Round)
    → Paced 0 rounds
    → send_timeout + 10 ≤ 10 * length rounds
    → (s : Sent) × (send send_timeout first rounds ≡ some s)
unfolding send
send-ends send_timeout sent rounds p l = (queued, refl)
send-ends send_timeout full rounds p l =
    poll_send-ends send_timeout 0 rounds p (omega arith) (omega arith)
send-ends send_timeout disconnected rounds p l = (gone, refl)

-- The connection has a response or fails, or else it waits for a worker that has the request and
-- says nothing.
abbrev pub IsDecided : WorkerAnswer → Handled → Type 0
IsDecided worker h = elim h.reply [
  | failed ↦ h.enqueued ≡ none
  | response a ↦ Unit {0}
  | awaiting ↦ (worker ≡ silent) × ((q : HyperRequest) × (h.enqueued ≡ some q))
]

finish-IsDecided :
    (r : HyperRequest) (is_grpc : Bool) (worker : WorkerAnswer) (s : Sent)
    → IsDecided worker (finish r is_grpc worker s)
unfolding finish await_response
finish-IsDecided r is_grpc (responds a) queued = tt
finish-IsDecided r is_grpc hangs_up queued = tt
finish-IsDecided r is_grpc silent queued = (refl, (r, refl))
finish-IsDecided r is_grpc worker busy = tt
finish-IsDecided r is_grpc worker gone = tt

with_body-ends :
    (to_str : Bytes → Option Bytes) (send_timeout : ℕ) (parts : HyperRequest) (env : Environment)
    (b : Bytes)
    → Paced 0 env.rounds
    → send_timeout + 10 ≤ 10 * length env.rounds
    → (h : Handled) × (with_body to_str send_timeout parts env b ≡ some h) × IsDecided env.worker h
unfolding with_body sent_or_waiting
with_body-ends to_str send_timeout parts env b p l =
    elim (Bool-cases (mismatch env.declared_len (length b))) [
      | inl bad ↦ (
        answered (create_bad_request_response (codes "Body length does not match Content-Length")),
        rw bad refl,
        tt,
      )
      | inr good ↦
          let (s, e) = send-ends send_timeout env.first_attempt env.rounds p l in
          let r = record parts { body = b } in
          (
            finish r (is_grpc_request to_str r) env.worker s,
            rw good (rw e refl),
            finish-IsDecided r (is_grpc_request to_str r) env.worker s,
          )
    ]

collected_body-ends :
    (to_str : Bytes → Option Bytes) (send_timeout : ℕ) (parts : HyperRequest) (env : Environment)
    (c : Collected)
    → Paced 0 env.rounds
    → send_timeout + 10 ≤ 10 * length env.rounds
    → (h : Handled) × (collected_body to_str send_timeout parts env c ≡ some h)
      × IsDecided env.worker h
unfolding collected_body
collected_body-ends to_str send_timeout parts env (whole b) p l =
    with_body-ends to_str send_timeout parts env b p l
collected_body-ends to_str send_timeout parts env broken p l = (_, refl, refl)
collected_body-ends to_str send_timeout parts env late p l = (_, refl, tt)

-- If the rounds of the polling start at least ten milliseconds apart, the polling for room is over
-- within `send_timeout` / 10 rounds and one, however full the channel stays: then the connection has
-- its response, or fails without a request for the workers, or its request is queued and its worker
-- is silent.
pub handle_request-ends :
    (to_str : Bytes → Option Bytes) (send_timeout : ℕ) (parts : HyperRequest) (env : Environment)
    → Paced 0 env.rounds
    → send_timeout + 10 ≤ 10 * length env.rounds
    → (h : Handled) × (handle_request to_str send_timeout parts env ≡ some h)
      × IsDecided env.worker h
unfolding handle_request
handle_request-ends to_str send_timeout parts env p l =
    collected_body-ends to_str send_timeout parts env env.collected p l
