-- ===== src/Worker/Answers.antt =====
-- What an item's sender can rely on.
use hyper_ruby.Common.{
  true, false, [], ◌∷◌, List, Option, none, some, ◌≡◌, inl, inr, refl, ap, sym, Bool-cases, Bytes,
}
use hyper_ruby.Http.Request.{HyperRequest, is_grpc_request}
use hyper_ruby.Http.Request.Grpc.{new_grpc_request-total}
use hyper_ruby.Syslog.Delivery.{SyslogMessage, accepted, refused, failed}
use hyper_ruby.Work.{WorkItem, http, syslog}
use hyper_ruby.Worker.{
  Argument, request, grpc_request, message, BlockResult, raised, grpc_response, response, value,
  internal_error, response_of, verdict_of, Answered, responded, judged, Processed, call_with_grpc,
  process, run_worker,
}

-- The argument shows the item, with nothing lost.
abbrev pub Shows : Argument → WorkItem HyperRequest SyslogMessage → Type 0
Shows (request r) item = item ≡ http r
Shows (grpc_request g) item = item ≡ http g.request
Shows (message m) item = item ≡ syslog m

-- The answer is the block's: the response that it gave to a request, or an internal error where
-- it gave none; and acceptance of a message just where it gave a true value that is no response.
abbrev pub IsFrom : BlockResult → WorkItem HyperRequest SyslogMessage → Answered → Type 0
IsFrom (grpc_response r) (http _) a = a ≡ responded r
IsFrom (response r) (http _) a = a ≡ responded r
IsFrom _ (http _) a = a ≡ responded internal_error
IsFrom (value true) (syslog _) a = a ≡ judged accepted
IsFrom (value false) (syslog _) a = a ≡ judged refused
IsFrom _ (syslog _) a = a ≡ judged failed

-- The block is called, once, with the item, and its result is the answer.
abbrev pub IsAnswered :
    (Argument → BlockResult) → WorkItem HyperRequest SyslogMessage → Processed → Type 0
IsAnswered block item (some x, a) = Shows x item × IsFrom (block x) item a
IsAnswered block item (none, a) = ⊥

response_of-IsFrom :
    (b : BlockResult) (r : HyperRequest) → IsFrom b (http r) (responded (response_of b))
unfolding response_of
response_of-IsFrom raised r = refl
response_of-IsFrom (grpc_response a) r = refl
response_of-IsFrom (response a) r = refl
response_of-IsFrom (value truth) r = refl

verdict_of-IsFrom :
    (b : BlockResult) (m : SyslogMessage) → IsFrom b (syslog m) (judged (verdict_of b))
unfolding verdict_of
verdict_of-IsFrom raised m = refl
verdict_of-IsFrom (grpc_response a) m = refl
verdict_of-IsFrom (response a) m = refl
verdict_of-IsFrom (value true) m = refl
verdict_of-IsFrom (value false) m = refl

module _ (to_str : Bytes → Option Bytes) (block : Argument → BlockResult) where
  process-IsAnswered :
      (item : WorkItem HyperRequest SyslogMessage)
      → IsAnswered block item (process to_str block item)
  unfolding process call_with_grpc
  process-IsAnswered (syslog m) = (refl, verdict_of-IsFrom (block (message m)) m)
  process-IsAnswered (http r) = elim (Bool-cases (is_grpc_request to_str r)) [
    | inl grpc ↦
        let (g, made, same) = new_grpc_request-total to_str r grpc in
        rw grpc (rw made (ap http (sym same), response_of-IsFrom (block (grpc_request g)) r))
    | inr plain ↦ rw plain (refl, response_of-IsFrom (block (request r)) r)
  ]

  abbrev pub AllAnswered : List (WorkItem HyperRequest SyslogMessage) → List Processed → Type 0
  AllAnswered [] [] = Unit {0}
  AllAnswered (item ∷ items) (p ∷ ps) = IsAnswered block item p × AllAnswered items ps
  AllAnswered _ _ = ⊥

-- Of all items that a worker takes, each in its turn, the block is called with the item, and the
-- item's sender gets what the block's result means: no request and no message is skipped, and no
-- gRPC request is turned away for its path before the block has seen it.
pub run_worker-AllAnswered :
    (to_str : Bytes → Option Bytes) (block : Argument → BlockResult)
    (items : List (WorkItem HyperRequest SyslogMessage))
    → AllAnswered to_str block items (run_worker to_str block items)
unfolding run_worker
run_worker-AllAnswered to_str block [] = tt
run_worker-AllAnswered to_str block (item ∷ items) =
    (process-IsAnswered to_str block item, run_worker-AllAnswered to_str block items)
