-- ===== src/Tests/Worker.antt =====
-- A worker and its block.
use hyper_ruby.Common.{
  false, List, ◌⊎◌, ok, arith, equal, inr, refl, ◌≡◌, [], ◌∷◌, true, none, some,
}
use hyper_ruby.Http.Text.{codes}
use hyper_ruby.Http.Request.{HyperRequest, is_grpc_request}
use hyper_ruby.Http.Response.{HyperResponse, new_body}
use hyper_ruby.Syslog.Delivery.{SyslogMessage, stream}
use hyper_ruby.Work.{http, syslog}
use hyper_ruby.Worker
use hyper_ruby.Http.Handle.{responds, sent, full, whole, Environment, response, handle_request}
use hyper_ruby.Worker.Served.{has_room, still_full, later, IsCalled, handle_request-served}
use hyper_ruby.Worker.{
  Argument, request, grpc_request, message, BlockResult, raised, value, response_of, process,
  run_worker,
}
use hyper_ruby.Work.Closed.{merge, requests_of, messages_of}
use hyper_ruby.Worker.Loop.{start_worker, start_worker-ends}
use hyper_ruby.Tests.Queues.{queues, queues-AreClosed}
use hyper_ruby.Worker.Answers.{AllAnswered, run_worker-AllAnswered}

abbrev ok_response : HyperResponse
ok_response = record { status = 200; headers = []; body = new_body (codes "ok") none }

-- It answers requests, fails on gRPC requests and admits messages.
abbrev block : Argument → BlockResult
block (request r) = Worker.response ok_response
block (grpc_request g) = raised
block (message m) = value true

abbrev get_root : HyperRequest
get_root = record {
  http_method = codes "GET";
  path = codes "/";
  query = none;
  uri_host = none;
  headers = [];
  body = [];
}

abbrev hello : SyslogMessage
hello = record {
  bytes = codes "<13>1 hello";
  utf8 = true;
  peer = none;
  transport = stream;
  received_at_ns = 5;
  message_id = 9;
  attempt = 1;
}

-- The channel is full at first, and has room after ten milliseconds.
abbrev waited : Environment
waited = record {
  declared_len = some 2;
  collected = whole (codes "hi");
  first_attempt = full;
  rounds = record { elapsed = 0; attempt = full } ∷ record { elapsed = 10; attempt = sent } ∷ [];
  worker = responds ok_response;
}

handle_request-served_example :
    (x : Argument) × IsCalled some block (record get_root { body = codes "hi" }) x
    × (handle_request some 15 get_root waited
        ≡ some (record {
          reply = response (response_of (block x));
          enqueued = some (record get_root { body = codes "hi" });
        }))
unfolding process response_of is_grpc_request equal
handle_request-served_example =
    handle_request-served some block 15 get_root waited (codes "hi") refl (inr refl)
      (later (still_full (omega arith) refl (has_room (omega arith) refl))) refl

run_worker-AllAnswered_example :
    AllAnswered some block
      (syslog hello ∷ http get_root ∷ [])
      (run_worker some block (syslog hello ∷ http get_root ∷ []))
run_worker-AllAnswered_example =
    run_worker-AllAnswered some block (syslog hello ∷ http get_root ∷ [])

abbrev left_behind : List HyperRequest × List SyslogMessage
left_behind = (get_root ∷ get_root ∷ [], hello ∷ [])

-- After the message the worker finds its channel disconnected, and ends with the requests queued.
start_worker-ends_example :
    let ch = queues HyperRequest SyslogMessage in
    let items = merge 2 0 (get_root ∷ get_root ∷ []) (hello ∷ []) in
    (start_worker ch some block true 2 true true 4 left_behind
      ≡ ok (run_worker some block items, true))
    × ((requests_of items ≡ get_root ∷ get_root ∷ []) ⊎ (messages_of items ≡ hello ∷ []))
    × (start_worker ch some block false 2 true true 4 left_behind
        ≡ ok (run_worker some block (http get_root ∷ http get_root ∷ []), true))
start_worker-ends_example =
    start_worker-ends (queues HyperRequest SyslogMessage)
      (queues-AreClosed HyperRequest SyslogMessage) some block 4 2 left_behind (omega arith)
      (omega arith)
