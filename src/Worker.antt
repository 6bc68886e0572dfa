-- ===== src/Worker.antt =====
-- ext/hyper_ruby/src/lib.rs, the loop of `run_worker` and `call_block_with_syslog_message`: what a
-- Ruby worker makes of an item, and what it gives back. The block is Ruby's, a parameter.
pub mod Answers
pub mod Delivered
pub mod Served
pub mod Loop
use hyper_ruby.Common.{
  ℕ, Bool, true, false, [], ◌∷◌, List, Option, none, some, if◌then◌else◌, Bytes,
}
use hyper_ruby.Http.Text.{codes}
use hyper_ruby.Http.Request.{HyperRequest, is_grpc_request, GrpcRequest, new_grpc_request}
use hyper_ruby.Http.Response.{HyperResponse, grpc_error}
use hyper_ruby.Http.Handle.{create_error_response}
use hyper_ruby.Syslog.Delivery.{SyslogMessage, HandlerResult, accepted, refused, failed}
use hyper_ruby.Work.{WorkItem, http, syslog}

-- What the block is called with.
pub data Argument : Type 0 where
  request : HyperRequest → Argument
  grpc_request : GrpcRequest → Argument
  message : SyslogMessage → Argument

-- What a call of the block comes to: an exception, a response of one of the two classes, or
-- another value, of which only the truth is looked at.
pub data BlockResult : Type 0 where
  raised : BlockResult
  grpc_response response : HyperResponse → BlockResult
  value : Bool → BlockResult

abbrev pub internal_error : HyperResponse
internal_error = create_error_response (codes "Internal server error")

-- The response to a request.
unfoldable pub response_of : BlockResult → HyperResponse
response_of raised = internal_error
response_of (grpc_response r) = r
response_of (response r) = r
response_of (value truth) = internal_error

-- `call_block_with_syslog_message`, after the call.
unfoldable pub verdict_of : BlockResult → HandlerResult
verdict_of raised = failed
verdict_of (grpc_response r) = failed
verdict_of (response r) = failed
verdict_of (value true) = accepted
verdict_of (value false) = refused

-- What goes back through the channel of the item.
pub data Answered : Type 0 where
  responded : HyperResponse → Answered
  judged : HandlerResult → Answered

-- What the block is called with, if it is called, and what goes back.
abbrev pub Processed : Type 0
Processed = Option Argument × Answered

module _ (to_str : Bytes → Option Bytes) (block : Argument → BlockResult) where
  -- A gRPC request whose path is invalid is answered without the block.
  unfoldable pub call_with_grpc : Option GrpcRequest → Processed
  unfolding response_of
  call_with_grpc (some g) =
      (some (grpc_request g), responded (response_of (block (grpc_request g))))
  call_with_grpc none = (none, responded (grpc_error 3 (codes "Invalid gRPC request path")))

  unfoldable pub process : WorkItem HyperRequest SyslogMessage → Processed
  unfolding call_with_grpc verdict_of
  process (http r) =
      if is_grpc_request to_str r
      then call_with_grpc (new_grpc_request r)
      else (some (request r), responded (response_of (block (request r))))
  process (syslog m) = (some (message m), judged (verdict_of (block (message m))))

  -- The loop, over the items that the worker takes.
  unfoldable pub run_worker : List (WorkItem HyperRequest SyslogMessage) → List Processed
  run_worker [] = []
  run_worker (item ∷ items) = process item ∷ run_worker items
