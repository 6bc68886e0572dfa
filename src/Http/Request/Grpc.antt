-- ===== src/Http/Request/Grpc.antt =====
-- gRPC requests.
use hyper_ruby.Common.{true, false, [], ◌∷◌, List, Option, some, ◌≡◌, refl, arith, Bytes}
use hyper_ruby.Http.Request.{
  HyperRequest, path_parts, is_nil, is_grpc_request, GrpcRequest, from_parts, new_grpc_request,
}

from_parts_total :
    (r : HyperRequest) (parts : List Bytes)
    → is_nil parts ≡ false
    → (g : GrpcRequest) × (from_parts r parts ≡ some g) × (g.request ≡ r)
unfolding from_parts
from_parts_total r [] h = cc
from_parts_total r (part ∷ []) h = (_, refl, refl)
from_parts_total r (service ∷ rpc_method ∷ rest) h = (_, refl, refl)

parts_of_grpc :
    (to_str : Bytes → Option Bytes) (r : HyperRequest)
    → is_grpc_request to_str r ≡ true
    → is_nil (path_parts r) ≡ false
unfolding is_grpc_request
parts_of_grpc to_str r h = ground arith

-- A request that is recognised as gRPC always becomes a gRPC request, with a service and a method,
-- and that keeps the request as it is.
pub new_grpc_request-total :
    (to_str : Bytes → Option Bytes) (r : HyperRequest)
    → is_grpc_request to_str r ≡ true
    → (g : GrpcRequest) × (new_grpc_request r ≡ some g) × (g.request ≡ r)
unfolding new_grpc_request
new_grpc_request-total to_str r h = from_parts_total r (path_parts r) (parts_of_grpc to_str r h)
