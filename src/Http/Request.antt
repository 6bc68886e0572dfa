-- ===== src/Http/Request.antt =====
-- ext/hyper_ruby/src/request.rs, and `is_grpc_request` of grpc.rs: the requests as the handlers
-- see them. `to_str` is `HeaderValue::to_str` of the http crate, `form` is `form_urlencoded::parse`.
pub mod Grpc
pub mod Params
pub mod Fill
pub mod Headers
pub mod Body
use Prim.Native.String.{String}
use hyper_ruby.Common.{
  ℕ, Bool, true, false, not, ◌&&◌, [], ◌∷◌, ◌++◌, List, Option, none, some, equal, if◌then◌else◌,
  length, Bytes,
}
use hyper_ruby.Grpc.{decode_grpc_frame}
use hyper_ruby.Http.Text.{
  codes, starts_with, contains, split, non_empty, to_string, HeaderMap, HeaderRules, get, insert,
}

pub record HyperRequest : Type 0 where
  pub http_method : Bytes
  pub path : Bytes
  pub query : Option Bytes
  pub uri_host : Option Bytes
  pub headers : HeaderMap
  pub body : Bytes

-- `path.split('/').filter(|s| !s.is_empty())`
abbrev pub path_parts : HyperRequest → List Bytes
path_parts r = non_empty (split b'/' r.path)

abbrev pub is_nil {ℓ} : {A : Type ℓ} → List A → Bool
is_nil [] = true
is_nil (_ ∷ _) = false

module _ (to_str : Bytes → Option Bytes) where
  -- The text of a header, if it is there and is text.
  unfoldable pub header_text : String → HeaderMap → Option Bytes
  header_text name headers = elim (get name headers) [ some value ↦ to_str value | none ↦ none ]

  unfoldable pub passes : Option Bytes → (Bytes → Bool) → Bool
  passes (some text) test = test text
  passes none test = false

  unfoldable pub is_grpc_request : HyperRequest → Bool
  unfolding passes
  is_grpc_request r =
      if not (equal r.http_method (codes "POST"))
      then false
      else if not (
          passes (header_text "content-type" r.headers)
            (λ text. starts_with text (codes "application/grpc")))
      then false
      else if not (passes (header_text "te" r.headers) (λ text. contains text (codes "trailers")))
      then false
      else not (is_nil (path_parts r))

  -- `Request::header`; nil is `none`.
  unfoldable pub header : HeaderRules → String → HyperRequest → Option Bytes
  unfolding header_text
  header rules key r = elim (rules.parse_name key) [
    | some name ↦ header_text name r.headers
    | none ↦ none
  ]

  -- `Request::headers`: a Ruby hash, with the values that are text.
  unfoldable pub set_text : String → Option Bytes → HeaderMap → HeaderMap
  set_text name none hash = hash
  set_text name (some text) hash = insert name text hash

  unfoldable pub set_all : HeaderMap → HeaderMap → HeaderMap
  unfolding set_text
  set_all [] hash = hash
  set_all ((name, value) ∷ rest) hash = set_all rest (set_text name (to_str value) hash)

  unfoldable pub headers : HyperRequest → HeaderMap
  unfolding set_all
  headers r = set_all r.headers []

  -- `Request::host`
  pub host : HyperRequest → Option Bytes
  unfolding header_text
  host r = elim r.uri_host [ some h ↦ some h | none ↦ header_text "host" r.headers ]

-- The value of the first pair with a key; and a Ruby hash, which keeps the last value of a key.
unfoldable pub first_value : Bytes → List (Bytes × Bytes) → Option Bytes
first_value key [] = none
first_value key ((k, v) ∷ rest) = if equal k key then some v else first_value key rest

unfoldable pub aset : Bytes → Bytes → List (Bytes × Bytes) → List (Bytes × Bytes)
aset key value [] = (key, value) ∷ []
aset key value ((k, v) ∷ rest) =
    if equal k key then (k, value) ∷ rest else (k, v) ∷ aset key value rest

unfoldable pub aset_all : List (Bytes × Bytes) → List (Bytes × Bytes) → List (Bytes × Bytes)
aset_all [] hash = hash
aset_all ((k, v) ∷ rest) hash = aset_all rest (aset k v hash)

-- `Request::query_param` and `Request::query_params`.
module _ (form : Bytes → List (Bytes × Bytes)) where
  unfoldable pub query_param : Bytes → HyperRequest → Option Bytes
  query_param key r = elim r.query [ some q ↦ first_value key (form q) | none ↦ none ]

  unfoldable pub query_params : HyperRequest → List (Bytes × Bytes)
  query_params r = elim r.query [ some q ↦ aset_all (form q) [] | none ↦ [] ]

-- `GrpcRequest`
pub record GrpcRequest : Type 0 where
  pub request : HyperRequest
  pub service : Bytes
  pub rpc_method : Bytes

from_parts : HyperRequest → List Bytes → Option GrpcRequest
from_parts r [] = none
from_parts r (part ∷ []) =
    some (record { request = r; service = codes "echo." ++ part; rpc_method = part })
from_parts r (service ∷ rpc_method ∷ _) =
    some (record { request = r; service = service; rpc_method = rpc_method })

pub new_grpc_request : HyperRequest → Option GrpcRequest
unfolding from_parts
new_grpc_request r = from_parts r (path_parts r)

abbrev body_or_empty : Option (Bool × Bytes) → Bytes
body_or_empty (some (_, message)) = message
body_or_empty none = []

abbrev size_or_zero : Option (Bool × Bytes) → ℕ
size_or_zero (some (_, message)) = length message
size_or_zero none = 0

-- `GrpcRequest::header` and `GrpcRequest::headers`, which do the same as those of `Request`.
module _ (to_str : Bytes → Option Bytes) where
  unfoldable pub grpc_header : HeaderRules → String → GrpcRequest → Option Bytes
  unfolding header_text
  grpc_header rules key g = elim (rules.parse_name key) [
    | some name ↦ header_text to_str name g.request.headers
    | none ↦ none
  ]

  unfoldable pub grpc_headers : GrpcRequest → HeaderMap
  unfolding set_all
  grpc_headers g = set_all to_str g.request.headers []

-- `get_body_bytes`, `get_body_size` and `is_compressed` of a gRPC request.
unfoldable pub grpc_body_bytes : GrpcRequest → Bytes
grpc_body_bytes g = body_or_empty (decode_grpc_frame g.request.body)

unfoldable pub grpc_body_size : GrpcRequest → ℕ
grpc_body_size g = size_or_zero (decode_grpc_frame g.request.body)

pub is_compressed : GrpcRequest → Bool
is_compressed g = elim (decode_grpc_frame g.request.body) [ some (c, _) ↦ c | none ↦ false ]

-- `inspect`
abbrev query_display : Option Bytes → Bytes
query_display (some (c ∷ cs)) = b'?' ∷ c ∷ cs
query_display _ = []

pub inspect : HyperRequest → Bytes
inspect r =
    codes "#<HyperRuby::Request method="
    ++ (r.http_method
        ++ (codes " path="
            ++ (r.path
                ++ (query_display r.query
                    ++ (codes " body_size=" ++ (to_string (length r.body) ++ codes ">"))))))

pub inspect_grpc : GrpcRequest → Bytes
inspect_grpc g =
    codes "#<HyperRuby::GrpcRequest service="
    ++ (g.service
        ++ (codes " method="
            ++ (g.rpc_method
                ++ (codes " body_size=" ++ (to_string (grpc_body_size g) ++ codes ">")))))
