-- ===== src/Http/Request/Headers.antt =====
-- The two ways that a handler reads the headers of a request.
use Prim.Native.String.{String}
use text.Mathlib.Text.{◌==◌ as str_eq}
use text.Mathlib.TextEquality.{eq_iff}
use hyper_ruby.Common.{
  [], ◌∷◌, Option, none, some, ◌≡◌, refl, ◌∙◌, arith, Bool-cases, inl, inr, if◌then◌else◌, Bytes,
}
use hyper_ruby.Http.Text.{HeaderMap, HeaderRules, get}
use hyper_ruby.Http.Text.Laws.{get-insert}
use hyper_ruby.Http.Request.{
  HyperRequest, GrpcRequest, grpc_header, grpc_headers, header_text, header, set_text, set_all,
  headers,
}
use hyper_ruby.Http.Request.Params.{or_before, or_before-none}

-- No name occurs twice.
abbrev pub IsDistinct : HeaderMap → Type 0
IsDistinct [] = Unit {0}
IsDistinct ((name, value) ∷ rest) = (get name rest ≡ none) × IsDistinct rest

module _ (to_str : Bytes → Option Bytes) (key : String) where
  get-set_text :
      (name : String) (text : Option Bytes) (hash : HeaderMap)
      → get key (set_text to_str name text hash)
        ≡ or_before (if str_eq name key then text else none) (get key hash)
  unfolding set_text
  get-set_text name none hash = ground arith
  get-set_text name (some text) hash = ground (arith, get-insert name key text hash)

  header_text-cons :
      (name : String) (value : Bytes) (rest : HeaderMap)
      → header_text to_str key ((name, value) ∷ rest)
        ≡ (if str_eq name key then to_str value else header_text to_str key rest)
  unfolding header_text get
  header_text-cons name value rest = elim (Bool-cases (str_eq name key)) [
    | inl same ↦ rw (header_text, get, same) refl
    | inr other ↦ rw (header_text, get, other) refl
  ]

  header_text-none : (rest : HeaderMap) → get key rest ≡ none → header_text to_str key rest ≡ none
  unfolding header_text
  header_text-none rest e = rw (header_text, e) refl

  get-set_all :
      (m hash : HeaderMap)
      → IsDistinct m
      → get key (set_all to_str m hash) ≡ or_before (header_text to_str key m) (get key hash)
  unfolding set_all header_text get
  get-set_all [] hash d = refl
  get-set_all ((name, value) ∷ rest) hash (once, d) = ground (
    arith,
    get-set_all rest (set_text to_str name (to_str value) hash) d,
    get-set_text name (to_str value) hash,
    header_text-cons name value rest,
    header_text-none rest,
    eq_iff name key,
    once,
  )

headers-header_text :
    (to_str : Bytes → Option Bytes) (name : String) (r : HyperRequest)
    → IsDistinct r.headers
    → get name (headers to_str r) ≡ header_text to_str name r.headers
unfolding headers get
headers-header_text to_str name r d = get-set_all to_str name r.headers [] d ∙ or_before-none _

-- What a map has under the name that a key is parsed to.
abbrev pub get_parsed : HeaderRules → String → HeaderMap → Option Bytes
get_parsed rules key m = elim (rules.parse_name key) [ some name ↦ get name m | none ↦ none ]

get_parsed-header :
    (to_str : Bytes → Option Bytes) (rules : HeaderRules) (r : HyperRequest) (key : String)
    → IsDistinct r.headers
    → get_parsed rules key (headers to_str r) ≡ header to_str rules key r
unfolding header
get_parsed-header to_str rules r key d =
    elim (rules.parse_name key)
      as (λ p.
        elim p [ some name ↦ get name (headers to_str r) | none ↦ none ]
        ≡ elim p [ some name ↦ header_text to_str name r.headers | none ↦ none ]) [
          | some name ↦ headers-header_text to_str name r d
          | none ↦ refl
        ]

-- Where no header is there twice, `header` gives for any key, in capitals or not, what the hash of all
-- headers has under the name that the key is parsed to; both leave out a value that is no text, and a
-- key that is no name gives nothing. This holds for requests and for gRPC requests.
pub headers-header :
    (to_str : Bytes → Option Bytes) (rules : HeaderRules) (g : GrpcRequest) (key : String)
    → IsDistinct g.request.headers
    → (get_parsed rules key (headers to_str g.request) ≡ header to_str rules key g.request)
      × (get_parsed rules key (grpc_headers to_str g) ≡ grpc_header to_str rules key g)
unfolding headers header grpc_headers grpc_header
headers-header to_str rules g key d =
    let same = get_parsed-header to_str rules g.request key d in (same, same)
