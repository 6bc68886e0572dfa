-- ===== src/Tests/Fill.antt =====
-- Ruby strings that take a body.
use hyper_ruby.Common.{ℕ, ◌+◌, [], ◌∷◌, none, some, ◌≡◌, refl, arith, length}
use hyper_ruby.Http.Text.{codes}
use hyper_ruby.Grpc.{decode_grpc_frame}
use hyper_ruby.Http.Request.{HyperRequest, GrpcRequest, grpc_body_size}
use hyper_ruby.Http.Request.Body.{
  IsBufNew, payload_of, request_body, grpc_request_body, request_body-whole,
}
use hyper_ruby.Http.Request.Fill.{RubyString, IsModifyExpand, fill_buffer, fill_buffer-overrun}

abbrev expand : RubyString → ℕ → RubyString
expand s n = record s { capacity = length s.content + n }

expand-IsModifyExpand : IsModifyExpand expand
expand-IsModifyExpand = record { kept = λ s n. refl; room = λ s n. refl }

-- Ruby gives somewhat more room than asked for.
abbrev buf_new : ℕ → RubyString
buf_new n = record { content = []; capacity = n + 23 }

buf_new-IsBufNew : IsBufNew buf_new
buf_new-IsBufNew = record { fresh = λ n. refl; room = λ n. omega arith }

abbrev posted : HyperRequest
posted = record {
  http_method = codes "POST";
  path = codes "/echo.Echo/Echo";
  query = none;
  uri_host = none;
  headers = [];
  body = 0 ∷ 0 ∷ 0 ∷ 0 ∷ 5 ∷ codes "hello";
}

abbrev echo : GrpcRequest
echo = record { request = posted; service = codes "echo.Echo"; rpc_method = codes "Echo" }

request_body-whole_example :
    ((capacity : ℕ) × (request_body expand buf_new posted
        ≡ some (record { content = posted.body; capacity = capacity }, 10)))
    × ((capacity : ℕ) × (grpc_request_body expand buf_new echo
          ≡ some (
            record { content = payload_of (decode_grpc_frame posted.body); capacity = capacity },
            grpc_body_size echo,
          )))
request_body-whole_example =
    request_body-whole expand buf_new posted echo expand-IsModifyExpand buf_new-IsBufNew

-- Empty, with room for three.
abbrev spacious : RubyString
spacious = record { content = []; capacity = 3 }

fill_buffer-overrun_example : fill_buffer expand (codes "hello") spacious ≡ none
fill_buffer-overrun_example =
    fill_buffer-overrun expand (codes "hello") spacious expand-IsModifyExpand (omega arith)
      (omega arith)
