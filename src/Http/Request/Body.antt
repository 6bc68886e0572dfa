-- ===== src/Http/Request/Body.antt =====
-- ext/hyper_ruby/src/request.rs, `body` of both request classes: a new string is filled. `buf_new` is
-- Ruby's `rb_str_buf_new`, a parameter.
use hyper_ruby.Common.{
  ℕ, ◌≤◌, Bool, [], Option, none, some, ◌≡◌, sym, ap, ◌∙◌, subst, inl, inr, refl, Option-cases,
  length, Bytes,
}
use hyper_ruby.Grpc.{decode_grpc_frame}
use hyper_ruby.Http.Request.{HyperRequest, GrpcRequest, grpc_body_bytes, grpc_body_size}
use hyper_ruby.Http.Request.Fill.{RubyString, IsModifyExpand, fill_buffer, fill_buffer-fits}

module _ (modify_expand : RubyString → ℕ → RubyString) (buf_new : ℕ → RubyString) where
  -- `Request::body`
  unfoldable pub request_body : HyperRequest → Option (RubyString × ℕ)
  request_body r = fill_buffer modify_expand r.body (buf_new (length r.body))

  -- `GrpcRequest::body`
  unfoldable pub grpc_request_body : GrpcRequest → Option (RubyString × ℕ)
  grpc_request_body g = fill_buffer modify_expand (grpc_body_bytes g) (buf_new (grpc_body_size g))

-- What Ruby says of `rb_str_buf_new`: an empty string with room for so many bytes at least.
pub record IsBufNew (buf_new : ℕ → RubyString) : Type 0 where
  pub fresh : (n : ℕ) → (buf_new n).content ≡ []
  pub room : (n : ℕ) → n ≤ (buf_new n).capacity

-- Of the frame of a request, what the handler should get.
abbrev pub payload_of : Option (Bool × Bytes) → Bytes
payload_of (some (compressed, message)) = message
payload_of none = []

grpc_body_size-length : (g : GrpcRequest) → grpc_body_size g ≡ length (grpc_body_bytes g)
unfolding grpc_body_size grpc_body_bytes
grpc_body_size-length g = elim (Option-cases (decode_grpc_frame g.request.body)) [
  | inl no_frame ↦ rw no_frame refl
  | inr (frame, some_frame) ↦ rw some_frame refl
]

grpc_body_bytes-payload :
    (g : GrpcRequest) → grpc_body_bytes g ≡ payload_of (decode_grpc_frame g.request.body)
unfolding grpc_body_bytes
grpc_body_bytes-payload g = elim (Option-cases (decode_grpc_frame g.request.body)) [
  | inl no_frame ↦ rw no_frame refl
  | inr (frame, some_frame) ↦ rw some_frame refl
]

-- Whatever is in a request, the copy of its body into a new string stays within that string, and the
-- string is the body: for a gRPC request the message of its frame, or empty where the body is no
-- frame.
pub request_body-whole :
    (modify_expand : RubyString → ℕ → RubyString) (buf_new : ℕ → RubyString) (r : HyperRequest)
    (g : GrpcRequest)
    → IsModifyExpand modify_expand
    → IsBufNew buf_new
    → ((capacity : ℕ) × (request_body modify_expand buf_new r
          ≡ some (record { content = r.body; capacity = capacity }, length r.body)))
      × ((capacity : ℕ) × (grpc_request_body modify_expand buf_new g
            ≡ some (
              record {
                content = payload_of (decode_grpc_frame g.request.body);
                capacity = capacity;
              },
              grpc_body_size g,
            )))
unfolding request_body grpc_request_body
request_body-whole modify_expand buf_new r g laws news =
    let plain =
      fill_buffer-fits modify_expand r.body (buf_new (length r.body)) laws
        (inl (news.room (length r.body))) in
    let size = grpc_body_size-length g in
    let framed =
      fill_buffer-fits modify_expand (grpc_body_bytes g) (buf_new (grpc_body_size g)) laws (
        inl (
          subst (λ n. n ≤ (buf_new (grpc_body_size g)).capacity) size
            (news.room (grpc_body_size g)))) in
    (
      plain,
      (
        framed.0,
        framed.1
            ∙ ap
                (λ b.
                  some (record { content = b; capacity = framed.0 }, length (grpc_body_bytes g)))
                (grpc_body_bytes-payload g)
            ∙ ap
                (λ n. some (
                  record {
                    content = payload_of (decode_grpc_frame g.request.body);
                    capacity = framed.0;
                  },
                  n,
                ))
                (sym size),
      ),
    )
