-- ===== src/Http/Request/Fill.antt =====
-- ext/hyper_ruby/src/request.rs, `fill_buffer`: the body of a request is copied into a Ruby string
-- that the caller gives. `rb_str_modify_expand` is Ruby's, a parameter.
use hyper_ruby.Common.{
  ℕ, ◌+◌, ◌-◌, ◌≤◌, ◌<◌, Option, none, some, ◌≡◌, ◌⊎◌, inl, inr, refl, arith, ltb, leb, lt→ltb,
  ltb→lt, Bool-cases, le→leb, lt→leb, if◌then◌else◌, length, Bytes,
}

-- A Ruby string: its bytes, and how many it has room for.
pub record RubyString : Type 0 where
  pub content : Bytes
  pub capacity : ℕ

-- What Ruby says of `rb_str_modify_expand`: the string keeps its bytes, and has room for so many
-- more than its length.
pub record IsModifyExpand (modify_expand : RubyString → ℕ → RubyString) : Type 0 where
  pub kept : (s : RubyString) (n : ℕ) → (modify_expand s n).content ≡ s.content
  pub room : (s : RubyString) (n : ℕ) → (modify_expand s n).capacity ≡ length s.content + n

module _ (modify_expand : RubyString → ℕ → RubyString) where
  -- The string as it is when the body is copied.
  pub prepared : RubyString → ℕ → RubyString
  prepared s body_len =
      if ltb s.capacity body_len then modify_expand s (body_len - s.capacity) else s

  -- `none` where the copy goes beyond the room that the string has.
  pub fill_buffer : Bytes → RubyString → Option (RubyString × ℕ)
  unfolding prepared
  fill_buffer body s =
      let p = prepared s (length body) in
      if leb (length body) p.capacity then some (record p { content = body }, length body) else none

prepared-fits :
    (modify_expand : RubyString → ℕ → RubyString) (n : ℕ) (s : RubyString)
    → IsModifyExpand modify_expand
    → (n ≤ s.capacity) ⊎ (length s.content ≡ s.capacity)
    → n ≤ (prepared modify_expand s n).capacity
unfolding prepared
prepared-fits modify_expand n s laws fits = elim (Bool-cases (ltb s.capacity n)) [
  | inl short ↦ rw short (ground (arith, laws.room s (n - s.capacity), ltb→lt s.capacity n short))
  | inr enough ↦ rw enough (ground (arith, enough))
]

-- A body fits if the string has room for it, or has no room beyond its length: then the string
-- becomes the body, and the result is its length.
pub fill_buffer-fits :
    (modify_expand : RubyString → ℕ → RubyString) (body : Bytes) (s : RubyString)
    → IsModifyExpand modify_expand
    → (length body ≤ s.capacity) ⊎ (length s.content ≡ s.capacity)
    → (capacity : ℕ) × (fill_buffer modify_expand body s
        ≡ some (record { content = body; capacity = capacity }, length body))
unfolding fill_buffer
fill_buffer-fits modify_expand body s laws fits =
    let p = prepared modify_expand s (length body) in
    (
      p.capacity,
      rw (le→leb (length body) p.capacity (prepared-fits modify_expand (length body) s laws fits))
          refl,
    )

-- A string with room left beyond its length, but less room than the body needs, is expanded from
-- its length by what the room lacks, and the copy goes beyond the new room.
pub fill_buffer-overrun :
    (modify_expand : RubyString → ℕ → RubyString) (body : Bytes) (s : RubyString)
    → IsModifyExpand modify_expand
    → length s.content < s.capacity
    → s.capacity < length body
    → fill_buffer modify_expand body s ≡ none
unfolding fill_buffer prepared
fill_buffer-overrun modify_expand body s laws spare short =
    let e = laws.room s (length body - s.capacity) in
    rw (lt→ltb s.capacity (length body) short) (
      rw
        (lt→leb (length body) (modify_expand s (length body - s.capacity)).capacity
          (omega (arith, e)))
        refl)
