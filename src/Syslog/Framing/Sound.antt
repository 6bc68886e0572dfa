-- ===== src/Syslog/Framing/Sound.antt =====
-- What one decoding step may do: which messages come out, and that the buffer shrinks.
use hyper_ruby.Common.{
  ℕ, ◌+◌, ◌-◌, ◌%◌, ◌≤◌, ◌<◌, [], ◌∷◌, ◌≡◌, inl, inr, refl, subst, arith, true, false, Bool-cases,
  Option-cases, Option, none, some, ltb, ltb→lt, length, drop, length-take, length-drop, Bytes, ok,
  err,
}
use hyper_ruby.Rust.Word.{usize_mod}
use hyper_ruby.Rust.Utf8.{from_utf8}
use hyper_ruby.Syslog.Framing.{
  State, not_discarding, discarding, discarding_to_eol, Framer, Decoded, position, get_range,
  take_message, with_len, without_len, octet_header, to_eol, octet_decode, entry_state, decode,
  decode_eof,
}
use hyper_ruby.Syslog.Framing.Lines.{LinesCodec}

-- A countdown is never at its end.
abbrev pub IsState : Option State → Type 0
IsState (some (discarding n)) = 0 < n
IsState _ = Unit {0}

-- Of a step over `src`: a message is UTF-8 and no longer than the maximum; a message and an error
-- take at least one byte off the buffer, and nothing adds one; an error is fatal; and the framer
-- that is left has a sound state.
abbrev pub IsSound : {C : Type 0} → ℕ → Bytes → Decoded C → Type 0
IsSound m src (f, rest, ok (some msg)) =
    (from_utf8 msg ≡ true)
    × (length msg ≤ m)
    × (length rest < length src)
    × IsState f.octet_decoding
IsSound m src (f, rest, ok none) = (length rest ≤ length src) × IsState f.octet_decoding
IsSound m src (f, rest, err e) =
    (e.is_fatal ≡ true) × (length rest < length src) × IsState f.octet_decoding

pub position-lt : (wanted : ℕ) (src : Bytes) {n : ℕ} → position wanted src ≡ some n → n < length src
unfolding position
position-lt wanted [] h = cc
position-lt wanted (b ∷ bs) {n} h = elim (Option-cases (position wanted bs)) [
  | inl e ↦ ground (arith, e)
  | inr (k, e) ↦ ground (arith, e, position-lt wanted bs e)
]

get_range_bounds :
    (from to : ℕ) (src msg : Bytes)
    → get_range from to src ≡ some msg
    → (from ≤ to) × (to ≤ length src) × (length msg ≤ to - from)
unfolding get_range
get_range_bounds from to src msg h = ground (arith, length-take (to - from) (drop from src))

module _ {C : Type 0} (m : ℕ) (f : Framer C) (src : Bytes) where
  take_message-IsSound :
      (to : ℕ) (msg : Option Bytes)
      → IsState f.octet_decoding
      → ((b : Bytes) → msg ≡ some b → (0 < to) × (to ≤ length src) × (length b ≤ m))
      → IsSound m src (take_message m f src to msg)
  unfolding take_message
  take_message-IsSound to none s h = (omega arith, s)
  take_message-IsSound to (some msg) s h = ground (arith, h msg refl, length-drop to src)

  without_len-IsSound :
      (newline : Option ℕ)
      → IsState f.octet_decoding
      → ((n : ℕ) → newline ≡ some n → n < length src)
      → IsSound m src (without_len m f src newline)
  unfolding without_len
  without_len-IsSound none s h = ground (arith, length-drop (length src) src)
  without_len-IsSound (some n) s h = ground (arith, h n refl, length-drop (n + 1) src)

  to_eol-IsSound :
      (newline : Option ℕ)
      → IsState f.octet_decoding
      → ((n : ℕ) → newline ≡ some n → n < length src)
      → IsSound m src (to_eol m f src newline)
  unfolding to_eol
  to_eol-IsSound none s h = ground (arith, length-drop (length src) src)
  to_eol-IsSound (some n) s h = ground (arith, h n refl, length-drop (n + 1) src)

  message_bounds :
      (space_pos len : ℕ)
      → space_pos < m
      → m < usize_mod
      → ltb m len ≡ false
      → (b : Bytes) → get_range (space_pos + 1) ((space_pos + 1 + len) % usize_mod) src ≡ some b
      → (0 < (space_pos + 1 + len) % usize_mod)
        × ((space_pos + 1 + len) % usize_mod ≤ length src)
        × (length b ≤ m)
  message_bounds space_pos len short small fits b e =
      let g = get_range_bounds (space_pos + 1) ((space_pos + 1 + len) % usize_mod) src b e in
      let l : len ≤ m = ground arith in (omega (arith, g), omega (arith, g), omega (arith, g, l))

  with_len-IsSound :
      (space_pos : ℕ) (len : Option ℕ)
      → IsState f.octet_decoding
      → space_pos < length src
      → space_pos < m
      → m < usize_mod
      → IsSound m src (with_len m f src space_pos len)
  unfolding with_len
  with_len-IsSound space_pos none s h short small = ground (arith, length-drop (space_pos + 1) src)
  with_len-IsSound space_pos (some len) s h short small = elim (Bool-cases (ltb m len)) [
    | inl over ↦ rw over (ground (arith, length-drop (space_pos + 1) src))
    | inr fits ↦
        rw fits (take_message-IsSound _ _ s (message_bounds space_pos len short small fits))
  ]

  octet_header-IsSound :
      (newline space : Option ℕ)
      → IsState f.octet_decoding
      → m < usize_mod
      → ((n : ℕ) → newline ≡ some n → n < length src)
      → ((n : ℕ) → space ≡ some n → n < length src)
      → IsSound m src (octet_header m f src newline space)
  unfolding octet_header
  octet_header-IsSound newline none s small nl sp = without_len-IsSound newline s nl
  octet_header-IsSound newline (some space_pos) s small nl sp =
      elim (Bool-cases (ltb space_pos m)) [
        | inl short ↦
            rw short (with_len-IsSound space_pos _ s (sp space_pos refl) (ltb→lt _ _ short) small)
        | inr long ↦ rw long (without_len-IsSound newline s nl)
      ]

  octet_decode-IsSound :
      (state : State)
      → IsState f.octet_decoding
      → IsState (some state)
      → m < usize_mod
      → IsSound m src (octet_decode m f state src)
  unfolding octet_decode
  octet_decode-IsSound not_discarding s t small =
      octet_header-IsSound _ _ s small (λ n e. position-lt b'\n' src e)
        (λ n e. position-lt b' ' src e)
  octet_decode-IsSound (discarding n) s t small =
      ground (arith, length-drop n src, length-drop (length src) src)
  octet_decode-IsSound discarding_to_eol s t small =
      to_eol-IsSound _ s (λ n e. position-lt b'\n' src e)

entry-IsState :
    (o : Option State) (src : Bytes) (state : State)
    → entry_state o src ≡ some state
    → IsState o
    → IsState (some state)
unfolding entry_state
entry-IsState (some t) src state e s = subst IsState e s
entry-IsState none [] state e s = cc
entry-IsState none (b ∷ bs) state e s = ground arith

-- A step over an octet counted buffer is sound, at the maximum that the framer was made with.
pub decode-IsSound :
    (lines : LinesCodec) (f : Framer lines.Codec) (src : Bytes) (state : State)
    → entry_state f.octet_decoding src ≡ some state
    → IsState f.octet_decoding
    → lines.max_length f.other < usize_mod
    → IsSound (lines.max_length f.other) src (decode lines f src)
      × IsSound (lines.max_length f.other) src (decode_eof lines f src)
unfolding decode decode_eof entry_state
decode-IsSound lines f src state e s small =
    let t = entry-IsState f.octet_decoding src state e s in
    let step =
      octet_decode-IsSound (lines.max_length f.other) (record f { octet_decoding = some state }) src
        state t t small in
    (rw e step, rw e step)
