-- ===== src/Syslog/Framing/Lines.antt =====
-- What framing.rs uses of tokio-util's `LinesCodec`, and the errors that the framer reports.
use Prim.Native.String.{String}
use hyper_ruby.Common.{
  ℕ, ◌≤◌, Bool, true, false, [], ◌∷◌, ◌++◌, ◌==◌, ◌≡◌, ◌≢◌, Option, none, some, if◌then◌else◌,
  length, Bytes, Result, ok,
}
use hyper_ruby.Rust.Utf8.{from_utf8}

pub data RejectReason : Type 0 where
  oversize invalid_utf8 invalid_length : RejectReason

pub as_str : RejectReason → String
as_str oversize = "oversize"
as_str invalid_utf8 = "invalid_utf8"
as_str invalid_length = "invalid_length"

pub record FrameError : Type 0 where
  pub reason : RejectReason
  pub is_fatal : Bool

abbrev pub fatal : RejectReason → FrameError
fatal r = record { reason = r; is_fatal = true }

abbrev pub recoverable : RejectReason → FrameError
recoverable r = record { reason = r; is_fatal = false }

-- `Result<Option<Bytes>, FrameError>`
abbrev pub FrameResult : Type 0
FrameResult = Result FrameError (Option Bytes)

pub data LinesCodecError : Type 0 where
  max_line_length_exceeded io : LinesCodecError

abbrev pub LineResult : Type 0
LineResult = Result LinesCodecError (Option Bytes)

-- The codec's own state, and its operations on it and on the buffer.
pub record LinesCodec : Type 1 where
  pub Codec : Type 0
  pub new_with_max_length : ℕ → Codec
  pub max_length : Codec → ℕ
  pub decode : Codec → Bytes → Codec × Bytes × LineResult
  pub decode_eof : Codec → Bytes → Codec × Bytes × LineResult

-- What its documentation says: the maximum is the one it was made with and does not change, an
-- empty buffer holds no line, and a line is a `String`.
pub record IsLinesCodec (lines : LinesCodec) : Type 0 where
  pub max_length-new : (n : ℕ) → lines.max_length (lines.new_with_max_length n) ≡ n
  pub max_length-decode :
      (c : lines.Codec) (src : Bytes) → lines.max_length (lines.decode c src).0 ≡ lines.max_length c
  pub max_length-decode_eof :
      (c : lines.Codec) (src : Bytes)
      → lines.max_length (lines.decode_eof c src).0 ≡ lines.max_length c
  pub decode_nil : (c : lines.Codec) → lines.decode c [] ≡ (c, [], ok none)
  pub decode_eof_nil : (c : lines.Codec) → lines.decode_eof c [] ≡ (c, [], ok none)
  pub decode_string :
      (c : lines.Codec) (src line : Bytes)
      → (lines.decode c src).2 ≡ ok (some line)
      → from_utf8 line ≡ true
  pub decode_eof_string :
      (c : lines.Codec) (src line : Bytes)
      → (lines.decode_eof c src).2 ≡ ok (some line)
      → from_utf8 line ≡ true

-- A line as it is sent, without its line feed, and the line as it is handed over, without the
-- carriage return that it may end in.
abbrev pub IsLine : Bytes → Type 0
IsLine [] = Unit {0}
IsLine (b ∷ bs) = (b ≢ b'\n') × IsLine bs

unfoldable pub without_carriage_return : Bytes → Bytes
without_carriage_return [] = []
without_carriage_return (b ∷ []) = if b == b'\r' then [] else b ∷ []
without_carriage_return (b ∷ c ∷ cs) = b ∷ without_carriage_return (c ∷ cs)

-- What else its documentation says. `Reading c seen` says that the codec has looked at the bytes
-- `seen` of a buffer, and found no line feed there; it may remember how far it has looked. A line of
-- no more than the maximum is taken off the buffer with its line feed, and the codec starts anew;
-- without a line feed the buffer stays as it is; and at the end of the stream what is left is a line.
pub record ReadsLines (lines : LinesCodec) : Type 1 where
  pub Reading : lines.Codec → Bytes → Type 0
  pub new : (n : ℕ) → Reading (lines.new_with_max_length n) []
  pub whole :
      (c : lines.Codec) (seen more raw rest : Bytes)
      → Reading c seen
      → raw ++ (b'\n' ∷ rest) ≡ seen ++ more
      → IsLine raw
      → length raw ≤ lines.max_length c
      → from_utf8 (without_carriage_return raw) ≡ true
      → (d : lines.Codec) × (lines.decode c (raw ++ (b'\n' ∷ rest))
          ≡ (d, rest, ok (some (without_carriage_return raw))))
        × Reading d []
  pub part :
      (c : lines.Codec) (seen more : Bytes)
      → Reading c seen
      → IsLine (seen ++ more)
      → length (seen ++ more) ≤ lines.max_length c
      → (d : lines.Codec) × (lines.decode c (seen ++ more) ≡ (d, seen ++ more, ok none))
        × Reading d (seen ++ more)
  pub last :
      (c : lines.Codec) (seen more : Bytes)
      → Reading c seen
      → IsLine (seen ++ more)
      → length (seen ++ more) ≤ lines.max_length c
      → from_utf8 (without_carriage_return (seen ++ more)) ≡ true
      → without_carriage_return (seen ++ more) ≢ []
      → (d : lines.Codec) × (lines.decode_eof c (seen ++ more)
          ≡ (d, [], ok (some (without_carriage_return (seen ++ more)))))
