-- ===== src/Syslog/Framing/Stream/Sent.antt =====
-- What a sender may put on a stream: octet counted frames and lines in any order, as RFC 6587
-- allows, and at the end perhaps a line without a line feed.
use hyper_ruby.Common.{
  ℕ, ◌≤◌, ◌<◌, true, false, [], ◌∷◌, ◌++◌, ◌≡◌, ◌≢◌, refl, arith, List, map, Option, none, some,
  length, length-append, Bytes, Result, ok,
}
use hyper_ruby.Rust.Utf8.{from_utf8}
use hyper_ruby.Syslog.Framing.{starts_frame}
use hyper_ruby.Syslog.Framing.Lines.{IsLine, without_carriage_return, FrameError}
use hyper_ruby.Syslog.Framing.Encode.{encode, IsCountable}
use hyper_ruby.Http.Text.{to_string}

-- What a sender sends: a message with its length, or a line, with a carriage return at its end or not.
pub data Sent : Type 0 where
  counted : Bytes → Sent
  line : Bytes → Sent

abbrev pub sent_octets : Sent → Bytes
sent_octets (counted body) = encode body
sent_octets (line raw) = raw ++ (b'\n' ∷ [])

-- What the receiver should make of it.
abbrev pub sent_message : Sent → Bytes
sent_message (counted body) = body
sent_message (line raw) = without_carriage_return raw

-- The first byte does not make the framer read a length.
abbrev pub IsUncounted : Bytes → Type 0
IsUncounted [] = Unit {0}
IsUncounted (b ∷ bs) = starts_frame b ≡ false

-- A line that a sender may send to a framer of this maximum.
pub record IsLineSendable (max_length : ℕ) (raw : Bytes) : Type 0 where
  pub uncounted : IsUncounted raw
  pub no_newline : IsLine raw
  pub fits : length raw ≤ max_length
  pub text : from_utf8 (without_carriage_return raw) ≡ true

abbrev pub IsSentSendable : ℕ → Sent → Type 0
IsSentSendable m (counted body) = IsCountable m body
IsSentSendable m (line raw) = IsLineSendable m raw

abbrev pub AllSentSendable : ℕ → List Sent → Type 0
AllSentSendable m [] = Unit {0}
AllSentSendable m (s ∷ ss) = IsSentSendable m s × AllSentSendable m ss

-- All of a list, one after the other, and what stands behind them.
abbrev pub transmission : List Sent → Bytes → Bytes
transmission [] rest = rest
transmission (s ∷ ss) rest = sent_octets s ++ transmission ss rest

abbrev pub sent_messages : List Sent → List (Result FrameError Bytes)
sent_messages = map (λ s. ok (sent_message s))

-- The start of a line that may still be sent to its end.
pub record IsUnfinished (max_length : ℕ) (raw : Bytes) : Type 0 where
  pub uncounted : IsUncounted raw
  pub no_newline : IsLine raw
  pub fits : length raw ≤ max_length

IsLine-front : (src rest : Bytes) → IsLine (src ++ rest) → IsLine src
IsLine-front [] rest l = tt
IsLine-front (b ∷ bs) rest (n, l) = (n, IsLine-front bs rest l)

IsUncounted-front : (src rest : Bytes) → IsUncounted (src ++ rest) → IsUncounted src
IsUncounted-front [] rest u = tt
IsUncounted-front (b ∷ bs) rest u = u

pub IsUncounted-newline : (raw rest : Bytes) → IsUncounted raw → IsUncounted (raw ++ (b'\n' ∷ rest))
IsUncounted-newline [] rest u = refl
IsUncounted-newline (b ∷ bs) rest u = u

pub IsUnfinished-front :
    (m : ℕ) (src rest : Bytes) → IsUnfinished m (src ++ rest) → IsUnfinished m src
IsUnfinished-front m src rest u = record {
  uncounted = IsUncounted-front src rest u.uncounted;
  no_newline = IsLine-front src rest u.no_newline;
  fits = omega (arith, u.fits, length-append src rest);
}

pub IsUnfinished-nil : {m : ℕ} → IsUnfinished m []
IsUnfinished-nil = record { uncounted = tt; no_newline = tt; fits = omega arith }

pub IsLineSendable-IsUnfinished : (m : ℕ) (raw : Bytes) → IsLineSendable m raw → IsUnfinished m raw
IsLineSendable-IsUnfinished m raw s = record {
  uncounted = s.uncounted;
  no_newline = s.no_newline;
  fits = s.fits;
}

pub length-sent_octets : (m : ℕ) (s : Sent) → IsSentSendable m s → 0 < length (sent_octets s)
length-sent_octets m (counted body) s =
    omega (arith, length-append (to_string (length body)) (b' ' ∷ body))
length-sent_octets m (line raw) s = omega (arith, length-append raw (b'\n' ∷ []))

-- What ends the stream: nothing, or a line without a line feed that is more than a carriage return.
pub record IsLastLine (max_length : ℕ) (raw : Bytes) : Type 0 where
  pub unfinished : IsUnfinished max_length raw
  pub text : from_utf8 (without_carriage_return raw) ≡ true
  pub not_return : raw ≢ b'\r' ∷ []

abbrev pub last_line : Bytes → Option Bytes
last_line [] = none
last_line (b ∷ bs) = some (without_carriage_return (b ∷ bs))

pub without_carriage_return-nonempty :
    (b : ℕ) (bs : Bytes) → b ∷ bs ≢ b'\r' ∷ [] → without_carriage_return (b ∷ bs) ≢ []
unfolding without_carriage_return
without_carriage_return-nonempty b [] ne e = ground arith
without_carriage_return-nonempty b (x ∷ xs) ne e = cc
