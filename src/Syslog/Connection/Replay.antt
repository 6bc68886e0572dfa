-- ===== src/Syslog/Connection/Replay.antt =====
-- The inner loop of a connection against the results of the decoder, where every message gets a
-- permit and the delivery task stays.
use hyper_ruby.Common.{
  ℕ, zero, suc, Bool, true, false, [], ◌∷◌, ◌≡◌, refl, inl, inr, List, Option, none, some,
  if◌then◌else◌, Bool-cases, Bytes, Result, ok, err,
}
use hyper_ruby.Syslog.Framing.{Framer, Decoded, decode}
use hyper_ruby.Syslog.Framing.Lines.{LinesCodec, FrameError}
use hyper_ruby.Syslog.Framing.Stream.{Output, collect, decode_all}
use hyper_ruby.Syslog.Counters.{SyslogCounters, record_rejection, admit_pending}
use hyper_ruby.Syslog.Delivery.{PendingMessage}
use hyper_ruby.Syslog.Connection.{Admission, to_pending, Emitted, admit, emit_decoded, emit}

-- All goes well with the messages.
abbrev pub AllAdmitted : (ℕ → Admission) → Type 0
AllAdmitted admission = (i : ℕ) → ((admission i).permit ≡ true) × ((admission i).taken ≡ true)

-- What the results do to the statistics, to the number of messages, and to the loop.
unfoldable pub count_results : List (Result FrameError Bytes) → SyslogCounters → SyslogCounters
count_results [] c = c
count_results (ok message ∷ out) c = count_results out (admit_pending c)
count_results (err e ∷ out) c = count_results out (record_rejection e.reason c)

unfoldable pub count_messages : List (Result FrameError Bytes) → ℕ → ℕ
count_messages [] i = i
count_messages (ok message ∷ out) i = count_messages out (suc i)
count_messages (err e ∷ out) i = count_messages out i

unfoldable pub is_open : List (Result FrameError Bytes) → Bool
is_open [] = true
is_open (ok message ∷ out) = is_open out
is_open (err e ∷ out) = let rest = is_open out in if e.is_fatal then false else rest

-- The messages among the results, each with what it was admitted with.
unfoldable pub pendings :
    Option Bytes → (ℕ → Admission) → ℕ → List (Result FrameError Bytes) → List PendingMessage
unfolding to_pending
pendings peer admission i [] = []
pendings peer admission i (ok message ∷ out) =
    to_pending peer (admission i) message ∷ pendings peer admission (suc i) out
pendings peer admission i (err e ∷ out) = pendings peer admission i out

unfoldable pub replay :
    {C : Type 0} → Option Bytes → (ℕ → Admission) → Output C → SyslogCounters → ℕ → Emitted C
unfolding count_results count_messages is_open pendings
replay peer admission (out, f, src) c i = record {
  framer = f;
  buffer = src;
  counters = count_results out c;
  sent = pendings peer admission i out;
  index = count_messages out i;
  goes_on = is_open out;
}

module _ (lines : LinesCodec) (peer : Option Bytes) (admission : ℕ → Admission)
    (all : AllAdmitted admission) where
  emit_decoded-replay :
      (fuel : ℕ) (d : Decoded lines.Codec) (c : SyslogCounters) (i : ℕ)
      → ((f : Framer lines.Codec) (src : Bytes) (c : SyslogCounters) (i : ℕ)
          → emit lines peer admission (decode lines) fuel f src c i
            ≡ replay peer admission (decode_all lines fuel f src) c i)
      → emit_decoded lines peer admission (emit lines peer admission (decode lines) fuel) d c i
        ≡ replay peer admission (collect (decode_all lines fuel) d) c i
  unfolding emit_decoded admit replay collect
  emit_decoded-replay fuel (f, src, ok (some message)) c i r =
      let (permit, taken) = all i in rw (permit, taken, r f src (admit_pending c) (suc i)) refl
  emit_decoded-replay fuel (f, src, ok none) c i r = refl
  emit_decoded-replay fuel (f, src, err e) c i r = elim (Bool-cases e.is_fatal) [
    | inl fatal ↦ rw fatal refl
    | inr recoverable ↦ rw (recoverable, r f src (record_rejection e.reason c) i) refl
  ]

  pub emit-replay :
      (fuel : ℕ) (f : Framer lines.Codec) (src : Bytes) (c : SyslogCounters) (i : ℕ)
      → emit lines peer admission (decode lines) fuel f src c i
        ≡ replay peer admission (decode_all lines fuel f src) c i
  unfolding emit decode_all replay
  emit-replay zero f src c i = refl
  emit-replay (suc fuel) f src c i =
      emit_decoded-replay fuel (decode lines f src) c i (emit-replay fuel)
