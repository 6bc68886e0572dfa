-- ===== src/Syslog/Connection/Text.antt =====
-- The messages of a connection are text, from the framer to the channel of the delivery task.
use hyper_ruby.Common.{
  ℕ, zero, suc, true, [], ◌∷◌, ◌++◌, ◌≡◌, List, Option, none, some, Bool-cases, inl, inr, Bytes,
  Result, ok, err, length,
}
use hyper_ruby.Rust.Utf8.{from_utf8}
use hyper_ruby.Syslog.Framing.{Framer, Decoded, new, decode, decode_eof}
use hyper_ruby.Syslog.Framing.Lines.{LinesCodec, IsLinesCodec}
use hyper_ruby.Syslog.Framing.Text.{IsText, decode-IsText}
use hyper_ruby.Syslog.Counters.{SyslogCounters, admit_pending, record_rejection}
use hyper_ruby.Syslog.Delivery.{PendingMessage}
use hyper_ruby.Syslog.Connection.{
  Happening, got, ended, read_failed, idle, cancelled, Admission, to_pending, Emitted, admit,
  emit_decoded, emit, emit_all, read_more, serve_frames, Settings, after_header, serve_stream,
}
use hyper_ruby.Syslog.Proxy.{IpAddr}
use hyper_ruby.Syslog.ProxyReader.{Read, ProxyFailure, HeaderRead, read_proxy_header}

abbrev pub AllText : List PendingMessage → Type 0
AllText [] = Unit {0}
AllText (p ∷ ps) = (from_utf8 p.message ≡ true) × AllText ps

AllText-append : (a b : List PendingMessage) → AllText a → AllText b → AllText (a ++ b)
AllText-append [] b t u = u
AllText-append (p ∷ a) b (t, ts) u = (t, AllText-append a b ts u)

module _ (lines : LinesCodec) (laws : IsLinesCodec lines) (peer : Option Bytes)
    (admission : ℕ → Admission) where
  open lines use {Codec}

  admit-AllText :
      (f : Framer Codec) (src : Bytes) (c : SyslogCounters) (i : ℕ) (message : Bytes)
      (more : Emitted Codec)
      → from_utf8 message ≡ true
      → AllText more.sent
      → AllText (admit lines peer admission f src c i message more).sent
  unfolding admit to_pending
  admit-AllText f src c i message more t ts = elim (Bool-cases (admission i).permit) [
    | inl permit ↦ elim (Bool-cases (admission i).taken) [
      | inl taken ↦ rw (permit, taken) (t, ts)
      | inr gone ↦ rw (permit, gone) tt
    ]
    | inr closed ↦ rw closed tt
  ]

  emit_decoded-AllText :
      (more : Framer Codec → Bytes → SyslogCounters → ℕ → Emitted Codec) (d : Decoded Codec)
      (c : SyslogCounters) (i : ℕ)
      → IsText d
      → ((f : Framer Codec) (src : Bytes) (c : SyslogCounters) (i : ℕ)
          → AllText (more f src c i).sent)
      → AllText (emit_decoded lines peer admission more d c i).sent
  unfolding emit_decoded
  emit_decoded-AllText more (f, src, ok (some message)) c i t h =
      admit-AllText f src c i message _ t (h f src (admit_pending c) (suc i))
  emit_decoded-AllText more (f, src, ok none) c i t h = tt
  emit_decoded-AllText more (f, src, err e) c i t h = elim (Bool-cases e.is_fatal) [
    | inl fatal ↦ rw fatal tt
    | inr recoverable ↦ rw recoverable (h f src (record_rejection e.reason c) i)
  ]

  emit-AllText :
      (step : Framer Codec → Bytes → Decoded Codec)
      → ((f : Framer Codec) (src : Bytes) → IsText (step f src))
      → (fuel : ℕ) (f : Framer Codec) (src : Bytes) (c : SyslogCounters) (i : ℕ)
      → AllText (emit lines peer admission step fuel f src c i).sent
  unfolding emit
  emit-AllText step text zero f src c i = tt
  emit-AllText step text (suc fuel) f src c i =
      emit_decoded-AllText (emit lines peer admission step fuel) (step f src) c i (text f src)
        (emit-AllText step text fuel)

  read_more-AllText :
      (happenings : List Happening) (e : Emitted Codec)
      → AllText e.sent
      → AllText (read_more lines peer admission happenings e).sent
  unfolding read_more emit_all
  read_more-AllText [] e t = elim (Bool-cases e.goes_on) [ inl g ↦ rw g t | inr g ↦ rw g t ]
  read_more-AllText (got b bs ∷ happenings) e t = elim (Bool-cases e.goes_on) [
    | inl g ↦
        let src = e.buffer ++ (b ∷ bs) in
        rw g (
          AllText-append e.sent _ t (
            read_more-AllText happenings _ (
              emit-AllText (decode lines) (λ f src. (decode-IsText lines laws f src).0)
                (suc (length src)) e.framer src e.counters e.index)))
    | inr g ↦ rw g t
  ]
  read_more-AllText (ended ∷ happenings) e t = elim (Bool-cases e.goes_on) [
    | inl g ↦ rw g (
        AllText-append e.sent _ t (
          emit-AllText (decode_eof lines) (λ f src. (decode-IsText lines laws f src).1)
            (suc (length e.buffer)) e.framer e.buffer e.counters e.index))
    | inr g ↦ rw g t
  ]
  read_more-AllText (read_failed ∷ happenings) e t = t
  read_more-AllText (idle ∷ happenings) e t = t
  read_more-AllText (cancelled ∷ happenings) e t = t

  serve_frames-AllText :
      (max_frame_bytes : ℕ) (happenings : List Happening) (buffer : Bytes) (c : SyslogCounters)
      → AllText (serve_frames lines peer admission max_frame_bytes happenings buffer c).sent
  unfolding serve_frames emit_all
  serve_frames-AllText max happenings buffer c = read_more-AllText happenings _ (
      emit-AllText (decode lines) (λ f src. (decode-IsText lines laws f src).0)
        (suc (length buffer)) (new lines max) buffer c 0)

module _ (lines : LinesCodec) (laws : IsLinesCodec lines) (settings : Settings)
    (admission : ℕ → Admission) (peer : Option Bytes) (happenings : List Happening)
    (c : SyslogCounters) where
  header_result-AllText :
      (h : HeaderRead) (r : Result ProxyFailure (Option IpAddr))
      → AllText
          (after_header lines settings admission peer happenings c
            (some (record h { result = r }))).sent
  unfolding after_header
  header_result-AllText h (ok source) =
      serve_frames-AllText lines laws _ admission settings.max_frame_bytes _ h.buffer c
  header_result-AllText h (err failure) = tt

  after_header-AllText :
      (h : Option HeaderRead)
      → AllText (after_header lines settings admission peer happenings c h).sent
  unfolding after_header
  after_header-AllText none = tt
  after_header-AllText (some h) = header_result-AllText h h.result

  pub serve_stream-AllText :
      (reads : List Read)
      → AllText (serve_stream lines settings admission peer reads happenings c).sent
  unfolding serve_stream
  serve_stream-AllText reads = elim (Bool-cases settings.proxy_protocol) [
    | inl with_header ↦ rw with_header (after_header-AllText (read_proxy_header [] reads))
    | inr without ↦
        rw without (serve_frames-AllText lines laws peer admission settings.max_frame_bytes _ [] c)
  ]
