-- ===== src/Worker/Delivered.antt =====
-- From the bytes of a connection to the block of a worker: `serve_stream`, the delivery task, and
-- the verdict of the block, together.
use hyper_ruby.Common.{
  ℕ, zero, suc, ◌+◌, ◌*◌, ◌%◌, ◌<◌, min, true, false, [], ◌∷◌, ◌++◌, ◌≡◌, ◌≢◌, refl, ap, arith,
  List, map, Option, some, Bytes,
}
use hyper_ruby.Rust.Word.{u32_mod}
use hyper_ruby.Syslog.Framing.Lines.{LinesCodec, IsLinesCodec, ReadsLines}
use hyper_ruby.Syslog.Framing.Octets.{Frame}
use hyper_ruby.Syslog.Framing.Stream.Frames.{AllSendable, wire, bodies}
use hyper_ruby.Syslog.ProxyReader.Stream.{arrived, contents}
use hyper_ruby.Syslog.Counters.{SyslogCounters}
use hyper_ruby.Syslog.Proxy.{IpAddr}
use hyper_ruby.Syslog.Framing.Stream.Sent.{Sent, AllSentSendable, transmission, IsLastLine}
use hyper_ruby.Syslog.Connection.{ended, Admission, Settings, peer_of, serve_frames, serve_stream}
use hyper_ruby.Syslog.Connection.Mixed.{all_messages}
use hyper_ruby.Syslog.Connection.Opening.{Opening, serve_stream-transmission}
use hyper_ruby.Syslog.Connection.Replay.{AllAdmitted, pendings}
use hyper_ruby.Syslog.Connection.Whole.{reads_of, serve_frames-wire}
use hyper_ruby.Syslog.Delivery.{
  min_refusal_delay, max_refusal_delay, PendingMessage, SyslogMessage, HandlerResult, accepted,
  refused, failed, Answer, to_message, await_verdict, deliver, Ended, released, Delivered, settle,
  deliver_one, Drained, next_message, abandon_all, deliver_stream_messages,
}
use hyper_ruby.Syslog.Delivery.Attempts.{attempts}
use hyper_ruby.Worker.{Argument, message, BlockResult, verdict_of}

module _ (block : Argument → BlockResult) where
  -- What the block says of an attempt.
  abbrev pub verdict : PendingMessage → ℕ → HandlerResult
  verdict p k = verdict_of (block (message (to_message p k)))

  -- From the attempt `k` on, the block turns `n` attempts down and takes the next.
  abbrev pub AcceptsAfter : PendingMessage → ℕ → ℕ → Type 0
  AcceptsAfter p k zero = verdict p k ≡ accepted
  AcceptsAfter p k (suc n) = (verdict p k ≢ accepted) × AcceptsAfter p (k + 1) n

  -- A worker takes each attempt and answers what the block says; there is no shutdown.
  abbrev pub answer : PendingMessage → ℕ → Answer
  answer p k = record {
    retries = 0;
    queued = true;
    verdict = some (verdict p k);
    cancelled = false;
  }

  abbrev pub answers : PendingMessage → ℕ → ℕ → List Answer
  answers p k zero = answer p k ∷ []
  answers p k (suc n) = answer p k ∷ answers p (k + 1) n

  settle_verdict :
      (p : PendingMessage) (k delay : ℕ) (v : HandlerResult) (c : SyslogCounters)
      (again : SyslogCounters → Delivered) (q : List SyslogMessage)
      → v ≢ accepted
      → ((c : SyslogCounters) → ((again c).ended ≡ released) × ((again c).queued ≡ q))
      → let (o, c') = await_verdict (some v) c in
        let d = settle (o, c', to_message p k ∷ []) false delay again in
        (d.ended ≡ released) × (d.queued ≡ to_message p k ∷ q)
  unfolding settle await_verdict
  settle_verdict p k delay accepted c again q ne f = absurd (ne refl)
  settle_verdict p k delay refused c again q ne f =
      let (e, s) = f (await_verdict (some refused) c).1 in (e, ap (◌∷◌ (to_message p k)) s)
  settle_verdict p k delay failed c again q ne f =
      let (e, s) = f (await_verdict (some failed) c).1 in (e, ap (◌∷◌ (to_message p k)) s)

  settle_accepted :
      (p : PendingMessage) (k delay : ℕ) (v : HandlerResult) (c : SyslogCounters)
      (again : SyslogCounters → Delivered)
      → v ≡ accepted
      → let (o, c') = await_verdict (some v) c in
        let d = settle (o, c', to_message p k ∷ []) false delay again in
        (d.ended ≡ released) × (d.queued ≡ to_message p k ∷ [])
  unfolding settle await_verdict
  settle_accepted p k delay v c again a = rw a (refl, refl)

  deliver_one-AcceptsAfter :
      (p : PendingMessage) (k delay n : ℕ) (c : SyslogCounters)
      → k + n < u32_mod
      → AcceptsAfter p k n
      → let d = deliver_one p k delay (answers p k n) c in
        (d.ended ≡ released) × (d.queued ≡ attempts p k (suc n))
  unfolding deliver_one deliver
  deliver_one-AcceptsAfter p k delay zero c small a = settle_accepted p k delay (verdict p k) c _ a
  deliver_one-AcceptsAfter p k delay (suc n) c small (r, a) =
      let e : (k + 1) % u32_mod ≡ k + 1 = omega arith in
      settle_verdict p k delay (verdict p k) c _ _ r (λ c. rw e (
        deliver_one-AcceptsAfter p (k + 1) (min (delay * 2) max_refusal_delay) n c (omega arith) a))

  module _ (tries : PendingMessage → ℕ) where
    -- The script of a message: as many refusals as the block gives, and then its acceptance.
    abbrev pub scripts : List PendingMessage → List (PendingMessage × List Answer)
    scripts = map (λ p. (p, answers p 1 (tries p)))

    -- What workers take from the queue, for all messages.
    abbrev pub all_attempts : List PendingMessage → List SyslogMessage
    all_attempts [] = []
    all_attempts (p ∷ ps) = attempts p 1 (suc (tries p)) ++ all_attempts ps

    abbrev pub all_released : List PendingMessage → List Ended
    all_released = map (λ p. released)

    -- Each message is taken at last, before its attempts run out of numbers.
    pub record IsPatient : Type 0 where
      pub takes : (p : PendingMessage) → AcceptsAfter p 1 (tries p)
      pub numbered : (p : PendingMessage) → 1 + tries p < u32_mod

    next_message-released :
        (d : Delivered) (goes_on gone : SyslogCounters → Drained) (es : List Ended)
        (front q : List SyslogMessage)
        → (d.ended ≡ released) × (d.queued ≡ front)
        → ((c : SyslogCounters) → ((goes_on c).ends ≡ es) × ((goes_on c).queued ≡ q))
        → let r = next_message d goes_on gone in (r.ends ≡ released ∷ es) × (r.queued ≡ front ++ q)
    unfolding next_message
    next_message-released d goes_on gone es front q (e, s) f =
        let (es_eq, q_eq) = f d.counters in rw (e, s, es_eq, q_eq) (refl, refl)

    deliver_stream_messages-released :
        (ps : List PendingMessage) (c : SyslogCounters)
        → IsPatient
        → let d = deliver_stream_messages (scripts ps) c in
          (d.ends ≡ all_released ps) × (d.queued ≡ all_attempts ps)
    unfolding deliver_stream_messages
    deliver_stream_messages-released [] c patient = (refl, refl)
    deliver_stream_messages-released (p ∷ ps) c patient =
        next_message-released (deliver_one p 1 min_refusal_delay (answers p 1 (tries p)) c)
          (deliver_stream_messages (scripts ps)) (abandon_all (scripts ps)) _ _ _
          (deliver_one-AcceptsAfter p 1 min_refusal_delay (tries p) c (patient.numbered p)
            (patient.takes p))
          (λ c. deliver_stream_messages-released ps c patient)

-- The same of frames alone, with any line codec.
pub serve_frames-delivered :
    (block : Argument → BlockResult) (tries : PendingMessage → ℕ) (lines : LinesCodec)
    (laws : IsLinesCodec lines) (peer : Option Bytes) (admission : ℕ → Admission)
    (max_frame_bytes : ℕ) (frames : List Frame) (chunks : List (ℕ × Bytes)) (c : SyslogCounters)
    → IsPatient block tries
    → AllAdmitted admission
    → AllSendable max_frame_bytes frames
    → contents chunks ≡ wire frames
    → let served = serve_frames lines peer admission max_frame_bytes (reads_of chunks) [] c in
      let ps = pendings peer admission 0 (bodies frames) in
      let d = deliver_stream_messages (scripts block tries served.sent) served.counters in
      (d.ends ≡ all_released block tries ps) × (d.queued ≡ all_attempts block tries ps)
serve_frames-delivered block tries lines laws peer admission max frames chunks c patient all s w =
    rw (serve_frames-wire lines laws peer admission max frames chunks c all s w)
      (deliver_stream_messages-released block tries _ _ patient)

-- What a client sends all reaches the block: octet counted frames and lines in any order, behind a
-- PROXY header where one is expected, cut into any reads, the last line unfinished or not. The block
-- may turn any message down a number of times first: each ends released, none is abandoned or left
-- waiting, and what the workers take is, message for message in the order of the stream and with the
-- address that the header names, its attempts from the first up to the one that the block accepts,
-- with nothing between or besides. This is where what is sent is well formed, workers answer,
-- nothing shuts down, permits are to be had, and no message is turned down as often as a `u32`
-- counts.
pub serve_stream-delivered :
    (block : Argument → BlockResult) (tries : PendingMessage → ℕ) (lines : LinesCodec)
    (laws : IsLinesCodec lines) (reads : ReadsLines lines) (settings : Settings)
    (peer : Option Bytes) (admission : ℕ → Admission) (header : Bytes) (source : Option IpAddr)
    (ss : List Sent) (raw : Bytes) (chunks : List (ℕ × Bytes)) (c : SyslogCounters)
    → IsPatient block tries
    → Opening settings header source
    → AllAdmitted admission
    → AllSentSendable settings.max_frame_bytes ss
    → IsLastLine settings.max_frame_bytes raw
    → contents chunks ≡ header ++ transmission ss raw
    → let served = serve_stream lines settings admission peer (arrived chunks) (ended ∷ []) c in
      let ps = pendings (peer_of settings.show_ip peer source) admission 0 (all_messages ss raw) in
      let d = deliver_stream_messages (scripts block tries served.sent) served.counters in
      (d.ends ≡ all_released block tries ps) × (d.queued ≡ all_attempts block tries ps)
serve_stream-delivered block tries lines laws reads settings peer admission header source ss raw
      chunks c patient o all good l w =
    rw
      (serve_stream-transmission lines laws reads settings peer admission header source ss raw
        chunks c o all good l w)
      (deliver_stream_messages-released block tries _ _ patient)
