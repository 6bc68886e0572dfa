-- ===== src/Syslog/Connection/Opening.antt =====
-- A stream connection as a whole: its PROXY header, if it is to have one, and what it carries.
use hyper_ruby.Common.{
  ℕ, Bool, true, false, [], ◌∷◌, ◌++◌, ◌≡◌, ◌≤◌, ◌+◌, refl, ap, ◌∙◌, List, map, Option, none, some,
  if◌then◌else◌, length, Bytes, ok,
}
use hyper_ruby.Syslog.Framing.Lines.{LinesCodec, IsLinesCodec, ReadsLines}
use hyper_ruby.Syslog.Framing.Stream.Sent.{Sent, AllSentSendable, transmission, IsLastLine}
use hyper_ruby.Syslog.Counters.{SyslogCounters}
use hyper_ruby.Syslog.Proxy.{IpAddr}
use hyper_ruby.Syslog.Proxy.RoundTrip.{v2_header, announced}
use hyper_ruby.Syslog.ProxyReader.{max_proxy_header_bytes, HeaderRead, read_proxy_header}
use hyper_ruby.Syslog.ProxyReader.Stream.{arrived, contents, read_proxy_header-v2_header}
use hyper_ruby.Syslog.Connection.{
  got, ended, later, Admission, finished, Settings, peer_of, serve_frames, after_header,
  serve_stream,
}
use hyper_ruby.Syslog.Connection.Replay.{AllAdmitted, count_results, pendings}
use hyper_ruby.Syslog.Connection.Whole.{reads_of}
use hyper_ruby.Syslog.Connection.Mixed.{all_messages, serve_frames-transmission}

-- What a connection starts with, and the source that it names: nothing, where no PROXY header is
-- expected, or a version 2 header of at most 1024 bytes.
pub data Opening (settings : Settings) : Bytes → Option IpAddr → Type 0 where
  plain : settings.proxy_protocol ≡ false → Opening settings [] none
  proxied :
      (family command : ℕ) (address : Bytes) {source : Option IpAddr}
      → settings.proxy_protocol ≡ true
      → command ≤ 1
      → 16 + length address ≤ max_proxy_header_bytes
      → announced command family address ≡ ok source
      → Opening settings (v2_header family command address) source

later-arrived :
    (chunks : List (ℕ × Bytes)) → map later (arrived chunks) ++ (ended ∷ []) ≡ reads_of chunks
later-arrived [] = refl
later-arrived ((b, bs) ∷ chunks) = ap (◌∷◌ (got b bs)) (later-arrived chunks)

module _ (lines : LinesCodec) (laws : IsLinesCodec lines) (reads : ReadsLines lines)
    (settings : Settings) (admission : ℕ → Admission) (all : AllAdmitted admission) (ss : List Sent)
    (raw : Bytes) (good : AllSentSendable settings.max_frame_bytes ss)
    (l : IsLastLine settings.max_frame_bytes raw) (c : SyslogCounters) where
  served_frames :
      (peer : Option Bytes) (buffer : Bytes) (chunks : List (ℕ × Bytes))
      → buffer ++ contents chunks ≡ transmission ss raw
      → serve_frames lines peer admission settings.max_frame_bytes
          (map later (arrived chunks) ++ (ended ∷ []))
          buffer
          c
        ≡ finished
            (pendings peer admission 0 (all_messages ss raw))
            (count_results (all_messages ss raw) c)
  served_frames peer buffer chunks w =
      ap (λ x. serve_frames lines peer admission settings.max_frame_bytes x buffer c)
        (later-arrived chunks)
      ∙ serve_frames-transmission lines laws reads peer admission settings.max_frame_bytes ss raw
          buffer chunks c all good l w

  served_header :
      (peer : Option Bytes) (chunks : List (ℕ × Bytes)) (h : HeaderRead) (source : Option IpAddr)
      → h.result ≡ ok source
      → h.unread ≡ arrived chunks
      → h.buffer ++ contents chunks ≡ transmission ss raw
      → let named = peer_of settings.show_ip peer source in
        after_header lines settings admission peer (ended ∷ []) c (some h)
        ≡ finished
            (pendings named admission 0 (all_messages ss raw))
            (count_results (all_messages ss raw) c)
  unfolding after_header
  served_header peer chunks h source r u w =
      rw (r, u) (served_frames (peer_of settings.show_ip peer source) h.buffer chunks w)

  -- The setting tells whether a header is read.
  choose :
      (peer : Option Bytes) (chunks : List (ℕ × Bytes)) {b : Bool}
      → settings.proxy_protocol ≡ b
      → serve_stream lines settings admission peer (arrived chunks) (ended ∷ []) c ≡ (
          if b
          then after_header lines settings admission peer
              (ended ∷ [])
              c
              (read_proxy_header [] (arrived chunks))
          else serve_frames lines peer admission settings.max_frame_bytes
              (map later (arrived chunks) ++ (ended ∷ []))
              []
              c)
  unfolding serve_stream
  choose peer chunks p =
      ap
        (λ b.
          if b
          then after_header lines settings admission peer (ended ∷ []) c
              (read_proxy_header [] (arrived chunks))
          else serve_frames lines peer admission settings.max_frame_bytes
              (map later (arrived chunks) ++ (ended ∷ [])) [] c)
        p

  -- The connection, cut into any reads.
  pub served_stream :
      (peer : Option Bytes) (header : Bytes) (source : Option IpAddr) (chunks : List (ℕ × Bytes))
      → Opening settings header source
      → contents chunks ≡ header ++ transmission ss raw
      → let named = peer_of settings.show_ip peer source in
        serve_stream lines settings admission peer (arrived chunks) (ended ∷ []) c
        ≡ finished
            (pendings named admission 0 (all_messages ss raw))
            (count_results (all_messages ss raw) c)
  served_stream peer header source chunks (plain p) w =
      choose peer chunks p ∙ served_frames peer [] chunks w
  served_stream peer header source chunks (proxied family command address p known fits names) w =
      let (h, rest, found, r, u, behind) =
        read_proxy_header-v2_header family command address (transmission ss raw) source chunks known
          fits names w in
      choose peer chunks p
      ∙ ap (after_header lines settings admission peer (ended ∷ []) c) found
      ∙ served_header peer rest h source r u behind

-- A connection that starts with a PROXY header where one is expected, carries frames and lines in
-- any order and then ends, cut into any reads and perhaps in the middle of a line, sends every
-- message to its delivery task under the address that the header names, in order and with nothing
-- else, the unfinished line last, counts each as pending and none as rejected, and closes. This is
-- where the header and the stream are well formed, the delivery task stays, and permits are to be
-- had.
pub serve_stream-transmission :
    (lines : LinesCodec) (laws : IsLinesCodec lines) (reads : ReadsLines lines)
    (settings : Settings) (peer : Option Bytes) (admission : ℕ → Admission) (header : Bytes)
    (source : Option IpAddr) (ss : List Sent) (raw : Bytes) (chunks : List (ℕ × Bytes))
    (c : SyslogCounters)
    → Opening settings header source
    → AllAdmitted admission
    → AllSentSendable settings.max_frame_bytes ss
    → IsLastLine settings.max_frame_bytes raw
    → contents chunks ≡ header ++ transmission ss raw
    → let named = peer_of settings.show_ip peer source in
      serve_stream lines settings admission peer (arrived chunks) (ended ∷ []) c
      ≡ finished
          (pendings named admission 0 (all_messages ss raw))
          (count_results (all_messages ss raw) c)
serve_stream-transmission lines laws reads settings peer admission header source ss raw chunks c o
      all good l w =
    served_stream lines laws reads settings admission all ss raw good l c peer header source chunks
      o w
