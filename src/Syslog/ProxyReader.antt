-- ===== src/Syslog/ProxyReader.antt =====
-- ext/hyper_ruby/src/syslog.rs, `read_proxy_header`: the reads that a connection makes for its
-- PROXY header, one after another. What `read_buf` gives is the environment's.
pub mod Stream
use hyper_ruby.Syslog.Counters.{SyslogCounters, fetch_add}
use Prim.Native.String.{String}
use hyper_ruby.Common.{ℕ, [], ◌∷◌, ◌++◌, List, Option, none, some, drop, Bytes, Result, ok, err}
use hyper_ruby.Syslog.Proxy
use hyper_ruby.Syslog.Proxy.{ProxyError, IpAddr, ProxyHeader, incomplete, complete, parse}

abbrev pub max_proxy_header_bytes : ℕ
max_proxy_header_bytes = 1024

-- What happens while the reader waits: bytes, the first and the others (a read of none is the end
-- of the stream), the end of the stream, a failed read, or the deadline of `proxy_header_timeout`.
pub data Read : Type 0 where
  bytes : ℕ → Bytes → Read
  eof failed deadline : Read

pub data ProxyFailure : Type 0 where
  header : ProxyError → ProxyFailure
  read : String → ProxyFailure

pub failure_str : ProxyFailure → String
failure_str (header error) = Proxy.as_str error
failure_str (read reason) = reason

-- `ProxyFailure::record`
pub record_failure : ProxyFailure → SyslogCounters → SyslogCounters
record_failure (header error) c = record c {
  proxy_header_errors = fetch_add c.proxy_header_errors 1;
}
record_failure (read reason) c = record c { proxy_read_errors = fetch_add c.proxy_read_errors 1 }

-- The result, with the buffer and the reads that are left; `none` while it still waits.
pub record HeaderRead : Type 0 where
  pub result : Result ProxyFailure (Option IpAddr)
  pub buffer : Bytes
  pub unread : List Read

-- One look at the buffer: a result, or the reading goes on.
abbrev pub decide :
    Result ProxyError ProxyHeader → Bytes → List Read → Option HeaderRead → Option HeaderRead
decide (ok (complete source n)) buffer reads more =
    some (record { result = ok source; buffer = drop n buffer; unread = reads })
decide (ok incomplete) buffer reads more = more
decide (err e) buffer reads more =
    some (record { result = err (header e); buffer = buffer; unread = reads })

pub read_proxy_header : Bytes → List Read → Option HeaderRead
read_proxy_header buffer [] = decide (parse buffer max_proxy_header_bytes) buffer [] none
read_proxy_header buffer (bytes b bs ∷ reads) =
    let more = read_proxy_header (buffer ++ (b ∷ bs)) reads in
    decide (parse buffer max_proxy_header_bytes) buffer (bytes b bs ∷ reads) more
read_proxy_header buffer (eof ∷ reads) =
    decide (parse buffer max_proxy_header_bytes) buffer (eof ∷ reads)
      (some (record { result = err (read "eof"); buffer = buffer; unread = reads }))
read_proxy_header buffer (failed ∷ reads) =
    decide (parse buffer max_proxy_header_bytes) buffer (failed ∷ reads)
      (some (record { result = err (read "io"); buffer = buffer; unread = reads }))
read_proxy_header buffer (deadline ∷ reads) =
    decide (parse buffer max_proxy_header_bytes) buffer (deadline ∷ reads)
      (some (record { result = err (read "timeout"); buffer = buffer; unread = reads }))
