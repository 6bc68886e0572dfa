-- ===== src/Lib.antt =====
-- Verification of hyper_ruby, a Ruby extension that serves HTTP, gRPC and syslog with hyper and
-- tokio and hands requests and messages to Ruby blocks on worker threads.
--
-- The parts, and the files that model them. Paths below are under ext/hyper_ruby/src.
--
-- A stream connection of syslog starts with an optional PROXY header and goes on with messages
-- framed by RFC 6587, by octet counts or lines. A task for each connection delivers the messages to
-- the workers, one at a time and again until a handler accepts. HTTP requests are collected, queued
-- to the same workers and answered with what comes back. A worker takes its work from two channels.
--
-- * Syslog/Proxy is syslog/proxy.rs: `parse`. Syslog/Proxy/RoundTrip has `v2_header`, the writer of
--   the tests there, as the sender. Syslog/ProxyReader is `read_proxy_header` of syslog.rs over the
--   list of what its reads give; it is `none` where that list ends first.
-- * Syslog/Framing is syslog/framing.rs: `Framer` with `decode` and `decode_eof`. A step takes the
--   framer and the buffer, and gives back both with the result. Syslog/Framing/Lines states what
--   the framer uses of the line codec of tokio-util. Syslog/Framing/Stream feeds a stream in reads;
--   its Sent is what senders put on it, and its Ready and Mixed what the framer makes of that.
--   Syslog/Framing/Encode writes a message with its length in front.
-- * Syslog/Counters is `SyslogCounters` of syslog.rs, Syslog/Config is `SyslogConfig`. Syslog/Gauge
--   has the gauge of pending messages with all that changes it, one atomic operation to a step,
--   also the drain that gives up.
-- * Syslog/Delivery is `Dispatcher::deliver` and `deliver_stream_messages` of syslog.rs. An
--   `Answer` is what the queue, the handler and the shutdown token make of one attempt.
-- * Syslog/Sockets is `bind_std_tcp` and `bind_std_udp` of syslog.rs, and `StreamListener::accept`.
-- * Syslog/Listener is the accept loop of `spawn_stream_listener` with `close_stream`, one atomic
--   operation to a step. Syslog/Connection is `serve_stream` of syslog.rs, with Opening for the
--   whole of it, Syslog/Datagrams is `serve_datagrams` with the tasks that it spawns, one
--   operation to a step.
--   Syslog/Message is what a handler sees of a message.
-- * Syslog/Runtime is `start` and `start_listeners` of syslog.rs with `SyslogRuntime`.
--   Server/Config is `ServerConfig` and `configure` of lib.rs with the logger; Server/Lifecycle is
--   `start` and `stop` over the fields of `Server`, where a runtime is the list of the tasks that
--   run in it.
-- * Server/Socket is `bind_unix_listener` and `remove_socket_file` of syslog.rs, which lib.rs does
--   in the same way, over a map from paths to the identities of files. Server/Socket/Servers has
--   several servers on one path, in any order of their starts and of the look and the removal of
--   their stops.
-- * Server/Connections is the server task that `start` of lib.rs spawns: the accept loop, the tasks
--   of the connections, and the wait for these, one turn of a `select!` to a step.
-- * Worker is the loop of `run_worker` and `call_block_with_syslog_message` of lib.rs. Worker/Loop
--   has the whole of `run_worker`, with Work for what it takes. Worker/Delivered puts a connection,
--   its delivery task and the verdicts of the block together, Worker/Served puts a request, its
--   handler and the response of the block together.
-- * Work is `next_work_item`, `next_http_work_item` and their helpers of lib.rs, over a record of
--   channels whose state stands for all that the other threads do.
-- * Grpc is the frames of grpc.rs. Http/Request is request.rs with `is_grpc_request` of grpc.rs,
--   and Http/Request/Fill and Http/Request/Body are its `fill_buffer` and `body`. Http/Response is
--   response.rs, Http/Handle is `handle_request` of lib.rs with the responses that it makes.
--   Http/Response/Received is what a client makes of a gRPC response. Http/Text has header maps and
--   the functions of `str` that are called.
-- * Rust has machine words, `str::from_utf8`, `str::parse` and decimal numbers; Common has the
--   shared lemmas. Tests has runs at concrete inputs, with a line codec of its own; its FramerRuns
--   and ProxyRuns are the unit tests of framing.rs and proxy.rs.
--
-- Bytes are numbers below 256; a definition that gets a larger one treats it as any other byte.
-- Counters and attempts wrap at their width, as in a release build; so does the end of a frame.
-- Parameters, since they are not code of the repository: the line codec, the channels, the Ruby
-- block, the conversions of Ruby values, `Semaphore::MAX_PERMITS`, `rb_str_modify_expand`,
-- `rb_str_buf_new`, `HeaderValue::to_str`, what the http crate takes as a header name, a header
-- value or a status, `IpAddr::to_string` and `form_urlencoded::parse`.
--
-- `decode_all` and `emit_all` have fuel for one call more than the buffer has bytes: a call that
-- hands over an octet counted frame takes at least one byte off the buffer. `to_string` has fuel
-- for one digit more than its number, `trim_start_matches` for one step to a byte of the text.
-- `worker_loop` and `take_items` are cut after a number of rounds. The other loops are over the
-- list of what the environment does, and say so in their type where this list may end first.
--
-- The identity of a file, its device and inode, is a number that no later file gets; the tasks of a
-- runtime end when it is dropped.
--
-- Not modelled: the definition of the Ruby classes in `init`, the tokio runtime and the connections
-- of hyper, which are libraries, and the GVL helpers, which are calls of the Ruby VM through
-- rb_sys.
pub mod Common
pub mod Rust
pub mod Server
pub mod Syslog
pub mod Grpc
pub mod Work
pub mod Worker
pub mod Http
pub mod Tests
