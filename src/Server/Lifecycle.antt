-- ===== src/Server/Lifecycle.antt =====
-- ext/hyper_ruby/src/lib.rs, `Server`: what `start` and `stop` do to the server, to the tasks of its
-- runtime and to the socket files. What the system makes of the calls is the environment's.
pub mod Failed
pub mod Stopped
use hyper_ruby.Common.{
  ℕ, zero, suc, ◌+◌, Bool, true, false, not, ◌&&◌, ◌||◌, [], ◌∷◌, ◌++◌, List, map, Option, none,
  some, if◌then◌else◌, length, drop, Bytes, Result, ok, err,
}
use hyper_ruby.Http.Text.{codes, starts_with}
use hyper_ruby.Syslog.Config.{SyslogConfig, enabled}
use hyper_ruby.Syslog.Counters.{SyslogCounters, default}
use hyper_ruby.Syslog.Runtime
use hyper_ruby.Syslog.Runtime.{
  ListenerTask, Binding, StartError, Started, SyslogRuntime, drain, stop_accepting, remove_own_file,
}
use hyper_ruby.Server.Config.{ServerConfig, default_server_config}
use hyper_ruby.Server.Socket.{Files, Outcomes, SocketError, bind_unix_listener, remove_socket_file}

-- `trim_start_matches(prefix)`: every prefix is taken off. The text gets shorter each time, so its
-- length is enough.
unfoldable pub trim_from : ℕ → Bytes → Bytes → Bytes
trim_from zero prefix text = text
trim_from (suc fuel) prefix text =
    let rest = trim_from fuel prefix (drop (length prefix) text) in
    if starts_with text prefix then rest else text

unfoldable pub trim_start_matches : Bytes → Bytes → Bytes
unfolding trim_from
trim_start_matches prefix text = trim_from (length text) prefix text

-- The tasks of a runtime: the server task, and the syslog listeners.
pub data Task : Type 0 where
  http_server : Task
  listener : ListenerTask → Task

-- The state of a `Server`. A channel is the number of the start that made it. A runtime is the tasks
-- that it runs; they end when it is dropped.
pub record Server : Type 0 where
  pub config : ServerConfig
  pub starts : ℕ
  pub work_rx : Option ℕ
  pub work_tx : Option ℕ
  pub syslog_work_rx : Option ℕ
  pub syslog_work_tx : Option ℕ
  pub runtime : Option (List Task)
  pub shutdown : Option ℕ
  pub server_handle : Bool
  pub socket_ident : Option ℕ
  pub counters : SyslogCounters
  pub syslog_runtime : Option SyslogRuntime

-- `Server::new`
unfoldable pub new_server : Server
new_server = record {
  config = default_server_config;
  starts = 0;
  work_rx = none;
  work_tx = none;
  syslog_work_rx = none;
  syslog_work_tx = none;
  runtime = none;
  shutdown = none;
  server_handle = false;
  socket_ident = none;
  counters = default;
  syslog_runtime = none;
}

-- What the system makes of a start.
pub record Startup : Type 0 where
  pub runtime_builds : Bool
  pub socket : Outcomes
  pub tmp_path : Bytes
  pub address_parses : Bool
  pub address_binds : Bool
  pub syslog : Binding

pub data ServerError : Type 0 where
  no_runtime bad_address not_bound : ServerError
  no_socket : SocketError → ServerError
  no_syslog : StartError → ServerError

-- A server with the files, and the error of the call, if it had one.
pub record Called : Type 0 where
  pub server : Server
  pub files : Files
  pub error : Option ServerError

abbrev pub unix_prefix : Bytes
unix_prefix = codes "unix:"

abbrev pub is_unix : Server → Bool
is_unix s = starts_with s.config.bind_address unix_prefix

abbrev pub socket_path : Server → Bytes
socket_path s = trim_start_matches unix_prefix s.config.bind_address

-- The channels are made before anything can fail.
unfoldable pub make_channels : Server → Server
make_channels s = record s {
  starts = s.starts + 1;
  work_rx = some s.starts;
  work_tx = some s.starts;
  syslog_work_rx = some s.starts;
  syslog_work_tx = some s.starts;
  shutdown = some s.starts;
}

unfoldable pub run_task : Task → Option (List Task) → Option (List Task)
run_task task none = none
run_task task (some tasks) = some (tasks ++ (task ∷ []))

unfoldable pub run_tasks : List ListenerTask → Option (List Task) → Option (List Task)
run_tasks tasks none = none
run_tasks tasks (some running) = some (running ++ map listener tasks)

-- The syslog listeners have been started, or not.
unfoldable pub syslog_started : Server → Started → Called
unfolding run_tasks
syslog_started s st = elim st.result [
  | ok r ↦ record {
    server = record s {
      runtime = run_tasks st.running s.runtime;
      syslog_runtime = some r;
      server_handle = true;
    };
    files = st.files;
    error = none;
  }
  | err e ↦ record {
    server = record s { runtime = run_tasks st.running s.runtime };
    files = st.files;
    error = some (no_syslog e);
  }
]

-- The listener is bound: the server task runs from here on.
unfoldable pub listening : Startup → Server → Files → Called
unfolding run_task syslog_started
listening o s fs =
    let running = record s { runtime = run_task http_server s.runtime } in
    if enabled s.config.syslog
    then syslog_started running (Runtime.start o.syslog s.config.syslog fs)
    else record { server = record running { server_handle = true }; files = fs; error = none }

unfoldable pub unix_bound : Startup → Server → Result SocketError (Option ℕ) × Files → Called
unfolding listening
unix_bound o s (ok ident, fs) = listening o (record s { socket_ident = ident }) fs
unix_bound o s (err e, fs) = record { server = s; files = fs; error = some (no_socket e) }

-- A new runtime takes the place of one that is still there, whose tasks end.
unfoldable pub bind_and_listen : Startup → Server → Files → Called
unfolding unix_bound
bind_and_listen o s fs =
    if is_unix s
    then unix_bound o s (bind_unix_listener o.socket o.tmp_path (socket_path s) fs)
    else if not o.address_parses
    then record { server = s; files = fs; error = some bad_address }
    else if not o.address_binds
    then record { server = s; files = fs; error = some not_bound }
    else listening o s fs

unfoldable pub start : Startup → Server → Files → Called
unfolding make_channels bind_and_listen
start o s fs =
    let made = make_channels s in
    if o.runtime_builds
    then bind_and_listen o (record made { runtime = some [] }) fs
    else record { server = made; files = fs; error = some no_runtime }

-- `syslog_listening`
unfoldable pub syslog_listening : Server → Bool
syslog_listening s = elim s.syslog_runtime [ some r ↦ r.is_listening | none ↦ false ]

-- What the system makes of a stop: whether the drain runs out of time, and whether files can be
-- removed.
pub record Shutdown : Type 0 where
  pub times_out : Bool
  pub removed : Bool

-- The statistics after the drain, where there is a runtime.
unfoldable pub drained :
    Bool → Option (List Task) → Option SyslogRuntime → SyslogCounters → SyslogCounters
drained times_out (some tasks) (some r) c = (drain times_out r c).1
drained times_out _ _ c = c

unfoldable pub remove_syslog_file : Bool → Option SyslogRuntime → Files → Files
remove_syslog_file removed none fs = fs
remove_syslog_file removed (some r) fs = remove_own_file removed r.socket_path r.socket_ident fs

-- Only with a runtime is there something to wait for.
unfoldable pub awaited : Option (List Task) → Bool → Bool
awaited none handle = handle
awaited (some tasks) handle = false

unfoldable pub stop : Shutdown → Server → Files → Server × Files
unfolding drained remove_syslog_file awaited
stop o s fs =
    let fs' = remove_syslog_file o.removed s.syslog_runtime fs in
    let stopped = record s {
      counters = drained o.times_out s.runtime s.syslog_runtime s.counters;
      syslog_runtime = none;
      server_handle = awaited s.runtime s.server_handle;
      work_tx = none;
      syslog_work_tx = none;
      runtime = none;
      shutdown = none;
    } in
    if is_unix s
    then (
      record stopped { socket_ident = none },
      remove_socket_file o.removed (socket_path s) s.socket_ident fs',
    )
    else (stopped, fs')
