-- ===== src/Syslog/Runtime.antt =====
-- ext/hyper_ruby/src/syslog.rs, `start`, `start_listeners` and `SyslogRuntime`: how the listeners
-- come up, and how they are drained. What the system makes of the binding is the environment's.
use hyper_ruby.Common.{
  ℕ, Bool, true, false, not, [], ◌∷◌, ◌++◌, List, Option, none, some, if◌then◌else◌, Bytes, Result,
  ok, err,
}
use hyper_ruby.Syslog.Config.{SyslogConfig}
use hyper_ruby.Syslog.Counters.{SyslogCounters, fetch_add}
use hyper_ruby.Server.Socket.{Files, Outcomes, SocketError, bind_unix_listener, remove_socket_file}

-- The tasks that listen.
pub data ListenerTask : Type 0 where
  unix_streams tcp_streams datagrams : ListenerTask

pub data StartError : Type 0 where
  socket_error : SocketError → StartError
  invalid_input io_error : StartError

-- Whether an address can be parsed and bound, and what becomes of the socket file.
pub record Binding : Type 0 where
  pub socket : Outcomes
  pub tmp_path : Bytes
  pub tcp_parses : Bool
  pub tcp_binds : Bool
  pub udp_parses : Bool
  pub udp_binds : Bool

-- How far the start has come: the error that ended it, the tasks that it has spawned, the files,
-- and the socket that it has bound.
pub record Starting : Type 0 where
  pub error : Option StartError
  pub spawned : List ListenerTask
  pub files : Files
  pub socket_path : Option Bytes
  pub socket_ident : Option ℕ

abbrev pub not_started : Files → Starting
not_started fs = record {
  error = none;
  spawned = [];
  files = fs;
  socket_path = none;
  socket_ident = none;
}

unfoldable pub spawn_unix : Bytes → Result SocketError (Option ℕ) × Files → Starting → Starting
spawn_unix path (ok ident, fs) st = record st {
  spawned = st.spawned ++ (unix_streams ∷ []);
  files = fs;
  socket_path = some path;
  socket_ident = ident;
}
spawn_unix path (err e, fs) st = record st { error = some (socket_error e); files = fs }

unfoldable pub listen_unix : Binding → Option Bytes → Starting → Starting
unfolding spawn_unix
listen_unix b none st = st
listen_unix b (some path) st =
    spawn_unix path (bind_unix_listener b.socket b.tmp_path path st.files) st

-- A listener on an address.
unfoldable pub listen_at : ListenerTask → Bool → Bool → Option Bytes → Starting → Starting
listen_at task parses binds none st = st
listen_at task parses binds (some address) st =
    if not parses
    then record st { error = some invalid_input }
    else if not binds
    then record st { error = some io_error }
    else record st { spawned = st.spawned ++ (task ∷ []) }

-- `?`: after an error nothing more is started.
unfoldable pub unless_failed : Option StartError → Starting → Starting → Starting
unless_failed none next st = next
unless_failed (some e) next st = st

unfoldable pub start_listeners : Binding → SyslogConfig → Files → Starting
unfolding listen_unix listen_at unless_failed
start_listeners b c fs =
    let unix = listen_unix b c.stream_path (not_started fs) in
    let tcp =
      unless_failed unix.error (listen_at tcp_streams b.tcp_parses b.tcp_binds c.stream_bind unix)
        unix in
    unless_failed tcp.error (listen_at datagrams b.udp_parses b.udp_binds c.udp_bind tcp) tcp

pub record SyslogRuntime : Type 0 where
  pub is_listening : Bool
  pub is_cancelled : Bool
  pub socket_path : Option Bytes
  pub socket_ident : Option ℕ

-- `remove_socket_file`, where there may be no path.
unfoldable pub remove_own_file : Bool → Option Bytes → Option ℕ → Files → Files
remove_own_file removed none ident fs = fs
remove_own_file removed (some path) ident fs = remove_socket_file removed path ident fs

-- What a start gives: the runtime or the error, and the tasks that run.
pub record Started : Type 0 where
  pub result : Result StartError SyslogRuntime
  pub running : List ListenerTask
  pub files : Files

unfoldable pub finish_start : Bool → Option StartError → Starting → Started
unfolding remove_own_file
finish_start removed none st = record {
  result = ok (record {
    is_listening = true;
    is_cancelled = false;
    socket_path = st.socket_path;
    socket_ident = st.socket_ident;
  });
  running = st.spawned;
  files = st.files;
}
finish_start removed (some e) st = record {
  result = err e;
  running = st.spawned;
  files = remove_own_file removed st.socket_path st.socket_ident st.files;
}

unfoldable pub start : Binding → SyslogConfig → Files → Started
unfolding start_listeners finish_start
start b c fs = let st = start_listeners b c fs in finish_start b.socket.removed st.error st

unfoldable pub stop_accepting : SyslogRuntime → SyslogRuntime
stop_accepting r = record r { is_listening = false; is_cancelled = true }

-- The statistics where the drain runs out of time: what still waits is abandoned.
unfoldable pub abandon_undelivered : SyslogCounters → SyslogCounters
abandon_undelivered c = record c {
  abandoned_at_shutdown = fetch_add c.abandoned_at_shutdown c.pending;
  pending = 0;
}

unfoldable pub drain : Bool → SyslogRuntime → SyslogCounters → SyslogRuntime × SyslogCounters
unfolding stop_accepting abandon_undelivered
drain timed_out r c = (stop_accepting r, if timed_out then abandon_undelivered c else c)
