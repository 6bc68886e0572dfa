-- ===== src/Server/Lifecycle/Failed.antt =====
-- What runs after a start, also after one that returns an error.
use hyper_ruby.Common.{
  ℕ, true, [], ◌∷◌, ◌≡◌, refl, List, map, Option, none, some, Bool-cases, inl, inr, Result, ok, err,
}
use hyper_ruby.Syslog.Config.{enabled}
use hyper_ruby.Syslog.Runtime
use hyper_ruby.Syslog.Runtime.{ListenerTask, StartError, Started}
use hyper_ruby.Server.Socket.{Files, SocketError, bind_unix_listener}
use hyper_ruby.Server.Lifecycle.{
  http_server, listener, Server, Startup, ServerError, no_runtime, bad_address, not_bound,
  no_socket, no_syslog, is_unix, socket_path, make_channels, run_task, run_tasks, syslog_started,
  listening, unix_bound, bind_and_listen, start,
}

-- The runtime has the server task, and listeners of syslog.
abbrev pub Serves : Server → Type 0
Serves s = (tasks : List ListenerTask) × (s.runtime ≡ some (http_server ∷ map listener tasks))

-- What a start of `s` leaves, by the error that it returns.
abbrev pub Leaves : Server → Option ServerError → Server → Type 0
Leaves s none s' = Serves s' × (s'.server_handle ≡ true)
Leaves s (some (no_syslog e)) s' =
    Serves s' × (s'.server_handle ≡ s.server_handle) × (s'.syslog_runtime ≡ s.syslog_runtime)
Leaves s (some no_runtime) s' = s'.runtime ≡ s.runtime
Leaves s (some bad_address) s' = s'.runtime ≡ some []
Leaves s (some not_bound) s' = s'.runtime ≡ some []
Leaves s (some (no_socket e)) s' = s'.runtime ≡ some []

module _ (s : Server) where
  syslog_started-Leaves :
      (r : Server) (st : Started) (result : Result StartError Runtime.SyslogRuntime)
      → r.runtime ≡ some (http_server ∷ [])
      → r.server_handle ≡ s.server_handle
      → r.syslog_runtime ≡ s.syslog_runtime
      → let c = syslog_started r (record st { result = result }) in Leaves s c.error c.server
  unfolding syslog_started run_tasks
  syslog_started-Leaves r st (ok x) run handle syslog = ((st.running, rw run refl), refl)
  syslog_started-Leaves r st (err e) run handle syslog = ((st.running, rw run refl), handle, syslog)

  listening-Leaves :
      (o : Startup) (r : Server) (fs : Files)
      → r.runtime ≡ some []
      → r.server_handle ≡ s.server_handle
      → r.syslog_runtime ≡ s.syslog_runtime
      → let c = listening o r fs in Leaves s c.error c.server
  unfolding listening run_task
  listening-Leaves o r fs run handle syslog = elim (Bool-cases (enabled r.config.syslog)) [
    | inl with_syslog ↦
        let st = Runtime.start o.syslog r.config.syslog fs in
        rw with_syslog (
          syslog_started-Leaves (record r { runtime = run_task http_server r.runtime }) st st.result
            (rw run refl) handle syslog)
    | inr without ↦ rw without (([], rw run refl), refl)
  ]

  unix_bound-Leaves :
      (o : Startup) (r : Server) (b : Result SocketError (Option ℕ) × Files)
      → r.runtime ≡ some []
      → r.server_handle ≡ s.server_handle
      → r.syslog_runtime ≡ s.syslog_runtime
      → let c = unix_bound o r b in Leaves s c.error c.server
  unfolding unix_bound
  unix_bound-Leaves o r (ok ident, fs) run handle syslog =
      listening-Leaves o (record r { socket_ident = ident }) fs run handle syslog
  unix_bound-Leaves o r (err e, fs) run handle syslog = run

  bind_and_listen-Leaves :
      (o : Startup) (r : Server) (fs : Files)
      → r.runtime ≡ some []
      → r.server_handle ≡ s.server_handle
      → r.syslog_runtime ≡ s.syslog_runtime
      → let c = bind_and_listen o r fs in Leaves s c.error c.server
  unfolding bind_and_listen
  bind_and_listen-Leaves o r fs run handle syslog = elim (Bool-cases (is_unix r)) [
    | inl unix ↦ rw unix (
        unix_bound-Leaves o r (bind_unix_listener o.socket o.tmp_path (socket_path r) fs) run handle
          syslog)
    | inr tcp ↦ elim (Bool-cases o.address_parses) [
      | inl parses ↦ elim (Bool-cases o.address_binds) [
        | inl binds ↦ rw (tcp, parses, binds) (listening-Leaves o r fs run handle syslog)
        | inr fails ↦ rw (tcp, parses, fails) run
      ]
      | inr bad ↦ rw (tcp, bad) run
    ]
  ]

-- What runs after a start. One that succeeds leaves the server task running. So does one that
-- returns the error of the syslog listeners: the server goes on accepting requests, with no handle
-- on its task. After any other error no task runs in the new runtime, or the runtime is the old one
-- if none could be built.
pub start-Leaves :
    (o : Startup) (s : Server) (fs : Files) → let c = start o s fs in Leaves s c.error c.server
unfolding start make_channels
start-Leaves o s fs = elim (Bool-cases o.runtime_builds) [
  | inl builds ↦ rw builds (
      bind_and_listen-Leaves s o (record (make_channels s) { runtime = some [] }) fs refl refl refl)
  | inr fails ↦ rw fails refl
]
