-- ===== src/Server/Lifecycle/Stopped.antt =====
-- What a stop leaves, whatever state the server was in.
use hyper_ruby.Common.{false, ◌≡◌, refl, none, Bool-cases, inl, inr}
use hyper_ruby.Server.Socket.{Files, remove_socket_file}
use hyper_ruby.Server.Lifecycle.{
  Server, is_unix, syslog_listening, Shutdown, drained, remove_syslog_file, awaited, stop,
}

-- Nothing runs, nothing listens, and the senders of both channels are gone, so that workers that
-- wait for work find the channels closed.
pub record IsStopped (s : Server) : Type 0 where
  pub tasks : s.runtime ≡ none
  pub requests : s.work_tx ≡ none
  pub messages : s.syslog_work_tx ≡ none
  pub signal : s.shutdown ≡ none
  pub syslog : syslog_listening s ≡ false

-- A stop of any server, also of one that never started or whose start failed, leaves it stopped; and
-- another stop, whatever has become of the files by then, changes neither the server nor a file.
pub stop-IsStopped :
    (o o' : Shutdown) (s : Server) (fs fs' : Files)
    → let s' = (stop o s fs).0 in IsStopped s' × (stop o' s' fs' ≡ (s', fs'))
unfolding stop drained remove_syslog_file awaited syslog_listening remove_socket_file
stop-IsStopped o o' s fs fs' = elim (Bool-cases (is_unix s)) [
  | inl unix ↦ rw unix (
    record { tasks = refl; requests = refl; messages = refl; signal = refl; syslog = refl },
    rw unix refl,
  )
  | inr tcp ↦ rw tcp (
    record { tasks = refl; requests = refl; messages = refl; signal = refl; syslog = refl },
    rw tcp refl,
  )
]
