-- ===== src/Server/Connections.antt =====
-- ext/hyper_ruby/src/lib.rs, the server task that `start` spawns: the loop that accepts, the tasks
-- of its connections, and the wait for these at a shutdown. What clients and timers do is the
-- environment's; each turn of a `select!` is a step.
pub mod Signals
pub mod Drain
use hyper_ruby.Common.{
  ℕ, ◌+◌, ◌<◌, Bool, true, false, not, ◌&&◌, ◌||◌, ◌==◌, ◌≡◌, ◌⊎◌, Option, none, some,
  if◌then◌else◌,
}
use hyper_ruby.Syslog.Counters.{fetch_add}

-- A connection of a task with `max_connection_age`, which is `aged`, or of the graceful shutdown
-- watcher; whether it is still served; whether a signal of the shutdown waits in its receiver;
-- `graceful_shutdown_started`; and, for reference, how often `graceful_shutdown()` was called.
pub record Connection : Type 0 where
  pub aged : Bool
  pub open_now : Bool
  pub told : Bool
  pub started : Bool
  pub goaways : ℕ

-- The loop accepts; or an accept has failed, so that the other branch of `select!` is all that is
-- left to wait for; or it has ended and the connections are waited for; or the wait is over.
pub data Phase : Type 0 where
  accepting deaf draining drained timed_out : Phase

-- The server task. The connections are numbered as they come; a signal of the shutdown may wait in
-- the receiver of the loop; and all senders of the signal may be gone.
pub record HttpTask : Type 0 where
  pub phase : Phase
  pub connections : ℕ → Connection
  pub accepted : ℕ
  pub total_connections : ℕ
  pub signalled : Bool
  pub senders_gone : Bool

abbrev pub absent : Connection
absent = record { aged = false; open_now = false; told = false; started = false; goaways = 0 }

abbrev pub start_task : HttpTask
start_task = record {
  phase = accepting;
  connections = λ i. absent;
  accepted = 0;
  total_connections = 0;
  signalled = false;
  senders_gone = false;
}

unfoldable pub has_age : Option ℕ → Bool
has_age none = false
has_age (some ms) = true

unfoldable pub update : ℕ → Connection → (ℕ → Connection) → ℕ → Connection
update i c conns j = if i == j then c else conns j

-- A new receiver gets the signals that are sent from here on.
unfoldable pub accept : Option ℕ → HttpTask → HttpTask
unfolding has_age update
accept max_age s = record s {
  connections =
      update s.accepted (record absent { aged = has_age max_age; open_now = true }) s.connections;
  accepted = s.accepted + 1;
  total_connections = fetch_add s.total_connections 1;
}

-- `Ok((stream, _)) = listener.accept()` on an error.
unfoldable pub fail_to_accept : HttpTask → HttpTask
fail_to_accept s = record s { phase = deaf }

unfoldable pub tell_aged : Connection → Connection
tell_aged c = record c { told = if c.aged then c.open_now || c.told else c.told }

unfoldable pub tell_watched : Connection → Connection
tell_watched c = record c { told = if c.aged then c.told else c.open_now || c.told }

-- `shutdown.send(())` of `stop`: to the loop, and to the tasks with an age.
unfoldable pub signal : HttpTask → HttpTask
unfolding tell_aged
signal s = record s { signalled = true; connections = λ i. tell_aged (s.connections i) }

-- `break`, and then `graceful_shutdown.shutdown()`, which tells the connections that are watched.
unfoldable pub leave_loop : HttpTask → HttpTask
unfolding tell_watched
leave_loop s = record s { phase = draining; connections = λ i. tell_watched (s.connections i) }

-- `graceful_shutdown` of a connection.
unfoldable pub go_away : ℕ → HttpTask → HttpTask
unfolding update
go_away i s = record s {
  connections =
      update i
        (record (s.connections i) { started = true; goaways = (s.connections i).goaways + 1 })
        s.connections;
}

unfoldable pub finish : ℕ → HttpTask → HttpTask
unfolding update
finish i s = record s {
  connections = update i (record (s.connections i) { open_now = false }) s.connections;
}

unfoldable pub end_drain : Phase → HttpTask → HttpTask
end_drain phase s = record s { phase = phase }

-- The connections that are waited for.
abbrev pub AllWatchedDone : HttpTask → Type 0
AllWatchedDone s = (i : ℕ) → (s.connections i).aged ≡ false → (s.connections i).open_now ≡ false

-- The guard of the branch that takes a signal, or finds that there is no sender any more.
abbrev pub Hears : HttpTask → Connection → Type 0
Hears s c = (c.told ≡ true) ⊎ ((c.aged ≡ true) × (s.senders_gone ≡ true))

pub data Step (max_age : Option ℕ) : HttpTask → HttpTask → Type 0 where
  accepts : {s : HttpTask} → s.phase ≡ accepting → Step max_age s (accept max_age s)
  fails_to_accept : {s : HttpTask} → s.phase ≡ accepting → Step max_age s (fail_to_accept s)
  signals : {s : HttpTask} → Step max_age s (signal s)
  leaves_loop :
      {s : HttpTask}
      → (s.phase ≡ accepting) ⊎ (s.phase ≡ deaf)
      → (s.signalled ≡ true) ⊎ (s.senders_gone ≡ true)
      → Step max_age s (leave_loop s)
  ages :
      {s : HttpTask} (i : ℕ)
      → (s.connections i).open_now ≡ true
      → (s.connections i).aged ≡ true
      → (s.connections i).started ≡ false
      → Step max_age s (go_away i s)
  hears :
      {s : HttpTask} (i : ℕ)
      → (s.connections i).open_now ≡ true
      → Hears s (s.connections i)
      → (s.connections i).started ≡ false
      → Step max_age s (go_away i s)
  finishes :
      {s : HttpTask} (i : ℕ) → (s.connections i).open_now ≡ true → Step max_age s (finish i s)
  drains :
      {s : HttpTask} → s.phase ≡ draining → AllWatchedDone s → Step max_age s (end_drain drained s)
  times_out : {s : HttpTask} → s.phase ≡ draining → Step max_age s (end_drain timed_out s)
  drops_senders :
      {s : HttpTask}
      → (s.phase ≡ drained) ⊎ (s.phase ≡ timed_out)
      → Step max_age s (record s { senders_gone = true })

-- Zero or more steps.
pub data Steps (max_age : Option ℕ) : HttpTask → HttpTask → Type 0 where
  here : {s : HttpTask} → Steps max_age s s
  after : {s t u : HttpTask} → Steps max_age s t → Step max_age t u → Steps max_age s u
