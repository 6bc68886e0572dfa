-- ===== src/Server/Connections/Drain.antt =====
-- Which connections a shutdown waits for, and what a failed accept does.
use hyper_ruby.Common.{ℕ, ◌≡◌, ◌≢◌, refl, arith, Option, some}
use hyper_ruby.Server.Connections.{
  accepting, draining, drained, HttpTask, start_task, has_age, AllWatchedDone, accept,
  fail_to_accept, signal, leave_loop, go_away, finish, end_drain, Step, accepts, fails_to_accept,
  signals, leaves_loop, ages, hears, finishes, drains, times_out, drops_senders, Steps, here, after,
}
use hyper_ruby.Server.Connections.Signals.{IsServed, Steps-IsServed}

-- With an age, no connection that was accepted is watched.
aged-AllWatchedDone : (ms : ℕ) (s : HttpTask) → IsServed (some ms) s → AllWatchedDone s
unfolding has_age
aged-AllWatchedDone ms s v i a = ground (arith, v.mode i, v.known i)

-- With `max_connection_age`, the shutdown waits for no connection: as soon as the loop has ended, the
-- wait may end as well, in time, whichever connections are still open, and they are left as they are.
pub Steps-drains :
    (ms : ℕ) (s : HttpTask)
    → Steps (some ms) start_task s
    → s.phase ≡ draining
    → Step (some ms) s (end_drain drained s) × ((end_drain drained s).connections ≡ s.connections)
unfolding end_drain
Steps-drains ms s steps p =
    (drains p (aged-AllWatchedDone ms s (Steps-IsServed (some ms) s steps)), refl)

-- The loop does not accept, and has accepted `n`.
abbrev IsClosed : ℕ → HttpTask → Type 0
IsClosed n s = (s.phase ≢ accepting) × (s.accepted ≡ n)

Step-IsClosed :
    {n : ℕ} {max_age : Option ℕ} {s t : HttpTask} → Step max_age s t → IsClosed n s → IsClosed n t
unfolding accept fail_to_accept signal leave_loop go_away finish end_drain
Step-IsClosed (accepts p) (n, a) = absurd (n p)
Step-IsClosed (fails_to_accept p) (n, a) = absurd (n p)
Step-IsClosed signals v = v
Step-IsClosed (leaves_loop p g) (n, a) = (ground arith, a)
Step-IsClosed (ages j o b n) v = v
Step-IsClosed (hears j o g n) v = v
Step-IsClosed (finishes j o) v = v
Step-IsClosed (drains p d) (n, a) = (ground arith, a)
Step-IsClosed (times_out p) (n, a) = (ground arith, a)
Step-IsClosed (drops_senders p) v = v

Steps-IsClosed :
    (n : ℕ) (max_age : Option ℕ) (s t : HttpTask) → IsClosed n s → Steps max_age s t → IsClosed n t
Steps-IsClosed n max_age s t closed here = closed
Steps-IsClosed n max_age s t closed (after {t = before} steps step) =
    Step-IsClosed step (Steps-IsClosed n max_age s before closed steps)

-- One accept that fails is the last: whatever happens after it, the server accepts no connection any
-- more, though nothing has asked it to shut down.
pub Steps-fail_to_accept :
    (max_age : Option ℕ) (s t : HttpTask)
    → s.phase ≡ accepting
    → Steps max_age (fail_to_accept s) t
    → (t.phase ≢ accepting) × (t.accepted ≡ s.accepted)
unfolding fail_to_accept
Steps-fail_to_accept max_age s t p steps =
    Steps-IsClosed s.accepted max_age (fail_to_accept s) t (ground arith, refl) steps
