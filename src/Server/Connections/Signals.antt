-- ===== src/Server/Connections/Signals.antt =====
-- What each connection is told, and how the loop ends.
use hyper_ruby.Common.{ℕ, ◌%◌, ◌<◌, ◌≤◌, false, ◌≡◌, refl, arith, Option, if◌then◌else◌}
use hyper_ruby.Rust.Word.{usize_mod}
use hyper_ruby.Syslog.Counters.{fetch_add}
use hyper_ruby.Server.Connections.{
  Connection, drained, HttpTask, start_task, has_age, update, accept, fail_to_accept, tell_aged,
  tell_watched, signal, leave_loop, go_away, finish, end_drain, Step, accepts, fails_to_accept,
  signals, leaves_loop, ages, hears, finishes, drains, times_out, drops_senders, Steps, here, after,
}

-- A connection is told to go away at most once, and only its own task does so.
abbrev pub IsSignalled : Connection → Type 0
IsSignalled c = c.goaways ≡ (if c.started then 1 else 0)

-- All connections were accepted and counted, and have the mode of the configuration; and once a wait
-- has ended in time, no watched connection is open.
pub record IsServed (max_age : Option ℕ) (s : HttpTask) : Type 0 where
  pub once : (i : ℕ) → IsSignalled (s.connections i)
  pub known : (i : ℕ) → s.accepted ≤ i → (s.connections i).open_now ≡ false
  pub mode : (i : ℕ) → i < s.accepted → (s.connections i).aged ≡ has_age max_age
  pub total : s.total_connections ≡ s.accepted % usize_mod
  pub done :
      s.phase ≡ drained
      → (i : ℕ) → (s.connections i).aged ≡ false
      → (s.connections i).open_now ≡ false

Step-IsServed :
    {max_age : Option ℕ} {s s' : HttpTask}
    → Step max_age s s'
    → IsServed max_age s
    → IsServed max_age s'
unfolding accept fail_to_accept signal leave_loop go_away finish end_drain update tell_aged
    tell_watched fetch_add
Step-IsServed (accepts p) v = record {
  once = λ i. ground (arith, v.once i);
  known = λ i h. ground (arith, v.known i);
  mode = λ i h. ground (arith, v.mode i);
  total = omega (arith, v.total);
  done = λ e i a. ground arith;
}
Step-IsServed (fails_to_accept p) v = record {
  once = λ i. v.once i;
  known = λ i h. v.known i h;
  mode = λ i h. v.mode i h;
  total = v.total;
  done = λ e i a. ground arith;
}
Step-IsServed signals v = record {
  once = λ i. v.once i;
  known = λ i h. v.known i h;
  mode = λ i h. v.mode i h;
  total = v.total;
  done = λ e i a. v.done e i a;
}
Step-IsServed (leaves_loop p g) v = record {
  once = λ i. v.once i;
  known = λ i h. v.known i h;
  mode = λ i h. v.mode i h;
  total = v.total;
  done = λ e i a. ground arith;
}
Step-IsServed (ages j o b n) v = record {
  once = λ i. ground (arith, v.once i, v.once j);
  known = λ i h. ground (arith, v.known i);
  mode = λ i h. ground (arith, v.mode i);
  total = v.total;
  done = λ e i a. ground (arith, v.done e i, v.done e j);
}
Step-IsServed (hears j o g n) v = record {
  once = λ i. ground (arith, v.once i, v.once j);
  known = λ i h. ground (arith, v.known i);
  mode = λ i h. ground (arith, v.mode i);
  total = v.total;
  done = λ e i a. ground (arith, v.done e i, v.done e j);
}
Step-IsServed (finishes j o) v = record {
  once = λ i. ground (arith, v.once i, v.once j);
  known = λ i h. ground (arith, v.known i);
  mode = λ i h. ground (arith, v.mode i);
  total = v.total;
  done = λ e i a. ground (arith, v.done e i, v.done e j);
}
Step-IsServed (drains p d) v = record {
  once = λ i. v.once i;
  known = λ i h. v.known i h;
  mode = λ i h. v.mode i h;
  total = v.total;
  done = λ e i a. d i a;
}
Step-IsServed (times_out p) v = record {
  once = λ i. v.once i;
  known = λ i h. v.known i h;
  mode = λ i h. v.mode i h;
  total = v.total;
  done = λ e i a. ground arith;
}
Step-IsServed (drops_senders p) v = record {
  once = λ i. v.once i;
  known = λ i h. v.known i h;
  mode = λ i h. v.mode i h;
  total = v.total;
  done = λ e i a. v.done e i a;
}

start_task-IsServed : (max_age : Option ℕ) → IsServed max_age start_task
start_task-IsServed max_age = record {
  once = λ i. refl;
  known = λ i h. refl;
  mode = λ i h. ground arith;
  total = refl;
  done = λ e i a. refl;
}

-- However clients, timers, accepts and the shutdown interleave: each connection is told at most once
-- to go away; every connection was accepted and counted, with the mode that the configuration gives;
-- and if the wait at the shutdown ended before its time was up, no connection without an age is
-- open.
pub Steps-IsServed :
    (max_age : Option ℕ) (s : HttpTask) → Steps max_age start_task s → IsServed max_age s
Steps-IsServed max_age s here = start_task-IsServed max_age
Steps-IsServed max_age s (after {t = before} steps step) =
    Step-IsServed step (Steps-IsServed max_age before steps)
