-- ===== src/Tests/HttpTask.antt =====
-- The server task with two connections.
use hyper_ruby.Common.{◌≡◌, ◌≢◌, inl, refl, true, none, some}
use hyper_ruby.Server.Connections.{
  accepting, draining, drained, HttpTask, start_task, has_age, update, accept, fail_to_accept,
  tell_aged, tell_watched, signal, leave_loop, go_away, finish, end_drain, Step, accepts, signals,
  leaves_loop, hears, finishes, Steps, here, after,
}
use hyper_ruby.Server.Connections.Signals.{IsServed, Steps-IsServed}
use hyper_ruby.Server.Connections.Drain.{Steps-drains, Steps-fail_to_accept}

-- The loop has ended while both connections are open.
abbrev ended : HttpTask
ended = leave_loop (signal (accept (some 60000) (accept (some 60000) start_task)))

ended-Steps : Steps (some 60000) start_task ended
unfolding accept signal
ended-Steps =
    after (after (after (after here (accepts refl)) (accepts refl)) signals)
      (leaves_loop (inl refl) (inl refl))

ended-draining : ended.phase ≡ draining
unfolding leave_loop
ended-draining = refl

ended_open : (ended.connections 0).open_now ≡ true
unfolding leave_loop signal accept update tell_aged tell_watched
ended_open = refl

Steps-drains_example :
    Step (some 60000) ended (end_drain drained ended)
    × ((end_drain drained ended).connections ≡ ended.connections)
Steps-drains_example = Steps-drains 60000 ended ended-Steps ended-draining

-- One of them has heard of the shutdown.
abbrev told : HttpTask
told = go_away 1 ended

told-Steps : Steps (some 60000) start_task told
unfolding leave_loop signal accept update tell_aged tell_watched has_age
told-Steps = after ended-Steps (hears 1 refl (inl refl) refl)

Steps-IsServed_example : IsServed (some 60000) told
Steps-IsServed_example = Steps-IsServed (some 60000) told told-Steps

-- An accept that fails after one that did not.
abbrev one : HttpTask
one = accept none start_task

one-accepting : one.phase ≡ accepting
unfolding accept
one-accepting = refl

abbrev failed_one : HttpTask
failed_one = finish 0 (signal (fail_to_accept one))

failed_one-Steps : Steps none (fail_to_accept one) failed_one
unfolding fail_to_accept signal accept update tell_aged
failed_one-Steps = after (after here signals) (finishes 0 refl)

Steps-fail_to_accept_example : (failed_one.phase ≢ accepting) × (failed_one.accepted ≡ one.accepted)
Steps-fail_to_accept_example =
    Steps-fail_to_accept none one failed_one one-accepting failed_one-Steps
