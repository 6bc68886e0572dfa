-- ===== src/Worker/Loop.antt =====
-- ext/hyper_ruby/src/lib.rs, `run_worker` as a whole: the check that the server has started, and the
-- loop that takes an item, if there is one, and answers it.
use Prim.Native.String.{String}
use hyper_ruby.Common.{
  ℕ, zero, suc, ◌+◌, ◌≤◌, ◌<◌, Bool, true, false, ◌&&◌, [], ◌∷◌, List, map, Option, none, some, ◌≡◌,
  ◌⊎◌, refl, ap, ◌∙◌, arith, if◌then◌else◌, length, Bytes, Result, ok, err,
}
use hyper_ruby.Rust.Word.{u32_mod}
use hyper_ruby.Http.Request.{HyperRequest}
use hyper_ruby.Syslog.Delivery.{SyslogMessage}
use hyper_ruby.Work.{
  http, Channels, Taken, next_work_item, next_http_work_item, take_items, continue_with,
}
use hyper_ruby.Work.Closed.{AreClosed, merge, requests_of, messages_of, take_items-merge}
use hyper_ruby.Worker.{Argument, BlockResult, Processed, process, run_worker}

abbrev pub not_started : String
not_started = "Server must be started before running workers"

module _ (ch : Channels HyperRequest SyslogMessage) (to_str : Bytes → Option Bytes)
    (block : Argument → BlockResult) (syslog_enabled : Bool) (work_ratio : ℕ) where
  open ch use {Env}

  -- Without a syslog listener only the requests are looked at.
  unfoldable next_item : ℕ → Env → Taken ch
  next_item streak env =
      if syslog_enabled
      then next_work_item ch work_ratio streak env
      else next_http_work_item ch streak env

  -- The items that were answered, and whether the loop has ended.
  unfoldable after_next : Taken ch → (ℕ → Env → List Processed × Bool) → List Processed × Bool
  after_next (none, streak, env) more = ([], true)
  after_next (some item, streak, env) more =
      let (answered, ended) = more streak env in (process to_str block item ∷ answered, ended)

  -- The first `n` rounds.
  unfoldable pub worker_loop : ℕ → ℕ → Env → List Processed × Bool
  unfolding next_item after_next
  worker_loop zero streak env = ([], false)
  worker_loop (suc n) streak env = after_next (next_item streak env) (worker_loop n)

  -- With the two receivers, which are there once the server has started.
  unfoldable pub start_worker : Bool → Bool → ℕ → Env → Result String (List Processed × Bool)
  unfolding worker_loop
  start_worker work_rx syslog_rx n env =
      if work_rx && syslog_rx then ok (worker_loop n 0 env) else err not_started

module _ (ch : Channels HyperRequest SyslogMessage) (to_str : Bytes → Option Bytes)
    (block : Argument → BlockResult) (work_ratio : ℕ) where
  -- The rounds answer what they take, and have ended if they take less than they might.
  abbrev Follows : ℕ → ℕ → ch.Env → Type 0
  Follows n streak env =
      let items = take_items ch n work_ratio streak env in
      length items < n
      → worker_loop ch to_str block true work_ratio n streak env
        ≡ (run_worker to_str block items, true)

  after_next-Follows :
      (n : ℕ) (t : Taken ch)
      → ((streak : ℕ) (env : ch.Env) → Follows n streak env)
      → let items = continue_with ch t (take_items ch n work_ratio) in
        length items < suc n
        → after_next ch to_str block true work_ratio t
            (worker_loop ch to_str block true work_ratio n)
          ≡ (run_worker to_str block items, true)
  unfolding after_next continue_with run_worker
  after_next-Follows n (none, streak, env) f l = refl
  after_next-Follows n (some item, streak, env) f l = rw (f streak env (omega arith)) refl

  worker_loop-take_items : (n streak : ℕ) (env : ch.Env) → Follows n streak env
  unfolding worker_loop next_item take_items
  worker_loop-take_items zero streak env l = absurd (omega arith)
  worker_loop-take_items (suc n) streak env l =
      after_next-Follows n (next_work_item ch work_ratio streak env) (worker_loop-take_items n) l

  -- Without syslog: the requests, to the last.
  http_loop :
      (closed : AreClosed ch) (n streak : ℕ) (env : ch.Env) (rs : List HyperRequest)
      → closed.requests env ≡ rs
      → length rs < n
      → worker_loop ch to_str block false work_ratio n streak env
        ≡ (run_worker to_str block (map http rs), true)
  unfolding worker_loop next_item after_next next_http_work_item run_worker
  http_loop closed zero streak env rs e l = absurd (omega arith)
  http_loop closed (suc n) streak env [] e l =
      let (env', none_left) = closed.no_request env e in rw none_left refl
  http_loop closed (suc n) streak env (r ∷ rs) e l =
      let (env', got, e', _) = closed.request env r rs e in
      rw got (rw (http_loop closed n streak env' rs e' (omega arith)) refl)

module _ {R D : Type 0} where
  length-merge :
      (work_ratio streak : ℕ) (rs : List R) (ds : List D)
      → length (merge work_ratio streak rs ds) ≤ length rs + length ds
  unfolding merge
  length-merge work_ratio streak [] [] = omega arith
  length-merge work_ratio streak (r ∷ rs) [] = ground (arith, length-merge work_ratio 0 rs [])
  length-merge work_ratio streak [] (d ∷ ds) =
      ground (arith, length-merge work_ratio (streak + 1) [] ds)
  length-merge work_ratio streak (r ∷ rs) (d ∷ ds) = ground (
    arith,
    length-merge work_ratio (streak + 1) (r ∷ rs) ds,
    length-merge work_ratio 0 rs (d ∷ ds),
  )

-- Once both channels are closed, a worker that is the last to take from them ends, in any number of
-- rounds above that of the items still queued. Where syslog is enabled, it has answered the items that
-- `merge` takes out of the two queues and no more: all requests or all messages that were queued, so
-- that only one kind can be left behind. Where it is not, it has answered all requests, in order.
pub start_worker-ends :
    (ch : Channels HyperRequest SyslogMessage) (closed : AreClosed ch)
    (to_str : Bytes → Option Bytes) (block : Argument → BlockResult) (n work_ratio : ℕ)
    (env : ch.Env)
    → work_ratio < u32_mod
    → length (closed.requests env) + length (closed.deliveries env) < n
    → let items = merge work_ratio 0 (closed.requests env) (closed.deliveries env) in
      (start_worker ch to_str block true work_ratio true true n env
        ≡ ok (run_worker to_str block items, true))
      × ((requests_of items ≡ closed.requests env) ⊎ (messages_of items ≡ closed.deliveries env))
      × (start_worker ch to_str block false work_ratio true true n env
          ≡ ok (run_worker to_str block (map http (closed.requests env)), true))
unfolding start_worker
start_worker-ends ch closed to_str block n work_ratio env small l =
    let (same, one) = take_items-merge ch closed n work_ratio 0 env small l in
    let short = length-merge work_ratio 0 (closed.requests env) (closed.deliveries env) in
    let ended =
      worker_loop-take_items ch to_str block work_ratio n 0 env (omega (arith, ap length same)) in
    (
      ap ok (ended ∙ ap (λ x. (run_worker to_str block x, true)) same),
      rw same at one,
      ap ok (http_loop ch to_str block work_ratio closed n 0 env _ refl (omega arith)),
    )
