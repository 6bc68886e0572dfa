-- ===== src/Work.antt =====
-- ext/hyper_ruby/src/lib.rs, the part of a Ruby worker thread that takes its work: HTTP requests
-- and syslog messages have channels of their own. The channels are crossbeam's, a parameter.
pub mod Fair
pub mod Closed
use hyper_ruby.Common.{
  ℕ, zero, suc, ◌+◌, ◌%◌, Bool, true, false, [], ◌∷◌, List, Option, none, some, ltb, if◌then◌else◌,
}
use hyper_ruby.Rust.Word.{u32_mod}

pub data WorkItem (Request Delivery : Type 0) : Type 0 where
  http : Request → WorkItem Request Delivery
  syslog : Delivery → WorkItem Request Delivery

pub data TryRecv (A : Type 0) : Type 0 where
  received : A → TryRecv A
  is_empty disconnected : TryRecv A

pub data TryWork (Request Delivery : Type 0) : Type 0 where
  found : WorkItem Request Delivery → TryWork Request Delivery
  is_empty closed : TryWork Request Delivery

-- The two channels as one worker meets them. `Env` is all that they and the other threads keep;
-- the two blocking calls wait, and give `none` where the channel that answers is disconnected.
pub record Channels (Request Delivery : Type 0) : Type 1 where
  pub Env : Type 0
  pub try_recv_http : Env → TryRecv Request × Env
  pub try_recv_syslog : Env → TryRecv Delivery × Env
  pub recv_http : Env → Option Request × Env
  pub select : Env → Option (WorkItem Request Delivery) × Env

module _ {Request Delivery : Type 0} where
  try_http : TryRecv Request → TryWork Request Delivery
  try_http (received r) = found (http r)
  try_http is_empty = is_empty
  try_http disconnected = closed

  try_syslog : TryRecv Delivery → TryWork Request Delivery
  try_syslog (received d) = found (syslog d)
  try_syslog is_empty = is_empty
  try_syslog disconnected = closed

  into_work_item : TryWork Request Delivery → Option (WorkItem Request Delivery)
  into_work_item (found item) = some item
  into_work_item is_empty = none
  into_work_item closed = none

  -- The streak is a `u32`; the sum wraps as in a release build.
  streak_after : TryWork Request Delivery → ℕ → ℕ
  streak_after (found (syslog d)) streak = (streak + 1) % u32_mod
  streak_after (found (http r)) streak = 0
  streak_after is_empty streak = streak
  streak_after closed streak = streak

-- What taking an item leaves: the item, the streak and the environment.
abbrev pub Taken : {Request Delivery : Type 0} → Channels Request Delivery → Type 0
Taken {Request} {Delivery} ch = Option (WorkItem Request Delivery) × ℕ × ch.Env

module _ {Request Delivery : Type 0} (ch : Channels Request Delivery) where
  open ch use {Env}

  count_work_item : TryWork Request Delivery → ℕ → Env → Taken ch
  unfolding into_work_item streak_after
  count_work_item outcome streak env = (into_work_item outcome, streak_after outcome streak, env)

  -- Return what was found, or go on where the channel is empty.
  or_else : TryWork Request Delivery × Env → ℕ → (Env → Taken ch) → Taken ch
  unfolding count_work_item
  or_else (is_empty, env) streak next = next env
  or_else (outcome, env) streak next = count_work_item outcome streak env

  poll_http : Env → TryWork Request Delivery × Env
  unfolding try_http
  poll_http env = let (r, env') = ch.try_recv_http env in (try_http r, env')

  poll_syslog : Env → TryWork Request Delivery × Env
  unfolding try_syslog
  poll_syslog env = let (r, env') = ch.try_recv_syslog env in (try_syslog r, env')

  selected : Option (WorkItem Request Delivery) × Env → ℕ → Taken ch
  unfolding count_work_item
  selected (some item, env) streak = count_work_item (found item) streak env
  selected (none, env) streak = (none, streak, env)

  block : ℕ → Env → Taken ch
  unfolding selected
  block streak env = selected (ch.select env) streak

  pub next_work_item : ℕ → ℕ → Env → Taken ch
  unfolding or_else poll_http poll_syslog block
  next_work_item work_ratio streak env =
      if ltb streak work_ratio
      then or_else (poll_syslog env) streak (λ e. or_else (poll_http e) streak (block streak))
      else or_else (poll_http env) streak (λ e. or_else (poll_syslog e) streak (block streak))

  -- `next_http_work_item`, when no syslog listener is configured.
  recv_next : Option Request × Env → ℕ → Taken ch
  recv_next (some r, env) streak = (some (http r), streak, env)
  recv_next (none, env) streak = (none, streak, env)

  http_or_recv : TryRecv Request × Env → ℕ → Taken ch
  unfolding recv_next
  http_or_recv (received r, env) streak = (some (http r), streak, env)
  http_or_recv (is_empty, env) streak = recv_next (ch.recv_http env) streak
  http_or_recv (disconnected, env) streak = (none, streak, env)

  unfoldable pub next_http_work_item : ℕ → Env → Taken ch
  unfolding http_or_recv
  next_http_work_item streak env = http_or_recv (ch.try_recv_http env) streak

  unfoldable pub continue_with :
      Taken ch → (ℕ → Env → List (WorkItem Request Delivery)) → List (WorkItem Request Delivery)
  continue_with (some item, s, e) more = item ∷ more s e
  continue_with (none, s, e) more = []

  -- The items of the first `n` rounds of the worker's loop; it stops where there is none.
  unfoldable pub take_items : ℕ → ℕ → ℕ → Env → List (WorkItem Request Delivery)
  unfolding continue_with
  take_items zero work_ratio streak env = []
  take_items (suc n) work_ratio streak env =
      continue_with (next_work_item work_ratio streak env) (take_items n work_ratio)
