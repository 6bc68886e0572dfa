-- ===== src/Work/Closed.antt =====
-- How a worker ends: both channels are closed, and it is the only one that takes what they still
-- have.
use hyper_ruby.Common.{
  ℕ, zero, suc, ◌+◌, ◌≤◌, ◌<◌, [], ◌∷◌, List, none, ◌≡◌, ◌⊎◌, inl, refl, ap, ◌∙◌, arith, ltb,
  lt→ltb, le→ltb, if◌then◌else◌, length,
}
use native.Mathlib.Decide.{dec_lt}
use hyper_ruby.Rust.Word.{u32_mod}
use hyper_ruby.Work.{
  WorkItem, http, syslog, received, disconnected, Channels, next_work_item, take_items,
  continue_with,
}
use hyper_ruby.Work.Fair.{next-http_first, next-syslog_first}

-- What the channels still have, and that they are disconnected behind it: what was sent before can
-- be received, in order, and then no call waits.
pub record AreClosed {R D : Type 0} (ch : Channels R D) : Type 0 where
  pub requests : ch.Env → List R
  pub deliveries : ch.Env → List D
  pub request :
      (e : ch.Env) (r : R) (rs : List R)
      → requests e ≡ r ∷ rs
      → (e' : ch.Env) × (ch.try_recv_http e ≡ (received r, e'))
        × (requests e' ≡ rs)
        × (deliveries e' ≡ deliveries e)
  pub no_request :
      (e : ch.Env) → requests e ≡ [] → (e' : ch.Env) × (ch.try_recv_http e ≡ (disconnected, e'))
  pub delivery :
      (e : ch.Env) (d : D) (ds : List D)
      → deliveries e ≡ d ∷ ds
      → (e' : ch.Env) × (ch.try_recv_syslog e ≡ (received d, e'))
        × (deliveries e' ≡ ds)
        × (requests e' ≡ requests e)
  pub no_delivery :
      (e : ch.Env) → deliveries e ≡ [] → (e' : ch.Env) × (ch.try_recv_syslog e ≡ (disconnected, e'))

module _ {R D : Type 0} where
  -- The items that a worker takes out of two lists: a message while fewer than `work_ratio` have run
  -- ahead, else a request, until the list that it would take from is empty.
  unfoldable pub merge : ℕ → ℕ → List R → List D → List (WorkItem R D)
  merge work_ratio streak [] [] = []
  merge work_ratio streak (r ∷ rs) [] =
      let rest = merge work_ratio 0 rs [] in if ltb streak work_ratio then [] else http r ∷ rest
  merge work_ratio streak [] (d ∷ ds) =
      let rest = merge work_ratio (streak + 1) [] ds in
      if ltb streak work_ratio then syslog d ∷ rest else []
  merge work_ratio streak (r ∷ rs) (d ∷ ds) =
      let with_message = merge work_ratio (streak + 1) (r ∷ rs) ds in
      let with_request = merge work_ratio 0 rs (d ∷ ds) in
      if ltb streak work_ratio then syslog d ∷ with_message else http r ∷ with_request

  abbrev pub requests_of : List (WorkItem R D) → List R
  requests_of [] = []
  requests_of (http r ∷ items) = r ∷ requests_of items
  requests_of (syslog d ∷ items) = requests_of items

  abbrev pub messages_of : List (WorkItem R D) → List D
  messages_of [] = []
  messages_of (http r ∷ items) = messages_of items
  messages_of (syslog d ∷ items) = d ∷ messages_of items

  merge-done :
      (work_ratio streak : ℕ) (rs : List R) (ds : List D)
      → (requests_of (merge work_ratio streak rs ds) ≡ rs)
        ⊎ (messages_of (merge work_ratio streak rs ds) ≡ ds)
  unfolding merge
  merge-done work_ratio streak [] [] = inl refl
  merge-done work_ratio streak (r ∷ rs) [] = ground (arith, merge-done work_ratio 0 rs [])
  merge-done work_ratio streak [] (d ∷ ds) =
      ground (arith, merge-done work_ratio (streak + 1) [] ds)
  merge-done work_ratio streak (r ∷ rs) (d ∷ ds) =
      ground
        (arith, merge-done work_ratio (streak + 1) (r ∷ rs) ds, merge-done work_ratio 0 rs (d ∷ ds))

  merge-no_delivery :
      (work_ratio streak : ℕ) (rs : List R)
      → streak < work_ratio
      → merge work_ratio streak rs [] ≡ []
  unfolding merge
  merge-no_delivery work_ratio streak [] h = refl
  merge-no_delivery work_ratio streak (r ∷ rs) h = rw (lt→ltb streak work_ratio h) refl

  merge-delivery :
      (work_ratio streak : ℕ) (rs : List R) (d : D) (ds : List D)
      → streak < work_ratio
      → merge work_ratio streak rs (d ∷ ds) ≡ syslog d ∷ merge work_ratio (streak + 1) rs ds
  unfolding merge
  merge-delivery work_ratio streak [] d ds h = rw (lt→ltb streak work_ratio h) refl
  merge-delivery work_ratio streak (r ∷ rs) d ds h = rw (lt→ltb streak work_ratio h) refl

  merge-no_request :
      (work_ratio streak : ℕ) (ds : List D)
      → work_ratio ≤ streak
      → merge work_ratio streak [] ds ≡ []
  unfolding merge
  merge-no_request work_ratio streak [] h = refl
  merge-no_request work_ratio streak (d ∷ ds) h = rw (le→ltb streak work_ratio h) refl

  merge-request :
      (work_ratio streak : ℕ) (r : R) (rs : List R) (ds : List D)
      → work_ratio ≤ streak
      → merge work_ratio streak (r ∷ rs) ds ≡ http r ∷ merge work_ratio 0 rs ds
  unfolding merge
  merge-request work_ratio streak r rs [] h = rw (le→ltb streak work_ratio h) refl
  merge-request work_ratio streak r rs (d ∷ ds) h = rw (le→ltb streak work_ratio h) refl

module _ {R D : Type 0} (ch : Channels R D) (closed : AreClosed ch) (work_ratio : ℕ)
    (small : work_ratio < u32_mod) where
  next-no_request :
      (streak : ℕ) (e e' : ch.Env)
      → work_ratio ≤ streak
      → ch.try_recv_http e ≡ (disconnected, e')
      → next_work_item ch work_ratio streak e ≡ (none, streak, e')
  unfolding next_work_item
  next-no_request streak e e' h p = rw (le→ltb streak work_ratio h, p) refl

  next-no_delivery :
      (streak : ℕ) (e e' : ch.Env)
      → streak < work_ratio
      → ch.try_recv_syslog e ≡ (disconnected, e')
      → next_work_item ch work_ratio streak e ≡ (none, streak, e')
  unfolding next_work_item
  next-no_delivery streak e e' h p = rw (lt→ltb streak work_ratio h, p) refl

  -- `n` rounds are enough for the lists that the channels have.
  abbrev Enough : ℕ → Type 0
  Enough n =
      (streak : ℕ) (e : ch.Env) (rs : List R) (ds : List D)
      → closed.requests e ≡ rs
      → closed.deliveries e ≡ ds
      → length rs + length ds < n
      → take_items ch n work_ratio streak e ≡ merge work_ratio streak rs ds

  syslog_turn :
      (n : ℕ)
      → Enough n
      → (streak : ℕ) (e : ch.Env) (rs : List R) (ds : List D) → streak < work_ratio
      → closed.requests e ≡ rs
      → closed.deliveries e ≡ ds
      → length rs + length ds < suc n
      → take_items ch (suc n) work_ratio streak e ≡ merge work_ratio streak rs ds
  unfolding take_items continue_with
  syslog_turn n enough streak e rs [] first er ed h =
      let (e', p) = closed.no_delivery e ed in
      rw (next-no_delivery streak e e' first p, merge-no_delivery work_ratio streak rs first) refl
  syslog_turn n enough streak e rs (d ∷ ds) first er ed h =
      let (e', p, ed', er') = closed.delivery e d ds ed in
      rw
        (
          next-syslog_first ch work_ratio streak e e' d first small p,
          merge-delivery work_ratio streak rs d ds first,
        )
        (ap (◌∷◌ (syslog d)) (enough (streak + 1) e' rs ds (er' ∙ er) ed' (omega arith)))

  http_turn :
      (n : ℕ)
      → Enough n
      → (streak : ℕ) (e : ch.Env) (rs : List R) (ds : List D) → work_ratio ≤ streak
      → closed.requests e ≡ rs
      → closed.deliveries e ≡ ds
      → length rs + length ds < suc n
      → take_items ch (suc n) work_ratio streak e ≡ merge work_ratio streak rs ds
  unfolding take_items continue_with
  http_turn n enough streak e [] ds second er ed h =
      let (e', p) = closed.no_request e er in
      rw (next-no_request streak e e' second p, merge-no_request work_ratio streak ds second) refl
  http_turn n enough streak e (r ∷ rs) ds second er ed h =
      let (e', p, er', ed') = closed.request e r rs er in
      rw
        (
          next-http_first ch work_ratio streak e e' r second p,
          merge-request work_ratio streak r rs ds second,
        )
        (ap (◌∷◌ (http r)) (enough 0 e' rs ds er' (ed' ∙ ed) (omega arith)))

  take_items-Enough : (n : ℕ) → Enough n
  take_items-Enough zero streak e rs ds er ed h = absurd (omega arith)
  take_items-Enough (suc n) streak e rs ds er ed h = elim (dec_lt streak work_ratio) [
    | yes first ↦ syslog_turn n (take_items-Enough n) streak e rs ds first er ed h
    | no second ↦ http_turn n (take_items-Enough n) streak e rs ds (omega arith) er ed h
  ]

-- Once both channels are closed, the last worker ends: in any number of rounds above that of the
-- items still queued, it takes the items that `merge` takes out of the two queues and no more. These
-- are all requests or all messages that were queued, so that only one kind can be left behind.
pub take_items-merge :
    {R D : Type 0} (ch : Channels R D) (closed : AreClosed ch) (n work_ratio streak : ℕ)
    (e : ch.Env)
    → work_ratio < u32_mod
    → length (closed.requests e) + length (closed.deliveries e) < n
    → let items = take_items ch n work_ratio streak e in
      (items ≡ merge work_ratio streak (closed.requests e) (closed.deliveries e))
      × ((requests_of items ≡ closed.requests e) ⊎ (messages_of items ≡ closed.deliveries e))
take_items-merge ch closed n work_ratio streak e small h =
    let same = take_items-Enough ch closed work_ratio small n streak e _ _ refl refl h in
    (same, rw same (merge-done work_ratio streak (closed.requests e) (closed.deliveries e)))
