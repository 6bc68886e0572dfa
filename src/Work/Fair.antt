-- ===== src/Work/Fair.antt =====
-- How the two kinds of work share one worker, while neither channel is closed.
use hyper_ruby.Common.{
  ℕ, zero, suc, ◌+◌, ◌≤◌, ◌<◌, [], ◌∷◌, List, map, some, ◌≡◌, ◌⊎◌, inl, inr, ap, arith, lt→ltb,
  le→ltb,
}
use native.Mathlib.Decide.{dec_lt}
use native.Mathlib.Numerals.{add-one}
use native.Mathlib.Nat.{mod-eq_of_lt}
use hyper_ruby.Rust.Word.{u32_mod}
use hyper_ruby.Work.{
  WorkItem, http, syslog, received, is_empty, Channels, next_work_item, take_items,
}

-- An HTTP request is among the items.
abbrev pub HasHttp : {R D : Type 0} → List (WorkItem R D) → Type 0
HasHttp [] = ⊥
HasHttp (http r ∷ items) = Unit {0}
HasHttp (syslog d ∷ items) = HasHttp items

pub data Kind : Type 0 where
  of_http of_syslog : Kind

abbrev pub kind : {R D : Type 0} → WorkItem R D → Kind
kind (http r) = of_http
kind (syslog d) = of_syslog

abbrev pub kinds : {R D : Type 0} → List (WorkItem R D) → List Kind
kinds = map kind

-- So many messages, and then a request.
abbrev pub schedule : ℕ → List Kind
schedule zero = of_http ∷ []
schedule (suc n) = of_syslog ∷ schedule n

module _ {R D : Type 0} (ch : Channels R D) where
  open ch use {Env}

  -- A request is waiting, whenever the worker looks.
  abbrev pub RequestsWait : Type 0
  RequestsWait = (e : Env) → (r : R) × (e' : Env) × (ch.try_recv_http e ≡ (received r, e'))

  abbrev pub SyslogWaits : Type 0
  SyslogWaits = (e : Env) → (d : D) × (e' : Env) × (ch.try_recv_syslog e ≡ (received d, e'))

  -- The syslog channel, as the worker finds it, is open.
  abbrev pub SyslogOpen : Type 0
  SyslogOpen =
      (e : Env)
      → ((d : D) × (e' : Env) × (ch.try_recv_syslog e ≡ (received d, e')))
        ⊎ ((e' : Env) × (ch.try_recv_syslog e ≡ (is_empty, e')))

  -- What the next item is, from what the channels say.
  pub next-http_first :
      (work_ratio streak : ℕ) (e e' : Env) (r : R)
      → work_ratio ≤ streak
      → ch.try_recv_http e ≡ (received r, e')
      → next_work_item ch work_ratio streak e ≡ (some (http r), 0, e')
  unfolding next_work_item
  next-http_first work_ratio streak e e' r h p = rw (le→ltb streak work_ratio h) (rw p)

  pub next-syslog_first :
      (work_ratio streak : ℕ) (e e' : Env) (d : D)
      → streak < work_ratio
      → work_ratio < u32_mod
      → ch.try_recv_syslog e ≡ (received d, e')
      → next_work_item ch work_ratio streak e ≡ (some (syslog d), streak + 1, e')
  unfolding next_work_item
  next-syslog_first work_ratio streak e e' d h w p =
      let l : streak + 1 < u32_mod = omega arith in
      rw (lt→ltb streak work_ratio h) (rw p (rw (mod-eq_of_lt l)))

  next-syslog_empty :
      (work_ratio streak : ℕ) (e e' e'' : Env) (r : R)
      → streak < work_ratio
      → ch.try_recv_syslog e ≡ (is_empty, e')
      → ch.try_recv_http e' ≡ (received r, e'')
      → next_work_item ch work_ratio streak e ≡ (some (http r), 0, e'')
  unfolding next_work_item
  next-syslog_empty work_ratio streak e e' e'' r h p q =
      rw (lt→ltb streak work_ratio h) (rw p (rw q))

  overtaking :
      (n work_ratio streak : ℕ) (e : Env)
      → RequestsWait
      → SyslogOpen
      → work_ratio < u32_mod
      → work_ratio ≤ streak + n
      → HasHttp (take_items ch (suc n) work_ratio streak e)
  unfolding take_items
  overtaking zero work_ratio streak e rs ds w h =
      let (r, e', p) = rs e in rw (next-http_first work_ratio streak e e' r (omega arith) p) tt
  overtaking (suc n) work_ratio streak e rs ds w h = elim (dec_lt streak work_ratio) [
    | yes first ↦ elim (ds e) [
      | inl (d, e', p) ↦
          rw (next-syslog_first work_ratio streak e e' d first w p)
            (overtaking n work_ratio (streak + 1) e' rs ds w (omega arith))
      | inr (e', p) ↦
          let (r, e'', q) = rs e' in
          rw (next-syslog_empty work_ratio streak e e' e'' r first p q) tt
    ]
    | no second ↦
        let (r, e', p) = rs e in rw (next-http_first work_ratio streak e e' r (omega arith) p) tt
  ]

  pattern_from :
      (n work_ratio streak : ℕ) (e : Env)
      → RequestsWait
      → SyslogWaits
      → work_ratio < u32_mod
      → streak + n ≡ work_ratio
      → kinds (take_items ch (suc n) work_ratio streak e) ≡ schedule n
  unfolding take_items
  pattern_from zero work_ratio streak e rs ds w h =
      let (r, e', p) = rs e in rw (next-http_first work_ratio streak e e' r (omega arith) p)
  pattern_from (suc n) work_ratio streak e rs ds w h =
      let (d, e', p) = ds e in
      rw (next-syslog_first work_ratio streak e e' d (omega arith) w p)
        (ap (◌∷◌ of_syslog) (pattern_from n work_ratio (streak + 1) e' rs ds w (omega arith)))

-- While a request is waiting, at most `work_ratio` syslog messages run ahead of it, whatever the
-- count was before: of any `work_ratio + 1` items that a worker takes, one is a request. The
-- syslog channel may be empty or not at each look, but is not closed.
pub next_work_item-overtaking :
    {R D : Type 0} (ch : Channels R D) (work_ratio streak : ℕ) (e : ch.Env)
    → RequestsWait ch
    → SyslogOpen ch
    → work_ratio < u32_mod
    → HasHttp (take_items ch (work_ratio + 1) work_ratio streak e)
next_work_item-overtaking ch work_ratio streak e rs ds w =
    rw add-one (overtaking ch work_ratio work_ratio streak e rs ds w (omega arith))

-- Where both kinds always wait and a request was served last, the worker takes exactly
-- `work_ratio` messages and then a request.
pub next_work_item-schedule :
    {R D : Type 0} (ch : Channels R D) (work_ratio : ℕ) (e : ch.Env)
    → RequestsWait ch
    → SyslogWaits ch
    → work_ratio < u32_mod
    → kinds (take_items ch (work_ratio + 1) work_ratio 0 e) ≡ schedule work_ratio
next_work_item-schedule ch work_ratio e rs ds w =
    rw add-one (pattern_from ch work_ratio work_ratio 0 e rs ds w (omega arith))
