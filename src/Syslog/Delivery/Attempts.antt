-- ===== src/Syslog/Delivery/Attempts.antt =====
-- What a handler sees of one message, and the delays between its attempts.
use hyper_ruby.Common.{
  ℕ, zero, suc, ◌+◌, ◌*◌, ◌%◌, ◌^◌, ◌≤◌, ◌<◌, min, Bool, true, false, [], ◌∷◌, ◌≡◌, ◌⊎◌, inl, inr,
  refl, ap, sym, ◌∙◌, arith, List, length, get_or,
}
use native.Mathlib.Decide.{dec_le}
use native.Mathlib.Nat.{pow-suc}
use hyper_ruby.Rust.Word.{u32_mod}
use hyper_ruby.Syslog.Counters.{SyslogCounters}
use hyper_ruby.Syslog.Delivery.{
  min_refusal_delay, max_refusal_delay, PendingMessage, SyslogMessage, DeliveryOutcome,
  delivery_accepted, delivery_refused, unavailable, Answer, to_message, deliver, Delivered, settle,
  deliver_one,
}

-- `n` attempts at one message, the first under the number `k`.
abbrev pub attempts : PendingMessage → ℕ → ℕ → List SyslogMessage
attempts p k zero = []
attempts p k (suc n) = to_message p k ∷ attempts p (k + 1) n

deliver-queued :
    (p : PendingMessage) (k : ℕ) (a : Answer) (c : SyslogCounters)
    → ((deliver p k a c).2 ≡ to_message p k ∷ [])
      ⊎ (((deliver p k a c).0 ≡ unavailable) × ((deliver p k a c).2 ≡ []))
unfolding deliver
deliver-queued p k a c = ground arith

abbrev IsNumbered : PendingMessage → ℕ → List SyslogMessage → Type 0
IsNumbered p k q = q ≡ attempts p k (length q)

settle-IsNumbered :
    (p : PendingMessage) (k delay : ℕ) (cancelled : Bool) (again : SyslogCounters → Delivered)
    (o : DeliveryOutcome) (c : SyslogCounters) (q : List SyslogMessage)
    → (q ≡ to_message p k ∷ []) ⊎ ((o ≡ unavailable) × (q ≡ []))
    → IsNumbered p (k + 1) (again c).queued
    → IsNumbered p k (settle (o, c, q) cancelled delay again).queued
unfolding settle
settle-IsNumbered p k delay cancelled again delivery_accepted c q (inl e) h = rw e
settle-IsNumbered p k delay cancelled again unavailable c q (inl e) h = rw e
settle-IsNumbered p k delay true again delivery_refused c q (inl e) h = rw e
settle-IsNumbered p k delay false again delivery_refused c q (inl e) h =
    rw e (ap (◌∷◌ (to_message p k)) h)
settle-IsNumbered p k delay cancelled again o c q (inr (e, z)) h = rw (e, z)

deliver_one-IsNumbered :
    (p : PendingMessage) (k delay : ℕ) (answers : List Answer) (c : SyslogCounters)
    → k + length answers < u32_mod
    → IsNumbered p k (deliver_one p k delay answers c).queued
unfolding deliver_one
deliver_one-IsNumbered p k delay [] c h = refl
deliver_one-IsNumbered p k delay (a ∷ answers) c h =
    let r = deliver p k a c in
    let e : (k + 1) % u32_mod ≡ k + 1 = omega arith in
    settle-IsNumbered p k delay a.cancelled _ r.0 r.1 r.2 (deliver-queued p k a c) (
      rw e (
        deliver_one-IsNumbered p (k + 1) (min (delay * 2) max_refusal_delay) answers r.1
          (omega arith)))

add_suc : (k i : ℕ) → k + suc i ≡ (k + 1) + i
add_suc k i = omega arith

zero_plus : (i : ℕ) → 0 + i ≡ i
zero_plus i = omega arith

-- The i-th delay.
abbrev pub backoff : ℕ → ℕ → ℕ
backoff delay i = min max_refusal_delay (delay * 2 ^ i)

abbrev IsBackoff : ℕ → List ℕ → Type 0
IsBackoff delay slept = (i : ℕ) → i < length slept → get_or slept i 0 ≡ backoff delay i

settle-slept :
    (delay : ℕ) (cancelled : Bool) (again : SyslogCounters → Delivered) (o : DeliveryOutcome)
    (c : SyslogCounters) (q : List SyslogMessage)
    → ((settle (o, c, q) cancelled delay again).slept ≡ [])
      ⊎ ((settle (o, c, q) cancelled delay again).slept ≡ delay ∷ (again c).slept)
unfolding settle
settle-slept delay cancelled again delivery_accepted c q = inl refl
settle-slept delay cancelled again unavailable c q = inl refl
settle-slept delay true again delivery_refused c q = inl refl
settle-slept delay false again delivery_refused c q = inr refl

one-le-pow : (i : ℕ) → 1 ≤ 2 ^ i
one-le-pow zero = omega arith
one-le-pow (suc i) = rw (pow-suc 2 i) (omega (arith, one-le-pow i))

-- A delay that is capped early is capped later too.
capped : (d t : ℕ) → 1 ≤ t → min 500 (min (d * 2) 500 * t) ≡ min 500 (d * (t * 2))
capped d t h = elim (dec_le (d * 2) 500) [
  | yes small ↦ let e : min (d * 2) 500 ≡ d * 2 = omega arith in rw e (omega arith)
  | no large ↦
      let e : min (d * 2) 500 ≡ 500 = omega arith in
      let big : 500 ≤ d * 2 * t = grind arith in rw e (omega (arith, big))
]

backoff-suc :
    (delay i : ℕ)
    → delay ≤ max_refusal_delay
    → backoff (min (delay * 2) max_refusal_delay) i ≡ backoff delay (suc i)
backoff-suc delay i h = rw (pow-suc 2 i) (capped delay (2 ^ i) (one-le-pow i))

IsBackoff-cons :
    (delay : ℕ) (slept : List ℕ)
    → delay ≤ max_refusal_delay
    → IsBackoff (min (delay * 2) max_refusal_delay) slept
    → IsBackoff delay (delay ∷ slept)
IsBackoff-cons delay slept h b zero l = omega arith
IsBackoff-cons delay slept h b (suc i) l = b i (omega arith) ∙ backoff-suc delay i h

deliver_one-IsBackoff :
    (p : PendingMessage) (k delay : ℕ) (answers : List Answer) (c : SyslogCounters)
    → delay ≤ max_refusal_delay
    → IsBackoff delay (deliver_one p k delay answers c).slept
unfolding deliver_one
deliver_one-IsBackoff p k delay [] c h = λ i l. absurd (omega arith)
deliver_one-IsBackoff p k delay (a ∷ answers) c h =
    let r = deliver p k a c in
    let next = min (delay * 2) max_refusal_delay in
    let again = deliver_one p ((k + 1) % u32_mod) next answers in
    elim (settle-slept delay a.cancelled again r.0 r.1 r.2) [
      | inl e ↦ rw e (λ i l. absurd (omega arith))
      | inr e ↦ rw e (
          IsBackoff-cons delay _ h
            (deliver_one-IsBackoff p ((k + 1) % u32_mod) next answers r.1 (omega arith)))
    ]

-- The first `n` delays from the k-th on, in milliseconds.
abbrev pub delays : ℕ → ℕ → List ℕ
delays k zero = []
delays k (suc n) = min 500 (5 * 2 ^ k) ∷ delays (k + 1) n

delays-of :
    (k : ℕ) (slept : List ℕ)
    → ((i : ℕ) → i < length slept → get_or slept i 0 ≡ min 500 (5 * 2 ^ (k + i)))
    → slept ≡ delays k (length slept)
delays-of k [] f = refl
delays-of k (d ∷ slept) f = ground (
  arith,
  f 0 (omega arith),
  delays-of (k + 1) slept (λ i l. rw (sym (add_suc k i)) (f (suc i) (omega arith))),
)

-- A sleep to each attempt that another one may follow.
abbrev IsPaced : Delivered → Type 0
IsPaced d = (length d.slept ≤ length d.queued) × (length d.queued ≤ suc (length d.slept))

settle-IsPaced :
    (p : PendingMessage) (k delay : ℕ) (cancelled : Bool) (again : SyslogCounters → Delivered)
    (o : DeliveryOutcome) (c : SyslogCounters) (q : List SyslogMessage)
    → (q ≡ to_message p k ∷ []) ⊎ ((o ≡ unavailable) × (q ≡ []))
    → IsPaced (again c)
    → IsPaced (settle (o, c, q) cancelled delay again)
unfolding settle
settle-IsPaced p k delay cancelled again delivery_accepted c q (inl e) h =
    rw e (omega arith, omega arith)
settle-IsPaced p k delay cancelled again unavailable c q (inl e) h = rw e (omega arith, omega arith)
settle-IsPaced p k delay true again delivery_refused c q (inl e) h = rw e (omega arith, omega arith)
settle-IsPaced p k delay false again delivery_refused c q (inl e) h =
    rw e (omega (arith, h.0), omega (arith, h.1))
settle-IsPaced p k delay cancelled again o c q (inr (e, z)) h = rw (e, z) (omega arith, omega arith)

deliver_one-IsPaced :
    (p : PendingMessage) (k delay : ℕ) (answers : List Answer) (c : SyslogCounters)
    → IsPaced (deliver_one p k delay answers c)
unfolding deliver_one
deliver_one-IsPaced p k delay [] c = (omega arith, omega arith)
deliver_one-IsPaced p k delay (a ∷ answers) c =
    let r = deliver p k a c in
    settle-IsPaced p k delay a.cancelled _ r.0 r.1 r.2 (deliver-queued p k a c)
      (deliver_one-IsPaced p ((k + 1) % u32_mod) (min (delay * 2) max_refusal_delay) answers r.1)

-- What the workers see of a message, from its first attempt on: the same content and identity each
-- time, under attempts 1, 2, 3 and so on with none left out. The dispatcher sleeps once for each of
-- these attempts but the last, and for that one once or not at all. The delay i, counted from 0, is
-- 5 ms doubled i times, but never more than 500 ms. The script of the environment has fewer than
-- 2 ^ 32 - 1 attempts, so their number does not wrap.
pub deliver_one-attempts :
    (p : PendingMessage) (answers : List Answer) (c : SyslogCounters)
    → 1 + length answers < u32_mod
    → let d = deliver_one p 1 min_refusal_delay answers c in
      (d.queued ≡ attempts p 1 (length d.queued))
      × (d.slept ≡ delays 0 (length d.slept))
      × (length d.slept ≤ length d.queued)
      × (length d.queued ≤ suc (length d.slept))
deliver_one-attempts p answers c h =
    let d = deliver_one p 1 min_refusal_delay answers c in
    (
      deliver_one-IsNumbered p 1 min_refusal_delay answers c h,
      delays-of 0 d.slept (λ i l.
          rw (zero_plus i)
            (deliver_one-IsBackoff p 1 min_refusal_delay answers c (omega arith) i l)),
      (deliver_one-IsPaced p 1 min_refusal_delay answers c).0,
      (deliver_one-IsPaced p 1 min_refusal_delay answers c).1,
    )
