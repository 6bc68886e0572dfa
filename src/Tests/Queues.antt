-- ===== src/Tests/Queues.antt =====
-- Two queues that nobody sends to any more.
use hyper_ruby.Common.{[], ◌∷◌, List, none, ◌≡◌, refl}
use hyper_ruby.Work.{TryRecv, received, disconnected, Channels}
use hyper_ruby.Work.Closed.{AreClosed}

module _ (R D : Type 0) where
  abbrev pub Queues : Type 0
  Queues = List R × List D

  abbrev pub pop_request : Queues → TryRecv R × Queues
  pop_request ([], ds) = (disconnected, ([], ds))
  pop_request (r ∷ rs, ds) = (received r, (rs, ds))

  abbrev pub pop_delivery : Queues → TryRecv D × Queues
  pop_delivery (rs, []) = (disconnected, (rs, []))
  pop_delivery (rs, d ∷ ds) = (received d, (rs, ds))

  abbrev pub queues : Channels R D
  queues = record {
    Env = Queues;
    try_recv_http = pop_request;
    try_recv_syslog = pop_delivery;
    recv_http = λ e. (none, e);
    select = λ e. (none, e);
  }

  pub queues_request :
      (e : Queues) (r : R) (rs : List R)
      → e.0 ≡ r ∷ rs
      → (e' : Queues) × (pop_request e ≡ (received r, e')) × (e'.0 ≡ rs) × (e'.1 ≡ e.1)
  queues_request (q, ds) r rs eq = ((rs, ds), rw eq refl, refl, refl)

  pub queues_no_request :
      (e : Queues) → e.0 ≡ [] → (e' : Queues) × (pop_request e ≡ (disconnected, e'))
  queues_no_request (q, ds) eq = (([], ds), rw eq refl)

  pub queues_delivery :
      (e : Queues) (d : D) (ds : List D)
      → e.1 ≡ d ∷ ds
      → (e' : Queues) × (pop_delivery e ≡ (received d, e')) × (e'.1 ≡ ds) × (e'.0 ≡ e.0)
  queues_delivery (rs, q) d ds eq = ((rs, ds), rw eq refl, refl, refl)

  pub queues_no_delivery :
      (e : Queues) → e.1 ≡ [] → (e' : Queues) × (pop_delivery e ≡ (disconnected, e'))
  queues_no_delivery (rs, q) eq = ((rs, []), rw eq refl)

  abbrev pub queues-AreClosed : AreClosed queues
  queues-AreClosed = record {
    requests = λ e. e.0;
    deliveries = λ e. e.1;
    request = queues_request;
    no_request = queues_no_request;
    delivery = queues_delivery;
    no_delivery = queues_no_delivery;
  }
