-- ===== src/Tests/Work.antt =====
-- A worker with both channels.
use hyper_ruby.Common.{ℕ, suc, ◌+◌, [], ◌∷◌, some, ◌≡◌, refl, arith, inl}
use hyper_ruby.Work.{http, received, Channels, take_items}
use hyper_ruby.Work.Fair.{
  HasHttp, of_http, of_syslog, kinds, next_work_item-overtaking, next_work_item-schedule,
}

-- Both channels always have an item, the number of the look.
abbrev busy : Channels ℕ ℕ
busy = record {
  Env = ℕ;
  try_recv_http = λ n. (received n, suc n);
  try_recv_syslog = λ n. (received n, suc n);
  recv_http = λ n. (some n, suc n);
  select = λ n. (some (http n), suc n);
}

next_work_item-overtaking_example : HasHttp (take_items busy (3 + 1) 3 7 0)
next_work_item-overtaking_example =
    next_work_item-overtaking busy 3 7 0 (λ n. (n, suc n, refl)) (λ n. inl (n, suc n, refl))
      (omega arith)

next_work_item-schedule_example :
    kinds (take_items busy (2 + 1) 2 0 0) ≡ of_syslog ∷ of_syslog ∷ of_http ∷ []
next_work_item-schedule_example =
    next_work_item-schedule busy 2 0 (λ n. (n, suc n, refl)) (λ n. (n, suc n, refl)) (omega arith)
