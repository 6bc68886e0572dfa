-- ===== src/Syslog/Counters/Laws.antt =====
-- Counting one by one is adding.
use hyper_ruby.Common.{ℕ, ◌+◌, ◌<◌, ◌≡◌, arith}
use hyper_ruby.Rust.Word.{usize_mod}
use hyper_ruby.Syslog.Counters.{fetch_add}

pub fetch_add-fetch_add : (n a b : ℕ) → fetch_add (fetch_add n a) b ≡ fetch_add n (a + b)
unfolding fetch_add
fetch_add-fetch_add n a b = omega arith

-- Below 2 ^ 64 a counter counts.
pub fetch_add-lt : (n a : ℕ) → n + a < usize_mod → fetch_add n a ≡ n + a
unfolding fetch_add
fetch_add-lt n a h = omega arith
