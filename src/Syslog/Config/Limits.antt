-- ===== src/Syslog/Config/Limits.antt =====
-- The limits that the settings must keep for the listeners to work with them.
use Prim.Native.String.{String}
use hyper_ruby.Common.{ℕ, ◌≤◌, min, max, Option, none, some, ◌≡◌, refl, arith, Result, ok, err}
use hyper_ruby.Syslog.Config.{
  SyslogConfig, default_config, Conversions, Applied, store_converted, store_value, read_key, apply,
}

-- A semaphore can be made with the permits, a channel with the places, and a buffer with the bytes.
pub record IsUsable (max_permits : ℕ) (c : SyslogConfig) : Type 0 where
  pub some_pending : 1 ≤ c.max_pending
  pub permits : c.max_pending ≤ max_permits
  pub places : 1 ≤ c.max_pending_per_connection
  pub datagram : 1 ≤ c.udp_max_datagram_bytes

-- The fields that have limits stay as they are.
same-IsUsable :
    {m : ℕ} {c d : SyslogConfig}
    → IsUsable m c
    → d.max_pending ≡ c.max_pending
    → d.max_pending_per_connection ≡ c.max_pending_per_connection
    → d.udp_max_datagram_bytes ≡ c.udp_max_datagram_bytes
    → IsUsable m d
same-IsUsable i p q r = record {
  some_pending = omega (arith, i.some_pending, p);
  permits = omega (arith, i.permits, p);
  places = omega (arith, i.places, q);
  datagram = omega (arith, i.datagram, r);
}

store_converted-IsUsable :
    {Error A : Type 0} (m : ℕ) (put : A → SyslogConfig → SyslogConfig) (c : SyslogConfig)
    (r : Result Error A)
    → ((a : A) (c : SyslogConfig) → IsUsable m c → IsUsable m (put a c))
    → IsUsable m c
    → IsUsable m (store_converted put c r).0
unfolding store_converted
store_converted-IsUsable m put c (ok a) keeps i = keeps a c i
store_converted-IsUsable m put c (err e) keeps i = i

module _ {Value Error : Type 0} (m : ℕ) where
  read_key-IsUsable :
      {A : Type 0} (value : Option Value) (convert : Value → Result Error A)
      (put : A → SyslogConfig → SyslogConfig) (x : Applied Error)
      → ((a : A) (c : SyslogConfig) → IsUsable m c → IsUsable m (put a c))
      → IsUsable m x.0
      → IsUsable m (read_key value convert put x).0
  unfolding read_key store_value
  read_key-IsUsable value convert put (c, some e) keeps i = i
  read_key-IsUsable none convert put (c, none) keeps i = i
  read_key-IsUsable (some value) convert put (c, none) keeps i =
      store_converted-IsUsable m put c (convert value) keeps i

module _ {Value Error : Type 0} (conversions : Conversions Value Error) (m : ℕ)
    (positive : 1 ≤ m) where
  -- A key that has no limit.
  plain :
      {A : Type 0} (value : Option Value) (convert : Value → Result Error A)
      (put : A → SyslogConfig → SyslogConfig) (x : Applied Error)
      → ((a : A) (c : SyslogConfig)
          → ((put a c).max_pending ≡ c.max_pending)
            × ((put a c).max_pending_per_connection ≡ c.max_pending_per_connection)
            × ((put a c).udp_max_datagram_bytes ≡ c.udp_max_datagram_bytes))
      → IsUsable m x.0
      → IsUsable m (read_key value convert put x).0
  plain value convert put x same =
      read_key-IsUsable m value convert put x
        (λ a c i. let (p, q, r) = same a c in same-IsUsable i p q r)

  datagram_limit :
      (a : ℕ) (c : SyslogConfig)
      → IsUsable m c
      → IsUsable m (record c { udp_max_datagram_bytes = max a 1 })
  datagram_limit a c i = record {
    some_pending = i.some_pending;
    permits = i.permits;
    places = i.places;
    datagram = omega arith;
  }

  places_limit :
      (a : ℕ) (c : SyslogConfig)
      → IsUsable m c
      → IsUsable m (record c { max_pending_per_connection = max a 1 })
  places_limit a c i = record {
    some_pending = i.some_pending;
    permits = i.permits;
    places = omega arith;
    datagram = i.datagram;
  }

  pending_limit :
      (a : ℕ) (c : SyslogConfig)
      → IsUsable m c
      → IsUsable m (record c { max_pending = min (max a 1) m })
  pending_limit a c i = record {
    some_pending = omega (arith, positive);
    permits = omega arith;
    places = i.places;
    datagram = i.datagram;
  }

  pub apply-IsUsable :
      (config : String → Option Value) (c : SyslogConfig)
      → IsUsable m c
      → IsUsable m (apply conversions m config c).0
  unfolding apply
  apply-IsUsable config c i =
      plain _ _ _ _ (λ a c. (refl, refl, refl))
        (plain _ _ _ _ (λ a c. (refl, refl, refl))
          (read_key-IsUsable m _ _ _ _ datagram_limit (
            plain _ _ _ _ (λ a c. (refl, refl, refl))
              (plain _ _ _ _ (λ a c. (refl, refl, refl))
                (read_key-IsUsable m _ _ _ _ places_limit (
                  read_key-IsUsable m _ _ _ _ pending_limit (
                    plain _ _ _ _ (λ a c. (refl, refl, refl))
                      (plain _ _ _ _ (λ a c. (refl, refl, refl))
                        (plain _ _ _ _ (λ a c. (refl, refl, refl))
                          (plain _ _ _ _ (λ a c. (refl, refl, refl))
                            (plain _ _ _ _ (λ a c. (refl, refl, refl))
                              (plain _ _ _ _ (λ a c. (refl, refl, refl)) i))))))))))))

pub default_config-IsUsable : (m : ℕ) → 1000 ≤ m → IsUsable m default_config
unfolding default_config
default_config-IsUsable m h = record {
  some_pending = omega arith;
  permits = h;
  places = omega arith;
  datagram = omega arith;
}
