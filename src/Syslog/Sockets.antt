-- ===== src/Syslog/Sockets.antt =====
-- ext/hyper_ruby/src/syslog.rs, `bind_std_tcp` and `bind_std_udp`, the calls that make a listening
-- socket, and `StreamListener::accept`. What each call of the system gives is the environment's.
use Prim.Native.String.{String}
use hyper_ruby.Common.{
  ℕ, Bool, true, false, [], ◌∷◌, List, map, Option, none, some, ◌≡◌, refl, Bytes, Result, ok, err,
}
use hyper_ruby.Syslog.Proxy.{IpAddr}
use hyper_ruby.Syslog.Config.{SyslogConfig}

pub record SocketAddr : Type 0 where
  pub ip : IpAddr
  pub port : ℕ

-- What has been set on a socket.
pub record Socket : Type 0 where
  pub reuse_address : Bool
  pub reuse_port : Bool
  pub recv_buffer : Option ℕ
  pub nonblocking : Bool
  pub bound : Option SocketAddr
  pub backlog : Option ℕ

abbrev unset : Socket
unset = record {
  reuse_address = false;
  reuse_port = false;
  recv_buffer = none;
  nonblocking = false;
  bound = none;
  backlog = none;
}

pub data SystemCall : Type 0 where
  new_socket set_reuse_address set_reuse_port set_recv_buffer_size set_nonblocking bind listen :
      SystemCall

-- A call, with what the socket is like after it.
abbrev pub Call : Type 0
Call = SystemCall × (Socket → Socket)

module _ (fails : SystemCall → Option String) where
  -- The calls in turn, each under `?`: the first error is the result.
  unfoldable pub attempts : List Call → Socket → Result String Socket
  attempts [] s = ok s
  attempts ((call, change) ∷ calls) s = elim (fails call) [
    | some e ↦ err e
    | none ↦ attempts calls (change s)
  ]

  abbrev open_socket : Call
  open_socket = (new_socket, λ s. s)

  abbrev reuse : Call
  reuse = (set_reuse_address, λ s. record s { reuse_address = true })

  abbrev unblock : Call
  unblock = (set_nonblocking, λ s. record s { nonblocking = true })

  abbrev bind_to : SocketAddr → Call
  bind_to address = (bind, λ s. record s { bound = some address })

  abbrev tcp_calls : SocketAddr → List Call
  tcp_calls address =
      open_socket
      ∷ reuse
      ∷ unblock
      ∷ bind_to address
      ∷ (listen, λ s. record s { backlog = some 1024 })
      ∷ []

  unfoldable pub bind_std_tcp : SocketAddr → Result String Socket
  unfolding attempts
  bind_std_tcp address = attempts (tcp_calls address) unset

  -- The size of the buffer is set where one is configured.
  abbrev size_buffer : Option ℕ → List Call → List Call
  size_buffer none calls = calls
  size_buffer (some size) calls =
      (set_recv_buffer_size, λ s. record s { recv_buffer = some size }) ∷ calls

  abbrev udp_calls : SocketAddr → Option ℕ → List Call
  udp_calls address size =
      open_socket
      ∷ reuse
      ∷ (set_reuse_port, λ s. record s { reuse_port = true })
      ∷ size_buffer size (unblock ∷ bind_to address ∷ [])

  unfoldable pub bind_std_udp : SocketAddr → SyslogConfig → Result String Socket
  unfolding attempts
  bind_std_udp address config = attempts (udp_calls address config.udp_so_rcvbuf) unset

  -- The error of the first of these calls that fails.
  abbrev first_failure : List SystemCall → Option String
  first_failure [] = none
  first_failure (call ∷ calls) = elim (fails call) [ some e ↦ some e | none ↦ first_failure calls ]

  abbrev unless : Option String → Socket → Result String Socket
  unless (some e) s = err e
  unless none s = ok s

  abbrev changed : List Call → Socket → Socket
  changed [] s = s
  changed ((call, change) ∷ calls) s = changed calls (change s)

  attempts-first_failure :
      (calls : List Call) (s : Socket)
      → attempts calls s ≡ unless (first_failure (map (λ c. c.0) calls)) (changed calls s)
  unfolding attempts
  attempts-first_failure [] s = refl
  attempts-first_failure ((call, change) ∷ calls) s =
      elim (fails call)
        as (λ r.
          elim r [ some e ↦ err e | none ↦ attempts calls (change s) ]
          ≡ unless (elim r [ some e ↦ some e | none ↦ first_failure (map (λ c. c.0) calls) ])
              (changed calls (change s))) [
                | some e ↦ refl
                | none ↦ attempts-first_failure calls (change s)
              ]

  -- A TCP socket listens on its address, is not blocking and may take an address that was in use, or
  -- the error is that of the first call that failed.
  pub bind_std_tcp_lem :
      (address : SocketAddr)
      → bind_std_tcp address
        ≡ unless
            (first_failure (new_socket ∷ set_reuse_address ∷ set_nonblocking ∷ bind ∷ listen ∷ []))
            (record unset {
              reuse_address = true;
              nonblocking = true;
              bound = some address;
              backlog = some 1024;
            })
  unfolding bind_std_tcp
  bind_std_tcp_lem address = attempts-first_failure (tcp_calls address) unset

  abbrev buffer_call : Option ℕ → List SystemCall → List SystemCall
  buffer_call none calls = calls
  buffer_call (some size) calls = set_recv_buffer_size ∷ calls

  -- Without a size the buffer is the system's.
  udp_socket :
      (address : SocketAddr) (size : Option ℕ)
      → attempts (udp_calls address size) unset
        ≡ unless
            (first_failure (
              new_socket
              ∷ set_reuse_address
              ∷ set_reuse_port
              ∷ buffer_call size (set_nonblocking ∷ bind ∷ [])))
            (record unset {
              reuse_address = true;
              reuse_port = true;
              recv_buffer = size;
              nonblocking = true;
              bound = some address;
            })
  udp_socket address none = attempts-first_failure (udp_calls address none) unset
  udp_socket address (some size) = attempts-first_failure (udp_calls address (some size)) unset

  -- A UDP socket is bound to its address, is not blocking, shares its port with other processes and
  -- has the buffer that is configured, or the error is that of the first call that failed.
  pub bind_std_udp_lem :
      (address : SocketAddr) (config : SyslogConfig)
      → bind_std_udp address config
        ≡ unless
            (first_failure (
              new_socket
              ∷ set_reuse_address
              ∷ set_reuse_port
              ∷ buffer_call config.udp_so_rcvbuf (set_nonblocking ∷ bind ∷ [])))
            (record unset {
              reuse_address = true;
              reuse_port = true;
              recv_buffer = config.udp_so_rcvbuf;
              nonblocking = true;
              bound = some address;
            })
  unfolding bind_std_udp
  bind_std_udp_lem address config = udp_socket address config.udp_so_rcvbuf

-- `StreamListener::accept`: the peer that a connection has for its messages, unless a PROXY header
-- names another.
pub data StreamListener : Type 0 where
  unix tcp : StreamListener

unfoldable pub accepted_peer :
    (IpAddr → Bytes) → StreamListener → Result String IpAddr → Result String (Option Bytes)
accepted_peer show_ip listener (err e) = err e
accepted_peer show_ip unix (ok ip) = ok none
accepted_peer show_ip tcp (ok ip) = ok (some (show_ip ip))
