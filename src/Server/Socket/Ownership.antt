-- ===== src/Server/Socket/Ownership.antt =====
-- Whose socket file a path names.
use hyper_ruby.Common.{
  ℕ, ◌+◌, ◌<◌, ◌≤◌, Bool, true, false, ◌&&◌, ◌≡◌, refl, ap, arith, Option, none, some,
  if◌then◌else◌, equal, equal_refl, Bool-cases, inl, inr, Bytes, Result, ok, err,
}
use hyper_ruby.Server.Socket.{
  Files, rename_to, unlink, create, move, Outcomes, SocketError, is_free, install,
  bind_unix_listener, is_own, finds_own, remove_file,
}
use hyper_ruby.Server.Socket.Servers.{
  Life, Servers, set_life, life_after, latest_after, start_server, ident_of, after_look,
  look_at_file, remove_as, remove_own_socket, Step, NoneRemoving, Reachable, down, up, removing,
  starts, looks, removes, at_start, after,
}

-- Identities are below the next one and belong to one server each; the last server to install its
-- file has it under the path for as long as it is up; and so has a server that is to remove its own.
record IsOwned (path : Bytes) (s : Servers) : Type 0 where
  below : (i k : ℕ) → ident_of (s.life i) ≡ some k → k < s.files.next_ident
  unique : (i j k : ℕ) → ident_of (s.life i) ≡ some k → ident_of (s.life j) ≡ some k → i ≡ j
  owner : (i k : ℕ) → s.latest ≡ some i → s.life i ≡ up (some k) → s.files.names path ≡ some k
  own : (i k : ℕ) → s.life i ≡ removing k → s.files.names path ≡ some k

-- What binding does to the files, as far as the servers go.
data Binds (path : Bytes) (fs : Files) : Result SocketError (Option ℕ) × Files → Type 0 where
  bound :
      {ident : Option ℕ} {fs' : Files}
      → fs'.names path ≡ some fs.next_ident
      → fs'.next_ident ≡ fs.next_ident + 1
      → ((k : ℕ) → ident ≡ some k → k ≡ fs.next_ident)
      → Binds path fs (ok ident, fs')
  unbound :
      {e : SocketError} {fs' : Files}
      → fs'.names path ≡ fs.names path
      → fs.next_ident ≤ fs'.next_ident
      → Binds path fs (err e, fs')

install-Binds :
    (o : Outcomes) (tmp_path path : Bytes) (ident : Option ℕ) (fs : Files)
    → equal tmp_path path ≡ false
    → ((k : ℕ) → ident ≡ some k → k ≡ fs.next_ident)
    → Binds path fs (install o tmp_path path ident (create tmp_path fs))
unfolding install create move unlink rename_to
install-Binds o tmp_path path ident fs ne own = elim (Bool-cases o.renamed) [
  | inl r ↦ rw r (bound (rw (equal_refl path, equal_refl tmp_path) refl) refl own)
  | inr r ↦ elim (Bool-cases o.removed) [
    | inl c ↦ rw (r, c) (unbound (rw ne refl) (omega arith))
    | inr c ↦ rw (r, c) (unbound (rw ne refl) (omega arith))
  ]
]

ident_read : (read : Bool) (n k : ℕ) → (if read then some n else none) ≡ some k → k ≡ n
ident_read true n k e = cc
ident_read false n k e = cc

bind_unix_listener-Binds :
    (o : Outcomes) (tmp_path path : Bytes) (fs : Files)
    → equal tmp_path path ≡ false
    → Binds path fs (bind_unix_listener o tmp_path path fs)
unfolding bind_unix_listener
bind_unix_listener-Binds o tmp_path path fs ne =
    elim (Bool-cases (o.bound && is_free (fs.names tmp_path))) [
      | inl b ↦ rw b (
          install-Binds o tmp_path path (if o.read then some fs.next_ident else none) fs ne
            (ident_read o.read fs.next_ident))
      | inr b ↦ rw b (unbound refl (omega arith))
    ]

module _ (path : Bytes) where
  -- The new state of the servers after a start, from what binding did.
  start-IsOwned :
      (s : Servers) (i : ℕ) (b : Result SocketError (Option ℕ) × Files)
      → IsOwned path s
      → NoneRemoving s
      → s.life i ≡ down
      → Binds path s.files b
      → IsOwned path (record {
        files = b.1;
        life = set_life i (life_after b.0) s.life;
        latest = latest_after i b.0 s.latest;
      })
  unfolding life_after latest_after ident_of
  start-IsOwned s i (ok ident, fs) o quiet d (bound named next own) = record {
    below = λ j k e. ground (arith, o.below j k, own k);
    unique = λ j j' k e e'. ground (arith, o.unique j j' k, o.below j k, o.below j' k, own k);
    owner = λ j k l e. ground (arith, own k);
    own = λ j k e. ground (arith, quiet j k);
  }
  start-IsOwned s i (err x, fs) o quiet d (unbound named next) = record {
    below = λ j k e. ground (arith, o.below j k);
    unique = λ j j' k e e'. ground (arith, o.unique j j' k);
    owner = λ j k l e. ground (arith, o.owner j k);
    own = λ j k e. ground (arith, o.own j k);
  }

  down-IsOwned :
      (s : Servers) (i : ℕ)
      → IsOwned path s
      → IsOwned path (record s { life = set_life i down s.life })
  unfolding ident_of
  down-IsOwned s i o = record {
    below = λ j k e. ground (arith, o.below j k);
    unique = λ j j' k e e'. ground (arith, o.unique j j' k);
    owner = λ j k l e. ground (arith, o.owner j k);
    own = λ j k e. ground (arith, o.own j k);
  }

  -- The look of a server that finds its own file.
  removing-IsOwned :
      (s : Servers) (i k : ℕ)
      → IsOwned path s
      → ident_of (s.life i) ≡ some k
      → s.files.names path ≡ some k
      → IsOwned path (record s { life = set_life i (removing k) s.life })
  unfolding ident_of
  removing-IsOwned s i k o here named = record {
    below = λ j k' e. ground (arith, o.below j k', o.below i k);
    unique = λ j j' k' e e'. ground (arith, o.unique j j' k', o.unique i j' k, o.unique j i k);
    owner = λ j k' l e. ground (arith, o.owner j k');
    own = λ j k' e. ground (arith, o.own j k');
  }

  own_name : (file : Option ℕ) (k : ℕ) → is_own file k ≡ true → file ≡ some k
  unfolding is_own
  own_name none k h = cc
  own_name (some j) k h = ground arith

  look-IsOwned :
      (s : Servers) (i : ℕ) (l : Life)
      → IsOwned path s
      → s.life i ≡ l
      → IsOwned path (record s {
        life = set_life i (after_look l (finds_own path (ident_of l) s.files)) s.life;
      })
  unfolding finds_own ident_of
  look-IsOwned s i down o e = down-IsOwned s i o
  look-IsOwned s i (up none) o e = down-IsOwned s i o
  look-IsOwned s i (up (some k)) o e = elim (Bool-cases (is_own (s.files.names path) k)) [
    | inl own ↦
        rw own (removing-IsOwned s i k o (ap ident_of e) (own_name (s.files.names path) k own))
    | inr other ↦ rw other (down-IsOwned s i o)
  ]
  look-IsOwned s i (removing k) o e = removing-IsOwned s i k o (ap ident_of e) (o.own i k e)

  -- The file is that of the server that removes it, so it is not that of the last one, if that is
  -- up.
  unlink-IsOwned :
      (s : Servers) (i k : ℕ)
      → IsOwned path s
      → s.life i ≡ removing k
      → IsOwned path (record s { files = unlink path s.files; life = set_life i down s.life })
  unfolding unlink rename_to ident_of
  unlink-IsOwned s i k o here = record {
    below = λ j k' e. ground (arith, o.below j k');
    unique = λ j j' k' e e'. ground (arith, o.unique j j' k');
    owner = λ j k' l e. absurd (ground (arith, o.owner j k' l, o.own i k here, o.unique i j k));
    own = λ j k' e. absurd (ground (arith, o.own j k', o.own i k here, o.unique i j k));
  }

  remove-IsOwned :
      (s : Servers) (i : ℕ) (removed : Bool) (l : Life)
      → IsOwned path s
      → s.life i ≡ l
      → IsOwned path (remove_as l i removed path s)
  unfolding remove_as remove_file
  remove-IsOwned s i removed down o e = o
  remove-IsOwned s i removed (up ident) o e = o
  remove-IsOwned s i true (removing k) o e = unlink-IsOwned s i k o e
  remove-IsOwned s i false (removing k) o e = down-IsOwned s i o

Step-IsOwned :
    (path : Bytes) {s s' : Servers} → Step path NoneRemoving s s' → IsOwned path s → IsOwned path s'
unfolding start_server look_at_file remove_own_socket
Step-IsOwned path {s} (starts i o tmp_path quiet d ne free) v =
    start-IsOwned path s i (bind_unix_listener o tmp_path path s.files) v quiet d
      (bind_unix_listener-Binds o tmp_path path s.files ne)
Step-IsOwned path {s} (looks i) v = look-IsOwned path s i (s.life i) v refl
Step-IsOwned path {s} (removes i removed) v = remove-IsOwned path s i removed (s.life i) v refl

Reachable-IsOwned :
    (path : Bytes) (fs : Files) (s : Servers) → Reachable path NoneRemoving fs s → IsOwned path s
unfolding ident_of
Reachable-IsOwned path fs s at_start = record {
  below = λ i k e. cc;
  unique = λ i j k e e'. cc;
  owner = λ i k l e. cc;
  own = λ i k e. cc;
}
Reachable-IsOwned path fs s (after {s = before} r step) =
    Step-IsOwned path step (Reachable-IsOwned path fs before r)

-- However servers start and stop on a path, each start under a temporary name that is free and is not
-- the path, as long as none installs its socket file between the look of one that stops and the
-- removal that may follow: the last one that installed its socket file has
-- it there for as long as it is up, if it could read the identity of the file. No older server that
-- stops takes it away.
pub Reachable-owner :
    (path : Bytes) (fs : Files) (s : Servers) (i k : ℕ)
    → Reachable path NoneRemoving fs s
    → s.latest ≡ some i
    → s.life i ≡ up (some k)
    → s.files.names path ≡ some k
Reachable-owner path fs s i k r = (Reachable-IsOwned path fs s r).owner i k
