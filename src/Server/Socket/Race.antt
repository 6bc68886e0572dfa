-- ===== src/Server/Socket/Race.antt =====
-- What becomes of the file of a server that installs it between the look and the removal of another.
use hyper_ruby.Common.{
  ℕ, true, false, ◌≡◌, ◌<◌, ◌==◌, ap, sym, ◌∙◌, ne→==_false, refl, arith, none, some, equal,
  equal_refl, Bytes,
}
use hyper_ruby.Server.Socket.{
  Files, rename_to, unlink, create, move, Outcomes, is_free, install, bind_unix_listener, is_own,
  finds_own, remove_file,
}
use hyper_ruby.Server.Socket.Servers.{
  Servers, set_life, life_after, latest_after, start_server, ident_of, look_at_file, remove_as,
  remove_own_socket, Always, Reachable, down, up, removing, starts, looks, removes, after,
}

-- The calls of the old server `i` and its replacement `j` in this order: the look of `i`, all of the
-- start of `j`, and the removal of `i`.
abbrev pub raced_stop : ℕ → ℕ → Outcomes → Bytes → Bytes → Servers → Servers
raced_stop i j o tmp_path path s =
    remove_own_socket i true path (start_server j o tmp_path path (look_at_file i path s))

-- The same with the look after the start.
abbrev pub ordered_stop : ℕ → ℕ → Outcomes → Bytes → Bytes → Servers → Servers
ordered_stop i j o tmp_path path s =
    remove_own_socket i true path (look_at_file i path (start_server j o tmp_path path s))

same : (n : ℕ) → (n == n) ≡ true
same n = ground arith

look_at_file-own :
    (i k : ℕ) (path : Bytes) (s : Servers)
    → s.life i ≡ up (some k)
    → s.files.names path ≡ some k
    → look_at_file i path s ≡ record s { life = set_life i (removing k) s.life }
unfolding look_at_file ident_of finds_own is_own
look_at_file-own i k path s here named = rw (here, named, same k) refl

look_at_file-other :
    (i k n : ℕ) (path : Bytes) (s : Servers)
    → s.life i ≡ up (some k)
    → s.files.names path ≡ some n
    → (n == k) ≡ false
    → look_at_file i path s ≡ record s { life = set_life i down s.life }
unfolding look_at_file ident_of finds_own is_own
look_at_file-other i k n path s here named differ = rw (here, named, differ) refl

-- The state after a start of `j` that left the files `fs` and bound the identity `n`.
abbrev started : ℕ → ℕ → Files → Servers → Servers
started j n fs s = record { files = fs; life = set_life j (up (some n)) s.life; latest = some j }

-- Every call of a start is a success.
abbrev pub Succeeds : Outcomes → Type 0
Succeeds o = (o.bound ≡ true) × (o.read ≡ true) × (o.renamed ≡ true)

start_server-up :
    (j : ℕ) (o : Outcomes) (tmp_path path : Bytes) (s : Servers)
    → Succeeds o
    → s.files.names tmp_path ≡ none
    → (fs : Files) × (start_server j o tmp_path path s ≡ started j s.files.next_ident fs s)
      × (fs.names path ≡ some s.files.next_ident)
unfolding start_server life_after latest_after bind_unix_listener install create move rename_to
    is_free
start_server-up j o tmp_path path s (b, r, n) free = (
  move tmp_path path (create tmp_path s.files),
  rw (b, r, n, free) refl,
  rw (equal_refl path, equal_refl tmp_path) refl,
)

-- The removal takes away what is under the path.
removed-file :
    (i k : ℕ) (path : Bytes) (s : Servers)
    → s.life i ≡ removing k
    → remove_own_socket i true path s
      ≡ record s { files = unlink path s.files; life = set_life i down s.life }
unfolding remove_own_socket remove_as remove_file
removed-file i k path s here = rw here refl

kept-file :
    (i : ℕ) (path : Bytes) (s : Servers) → s.life i ≡ down → remove_own_socket i true path s ≡ s
unfolding remove_own_socket remove_as
kept-file i path s here = rw here refl

unlinked : (path : Bytes) (fs : Files) → (unlink path fs).names path ≡ none
unfolding unlink rename_to
unlinked path fs = rw (equal_refl path) refl

module _ (i j k : ℕ) (o : Outcomes) (tmp_path path : Bytes) (s : Servers)
    (here : s.life i ≡ up (some k)) (there : s.life j ≡ down) (named : s.files.names path ≡ some k)
    (fine : Succeeds o) (free : s.files.names tmp_path ≡ none) where
  distinct : (i ≡ j) → ⊥
  distinct e = let x : up (some k) ≡ down = sym here ∙ ap s.life e ∙ there in cc

  i_is_not_j : (j == i) ≡ false
  i_is_not_j = ne→==_false j i (λ e. distinct (sym e))

  j_is_not_i : (i == j) ≡ false
  j_is_not_i = ne→==_false i j distinct

  abbrev looked : Servers
  looked = record s { life = set_life i (removing k) s.life }

  raced_stop-files :
      let run = raced_stop i j o tmp_path path s in
      (run.latest ≡ some j)
      × (run.life j ≡ up (some s.files.next_ident))
      × (run.files.names path ≡ none)
  raced_stop-files =
      let (fs, e, new) = start_server-up j o tmp_path path looked fine free in
      rw (look_at_file-own i k path s here named, e)
        (rw
          (removed-file i k path (started j s.files.next_ident fs looked)
            (rw (i_is_not_j, same i) refl))
          (refl, rw (j_is_not_i, same j) refl, unlinked path fs))

  ordered_stop-files :
      k < s.files.next_ident
      → (ordered_stop i j o tmp_path path s).files.names path ≡ some s.files.next_ident
  ordered_stop-files older =
      let (fs, e, new) = start_server-up j o tmp_path path s fine free in
      rw e (
        rw
          (look_at_file-other i k s.files.next_ident path (started j s.files.next_ident fs s)
            (rw i_is_not_j here) new (ne→==_false s.files.next_ident k (omega arith)))
          (rw
            (kept-file i path
              (record (started j s.files.next_ident fs s) {
                life = set_life i down (set_life j (up (some s.files.next_ident)) s.life);
              })
              (rw (same i) refl))
            new))

  look_at_file-down : (look_at_file i path s).life j ≡ down
  look_at_file-down = rw (look_at_file-own i k path s here named) (rw j_is_not_i there)

-- A server on a path stops, and its look finds its own file; then another server starts there, with
-- every call a success and a temporary name that is free and is not the path; and then the first
-- does its removal. This is a run of the servers; at its end the replacement is up and the last one
-- to have installed its file, and yet the path names no file. With the look after the start, the file
-- of the replacement stays.
pub raced_stop-loses :
    (i j k : ℕ) (o : Outcomes) (tmp_path path : Bytes) (fs : Files) (s : Servers)
    → Reachable path Always fs s
    → s.life i ≡ up (some k)
    → s.life j ≡ down
    → s.files.names path ≡ some k
    → k < s.files.next_ident
    → Succeeds o
    → equal tmp_path path ≡ false
    → s.files.names tmp_path ≡ none
    → let run = raced_stop i j o tmp_path path s in
      Reachable path Always fs run
      × (run.latest ≡ some j)
      × (run.life j ≡ up (some s.files.next_ident))
      × (run.files.names path ≡ none)
      × ((ordered_stop i j o tmp_path path s).files.names path ≡ some s.files.next_ident)
unfolding look_at_file
raced_stop-loses i j k o tmp_path path fs s reached here there named older fine other free =
    let (last, life, gone) = raced_stop-files i j k o tmp_path path s here there named fine free in
    (
      after
          (after (after reached (looks i)) (
            starts j o tmp_path tt
              (look_at_file-down i j k o tmp_path path s here there named fine free) other free))
          (removes i true),
      last,
      life,
      gone,
      ordered_stop-files i j k o tmp_path path s here there named fine free older,
    )
