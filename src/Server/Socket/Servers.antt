-- ===== src/Server/Socket/Servers.antt =====
-- Several servers, one after another or at once, that take over the same path: `start` and `stop` of
-- ext/hyper_ruby/src/lib.rs as far as they go about the socket file. A stop is two steps, the look and
-- the removal. A start is one step: until its rename it touches only a temporary name of its own.
use hyper_ruby.Common.{
  ℕ, Bool, true, false, ◌==◌, ◌≡◌, Option, none, some, if◌then◌else◌, equal, Bytes, Result, ok, err,
}
use hyper_ruby.Server.Socket.{
  Files, Outcomes, SocketError, bind_unix_listener, finds_own, remove_file,
}

-- A server is down, up with the identity that it bound, if it could read it, or between its look,
-- which found its own file, and its removal.
pub data Life : Type 0 where
  down : Life
  up : Option ℕ → Life
  removing : ℕ → Life

pub record Servers : Type 0 where
  pub files : Files
  pub life : ℕ → Life
  -- the last one that installed its file
  pub latest : Option ℕ

abbrev pub set_life : ℕ → Life → (ℕ → Life) → ℕ → Life
set_life i l f j = if i == j then l else f j

unfoldable pub life_after : Result SocketError (Option ℕ) → Life
life_after (ok ident) = up ident
life_after (err e) = down

unfoldable pub latest_after : ℕ → Result SocketError (Option ℕ) → Option ℕ → Option ℕ
latest_after i (ok ident) old = some i
latest_after i (err e) old = old

unfoldable pub start_server : ℕ → Outcomes → Bytes → Bytes → Servers → Servers
unfolding life_after latest_after
start_server i o tmp_path path s =
    let (bound, fs) = bind_unix_listener o tmp_path path s.files in
    record {
      files = fs;
      life = set_life i (life_after bound) s.life;
      latest = latest_after i bound s.latest;
    }

unfoldable pub ident_of : Life → Option ℕ
ident_of down = none
ident_of (up ident) = ident
ident_of (removing k) = some k

-- The server has looked.
abbrev pub after_look : Life → Bool → Life
after_look (up (some k)) true = removing k
after_look (removing k) own = removing k
after_look l own = down

-- A server that stops looks whether the path has its own file,
unfoldable pub look_at_file : ℕ → Bytes → Servers → Servers
unfolding ident_of finds_own
look_at_file i path s = record s {
  life = set_life i (after_look (s.life i) (finds_own path (ident_of (s.life i)) s.files)) s.life;
}

-- and removes the file, if it was its own when it looked.
unfoldable pub remove_as : Life → ℕ → Bool → Bytes → Servers → Servers
unfolding remove_file
remove_as (removing k) i removed path s = record s {
  files = remove_file removed path s.files;
  life = set_life i down s.life;
}
remove_as down i removed path s = s
remove_as (up ident) i removed path s = s

unfoldable pub remove_own_socket : ℕ → Bool → Bytes → Servers → Servers
unfolding remove_as
remove_own_socket i removed path s = remove_as (s.life i) i removed path s

-- A temporary name is the server's own: it is not the path, and nothing has it. Where a server may
-- install its file is a condition on the state.
pub data Step (path : Bytes) (Installs : Servers → Type 0) : Servers → Servers → Type 0 where
  starts :
      {s : Servers} (i : ℕ) (o : Outcomes) (tmp_path : Bytes)
      → Installs s
      → s.life i ≡ down
      → equal tmp_path path ≡ false
      → s.files.names tmp_path ≡ none
      → Step path Installs s (start_server i o tmp_path path s)
  looks : {s : Servers} (i : ℕ) → Step path Installs s (look_at_file i path s)
  removes :
      {s : Servers} (i : ℕ) (removed : Bool)
      → Step path Installs s (remove_own_socket i removed path s)

-- Files may be installed at any time.
abbrev pub Always : Servers → Type 0
Always s = Unit {0}

-- No server is between its look and its removal.
abbrev pub NoneRemoving : Servers → Type 0
NoneRemoving s = (i k : ℕ) → ¬ (s.life i ≡ removing k)

-- From any files, with no server.
pub data Reachable (path : Bytes) (Installs : Servers → Type 0) (fs : Files)
    : Servers → Type 0 where
  at_start : Reachable path Installs fs (record { files = fs; life = λ i. down; latest = none })
  after :
      {s s' : Servers}
      → Reachable path Installs fs s
      → Step path Installs s s'
      → Reachable path Installs fs s'
