-- ===== src/Server/Socket.antt =====
-- The files of Unix sockets: `bind_unix_listener` and `remove_socket_file` of
-- ext/hyper_ruby/src/syslog.rs, and the same steps in `start` and `stop` of lib.rs. A server binds
-- under a temporary name and renames, and removes only a file that has the identity it bound.
pub mod Servers
pub mod Ownership
pub mod Race
use hyper_ruby.Common.{
  ℕ, ◌+◌, Bool, true, false, ◌&&◌, ◌==◌, List, Option, none, some, if◌then◌else◌, equal, Bytes,
  Result, ok, err,
}

-- The file system: the identity of what a path names, one number for device and inode, and the
-- next identity. Identities are not used again.
pub record Files : Type 0 where
  pub names : Bytes → Option ℕ
  pub next_ident : ℕ

-- The file system with another file, or none, under one path.
unfoldable pub rename_to : Bytes → Option ℕ → (Bytes → Option ℕ) → Bytes → Option ℕ
rename_to path file names p = if equal path p then file else names p

-- `remove_file`
unfoldable pub unlink : Bytes → Files → Files
unfolding rename_to
unlink path fs = record fs { names = rename_to path none fs.names }

-- `UnixListener::bind` makes the file.
unfoldable pub create : Bytes → Files → Files
unfolding rename_to
create path fs = record {
  names = rename_to path (some fs.next_ident) fs.names;
  next_ident = fs.next_ident + 1;
}

-- `rename`
unfoldable pub move : Bytes → Bytes → Files → Files
unfolding rename_to
move from to fs = record fs { names = rename_to to (fs.names from) (rename_to from none fs.names) }

-- What else the system makes of the calls: whether it can bind, read the metadata, rename and
-- remove.
pub record Outcomes : Type 0 where
  pub bound : Bool
  pub read : Bool
  pub renamed : Bool
  pub removed : Bool

pub data SocketError : Type 0 where
  bind_failed rename_failed : SocketError

unfoldable pub is_free : Option ℕ → Bool
is_free none = true
is_free (some k) = false

-- The identity that was bound, if its metadata could be read, and the files.
abbrev pub Bound : Type 0
Bound = Result SocketError (Option ℕ) × Files

-- From the rename on.
unfoldable pub install : Outcomes → Bytes → Bytes → Option ℕ → Files → Bound
unfolding move unlink
install o tmp_path path ident fs =
    if o.renamed
    then (ok ident, move tmp_path path fs)
    else (err rename_failed, if o.removed then unlink tmp_path fs else fs)

unfoldable pub bind_unix_listener : Outcomes → Bytes → Bytes → Files → Bound
unfolding install create is_free
bind_unix_listener o tmp_path path fs =
    if o.bound && is_free (fs.names tmp_path)
    then install o tmp_path path (if o.read then some fs.next_ident else none) (create tmp_path fs)
    else (err bind_failed, fs)

-- `(meta.dev(), meta.ino()) == (dev, ino)`, where there is a file.
unfoldable pub is_own : Option ℕ → ℕ → Bool
is_own none ident = false
is_own (some k) ident = k == ident

-- The look, `symlink_metadata`. With no identity nothing is looked at.
unfoldable pub finds_own : Bytes → Option ℕ → Files → Bool
unfolding is_own
finds_own path none fs = false
finds_own path (some ident) fs = is_own (fs.names path) ident

-- The removal, another call, which takes away whatever is under the path then.
unfoldable pub remove_file : Bool → Bytes → Files → Files
unfolding unlink
remove_file removed path fs = if removed then unlink path fs else fs

-- The look and the removal with nothing in between.
unfoldable pub remove_socket_file : Bool → Bytes → Option ℕ → Files → Files
unfolding finds_own remove_file
remove_socket_file removed path ident fs =
    if finds_own path ident fs then remove_file removed path fs else fs
