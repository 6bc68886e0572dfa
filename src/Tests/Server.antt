-- ===== src/Tests/Server.antt =====
-- Servers that start and stop.
use hyper_ruby.Common.{◌<◌, true, false, none, some, ◌≡◌, refl, arith, equal, Bytes}
use hyper_ruby.Http.Text.{codes, starts_with}
use hyper_ruby.Server.Socket.{
  Files, rename_to, create, move, unlink, Outcomes, is_free, install, bind_unix_listener, is_own,
  finds_own, remove_file, remove_socket_file,
}
use hyper_ruby.Server.Socket.Servers.{
  Servers, down, up, start_server, look_at_file, remove_as, remove_own_socket, ident_of, life_after,
  latest_after, starts, looks, removes, NoneRemoving, Always, Reachable, at_start, after,
}
use hyper_ruby.Server.Socket.Ownership.{Reachable-owner}
use hyper_ruby.Server.Socket.Race.{raced_stop, ordered_stop, raced_stop-loses}
use hyper_ruby.Server.Lifecycle.{
  Server, new_server, Startup, Shutdown, start, stop, make_channels, bind_and_listen, unix_bound,
  listening, run_task, trim_start_matches, trim_from, remove_syslog_file, drained, awaited,
}
use hyper_ruby.Server.Lifecycle.Failed.{Leaves, start-Leaves}
use hyper_ruby.Server.Lifecycle.Stopped.{IsStopped, stop-IsStopped}
use hyper_ruby.Syslog.Config.{default_config, enabled}
use hyper_ruby.Server.Config.{default_server_config}

abbrev path : Bytes
path = codes "/tmp/a"

abbrev no_files : Files
no_files = record { names = λ p. none; next_ident = 0 }

abbrev fine : Outcomes
fine = record { bound = true; read = true; renamed = true; removed = true }

-- A server, its replacement, and the stop of the first: it looks, and has nothing to remove.
abbrev replaced : Servers
replaced = remove_own_socket 0 true path (
    look_at_file 0 path (
      start_server 1 fine (codes "/tmp/a.1") path (
        start_server 0 fine (codes "/tmp/a.0") path
          (record { files = no_files; life = λ i. down; latest = none }))))

abbrev one_up : Servers
one_up =
    start_server 0 fine (codes "/tmp/a.0") path
      (record { files = no_files; life = λ i. down; latest = none })

one_up-NoneRemoving : NoneRemoving one_up
unfolding start_server life_after bind_unix_listener install create is_free rename_to
one_up-NoneRemoving i k e = ground arith

replaced-Reachable : Reachable path NoneRemoving no_files replaced
unfolding start_server life_after latest_after bind_unix_listener install create move rename_to
    is_free equal
replaced-Reachable =
    after
      (after
        (after (after at_start (starts 0 fine (codes "/tmp/a.0") (λ i k e. cc) refl refl refl))
          (starts 1 fine (codes "/tmp/a.1") one_up-NoneRemoving refl refl refl))
        (looks 0))
      (removes 0 true)

replaced_latest : replaced.latest ≡ some 1
unfolding remove_own_socket remove_as look_at_file finds_own is_own ident_of start_server
    latest_after bind_unix_listener install create move rename_to is_free equal
replaced_latest = refl

replaced_up : replaced.life 1 ≡ up (some 1)
unfolding remove_own_socket remove_as look_at_file finds_own is_own ident_of start_server life_after
    bind_unix_listener install create move rename_to is_free equal
replaced_up = refl

Reachable-owner_example : replaced.files.names path ≡ some 1
Reachable-owner_example =
    Reachable-owner path no_files replaced 1 1 replaced-Reachable replaced_latest replaced_up

abbrev one_file : Files
one_file = record { names = rename_to path (some 0) (λ p. none); next_ident = 1 }

one_up-Reachable : Reachable path Always no_files one_up
unfolding equal
one_up-Reachable = after at_start (starts 0 fine (codes "/tmp/a.0") tt refl refl refl)

one_up_here : one_up.life 0 ≡ up (some 0)
unfolding start_server life_after bind_unix_listener install create is_free rename_to
one_up_here = refl

one_up_there : one_up.life 1 ≡ down
unfolding start_server life_after bind_unix_listener install create is_free rename_to
one_up_there = refl

one_up_named : one_up.files.names path ≡ some 0
unfolding start_server bind_unix_listener install create move is_free rename_to equal
one_up_named = refl

one_up_older : 0 < one_up.files.next_ident
unfolding start_server bind_unix_listener install create move is_free rename_to equal
one_up_older = omega arith

one_up_free : one_up.files.names (codes "/tmp/a.1") ≡ none
unfolding start_server bind_unix_listener install create move is_free rename_to equal
one_up_free = refl

raced_stop-loses_example :
    let run = raced_stop 0 1 fine (codes "/tmp/a.1") path one_up in
    Reachable path Always no_files run
    × (run.latest ≡ some 1)
    × (run.life 1 ≡ up (some one_up.files.next_ident))
    × (run.files.names path ≡ none)
    × ((ordered_stop 0 1 fine (codes "/tmp/a.1") path one_up).files.names path
        ≡ some one_up.files.next_ident)
unfolding equal
raced_stop-loses_example =
    raced_stop-loses 0 1 0 fine (codes "/tmp/a.1") path no_files one_up one_up-Reachable one_up_here
      one_up_there one_up_named one_up_older (refl, refl, refl) refl one_up_free

-- The address of the TCP listener of syslog is taken.
abbrev taken : Startup
taken = record {
  runtime_builds = true;
  socket = fine;
  tmp_path = codes "/tmp/a.0";
  address_parses = true;
  address_binds = true;
  syslog = record {
    socket = fine;
    tmp_path = codes "/tmp/s.0";
    tcp_parses = true;
    tcp_binds = false;
    udp_parses = true;
    udp_binds = true;
  };
}

abbrev configured : Server
configured = record new_server {
  config = record default_server_config {
    syslog = record default_config {
      stream_path = some (codes "/tmp/s");
      stream_bind = some (codes "127.0.0.1:514");
    };
  };
}

start-Leaves_example : let c = start taken configured no_files in Leaves configured c.error c.server
start-Leaves_example = start-Leaves taken configured no_files

abbrev quick : Shutdown
quick = record { times_out = false; removed = true }

abbrev late : Shutdown
late = record { times_out = true; removed = false }

stop-IsStopped_example :
    let s = (stop late (start taken configured no_files).server one_file).0 in
    IsStopped s × (stop quick s no_files ≡ (s, no_files))
stop-IsStopped_example =
    stop-IsStopped late quick (start taken configured no_files).server one_file no_files

-- A server on a Unix socket, without syslog.
abbrev on_socket : Server
on_socket = record new_server {
  config = record default_server_config { bind_address = codes "unix:/tmp/a" };
}

abbrev ready : Startup
ready = record taken { tmp_path = codes "/tmp/a.0" }

socket_there : (start ready on_socket no_files).files.names path ≡ some 0
unfolding start make_channels bind_and_listen unix_bound listening run_task bind_unix_listener
    install create move unlink rename_to is_free equal starts_with trim_start_matches trim_from
    enabled new_server default_server_config default_config
socket_there = refl

socket_gone :
    let c = start ready on_socket no_files in (stop quick c.server c.files).1.names path ≡ none
unfolding start stop remove_socket_file finds_own remove_file is_own remove_syslog_file drained
    awaited make_channels bind_and_listen unix_bound listening run_task bind_unix_listener install
    create move unlink rename_to is_free equal starts_with trim_start_matches trim_from enabled
    new_server default_server_config default_config
socket_gone = refl
