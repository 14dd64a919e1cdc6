-- ===== src/Tests/Pidfile.antt =====
-- The pidfile between rs/crates/dazai/src/main.rs and rs/crates/rei/src/lib.rs at concrete paths.
use ningen_shikkaku.Base.{◌≡◌, refl, true, none, some, [], arith}
use ningen_shikkaku.Base.Text.{Bytes, codes, text_eq}
use ningen_shikkaku.Base.Decimal.{show}
use ningen_shikkaku.Base.Paths.{
  Files, with_extension, segments, slashed, rename, rename_last, renamed_path, file_stem,
  before_dot, is_skipped, join,
}
use ningen_shikkaku.Base.Paths.Naming.{IsName}
use ningen_shikkaku.Rei.{Reply, failed, new_client, read_daemon_pid}
use ningen_shikkaku.Dazai.Paths.{default_socket_path, runtime_base}
use ningen_shikkaku.Dazai.Pidfile.{place_pidfile, clear_pidfile}
use ningen_shikkaku.Rei.Pidfile.{new_client-place_pidfile, new_client-shared}
use ningen_shikkaku.Kikka.Binding.{
  Node, Binding, bind, path_exists, remove_file, bind_socket, restrict,
}

abbrev no_files : Files
no_files _ = none

abbrev offline : Bytes → Bytes → Reply
offline _ _ = failed []

abbrev at_run : Bytes → Bytes
at_run name = join (codes "/run") name

new_client-place_pidfile_example :
    let placed = place_pidfile (codes "/run/dazai.sock") 41 no_files in
    (read_daemon_pid (new_client offline placed (λ _ _. true) (codes "/run/dazai.sock")).pidfile
      ≡ some 41)
    × (read_daemon_pid
          (new_client offline
            (clear_pidfile (codes "/run/dazai.sock") placed)
            (λ _ _. true)
            (codes "/run/dazai.sock")).pidfile
        ≡ none)
new_client-place_pidfile_example =
    new_client-place_pidfile offline (λ _ _. true) no_files (codes "/run/dazai.sock") 41
      (ground arith)

one-IsName : IsName (codes "dazai.one")
unfolding is_skipped text_eq
one-IsName = record {
  whole = (refl, (refl, (refl, (refl, (refl, (refl, (refl, (refl, (refl, tt)))))))));
  kept = refl;
  child = refl;
}

two-IsName : IsName (codes "dazai.two")
unfolding is_skipped text_eq
two-IsName = record {
  whole = (refl, (refl, (refl, (refl, (refl, (refl, (refl, (refl, (refl, tt)))))))));
  kept = refl;
  child = refl;
}

new_client-shared_example :
    let placed =
      place_pidfile
        (at_run (codes "dazai.two"))
        42
        (place_pidfile (at_run (codes "dazai.one")) 41 no_files) in
    (read_daemon_pid (new_client offline placed (λ _ _. true) (at_run (codes "dazai.one"))).pidfile
      ≡ some 42)
    × (read_daemon_pid
          (new_client offline
            (clear_pidfile (at_run (codes "dazai.two")) placed)
            (λ _ _. true)
            (at_run (codes "dazai.one"))).pidfile
        ≡ none)
new_client-shared_example =
    new_client-shared offline (λ _ _. true) no_files (codes "/run") b'd' (codes "azai")
      (codes "one") (codes "two") 41 42 one-IsName two-IsName (refl, (refl, (refl, tt)))
      (refl, (refl, (refl, tt))) (ground arith)

-- Without a file name, and with a dot only in front, or none.
renaming :
    (with_extension (codes "pid") (codes "/run/..") ≡ codes "/run/..")
    × (with_extension (codes "pid") (codes "/") ≡ codes "/")
    × (with_extension (codes "pid") (codes "/run/.sock") ≡ codes "/run/.sock.pid")
    × (with_extension (codes "pid") (codes "a.b.sock/./") ≡ codes "a.b.pid")
    × (with_extension (codes "pid") (codes "dazai") ≡ codes "dazai.pid")
unfolding with_extension segments slashed rename rename_last renamed_path file_stem before_dot
    is_skipped text_eq
renaming = (refl, refl, refl, refl, refl)

-- A runtime directory that is set and empty gives a path in the working directory.
empty_runtime : default_socket_path (some []) 7 ≡ codes "dazai-7.sock"
unfolding default_socket_path join runtime_base show
empty_runtime = refl

-- The socket of a live daemon is taken.
taken :
    bind
      (record { unlinks = true; binds = true; chmods = true; made_mode = 493 })
      42
      (Node.socket 41 384)
    ≡ (Node.socket 42 384, Binding.bound)
unfolding bind path_exists remove_file bind_socket restrict
taken = refl
