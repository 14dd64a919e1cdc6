-- ===== src/Dazai/Pidfile.antt =====
-- `write_pidfile` of rs/crates/dazai/src/main.rs, and the removal of the pidfile, over the files of
-- a system.
use ningen_shikkaku.Base.{ℕ, ◌++◌, [], ◌∷◌}
use ningen_shikkaku.Base.Text.{Bytes}
use ningen_shikkaku.Base.Decimal.{show}
use ningen_shikkaku.Base.Paths.{Files, write_file, remove_file}
use ningen_shikkaku.Dazai.Paths.{pidfile_for}

unfoldable pub pidfile_text : (pid : ℕ) → Bytes
pidfile_text pid = show pid ++ b'\n' ∷ []

-- `write_pidfile` beside a socket.
unfoldable pub place_pidfile : (socket : Bytes) → (pid : ℕ) → Files → Files
unfolding pidfile_for pidfile_text write_file
place_pidfile socket pid files = write_file (pidfile_for socket) (pidfile_text pid) files

-- At a clean end and in the lethal closure.
unfoldable pub clear_pidfile : (socket : Bytes) → Files → Files
unfolding pidfile_for remove_file
clear_pidfile socket files = remove_file (pidfile_for socket) files
