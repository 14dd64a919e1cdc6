-- ===== src/Kikka/EventLoop/Interrupted.antt =====
-- A self-destruct and a dry run of rs/crates/kikka/src/lib.rs with the threads of control clients in
-- between. The loop's thread takes the lock of the registered pids while it kills them and for no
-- other step, so lines can be handled before it, behind it, and behind the wipe.
pub mod Shots
pub mod Order
use ningen_shikkaku.Base.{ℕ, List, [], ◌∷◌}
use ningen_shikkaku.Base.Text.{Bytes}
use ningen_shikkaku.Goodnight.Process.{Kernel}
use ningen_shikkaku.Kikka.Control.{process_control}
use ningen_shikkaku.Kikka.Daemon.{Daemon, kill_registered, wipe_all, kill_self, dry_done}

module _ (k : Kernel) (grace : ℕ) where
  -- Lines of control clients, each handled whole.
  unfoldable pub controls : List Bytes → Daemon → Daemon
  controls [] d = d
  controls (line ∷ rest) d = controls rest (process_control k grace line d).0

  -- Behind the test of `armed`.
  unfoldable pub execute_steps : (before_kill before_wipe before_end : List Bytes) → Daemon → Daemon
  execute_steps before_kill before_wipe before_end d = kill_self (
      controls before_end
        (wipe_all (controls before_wipe (kill_registered k (controls before_kill d)))))

  unfoldable pub dry_steps : (before_wipe before_end : List Bytes) → Daemon → Daemon
  dry_steps before_wipe before_end d =
      dry_done (controls before_end (wipe_all (controls before_wipe d)))
