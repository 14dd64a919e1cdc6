-- ===== src/Dazai/Loop.antt =====
-- `run_daemon` of rs/crates/dazai/src/main.rs with the event loop of rs/crates/kikka/src/lib.rs in
-- it: the state that the loop is entered with, and how the loop then ends.
pub mod Reaching
pub mod Endings
pub mod Whole
pub mod Journal
use ningen_shikkaku.Base.{
  ℕ, Bool, true, false, List, [], ◌∷◌, Option, none, some, ◌||◌, if◌then◌else◌,
}
use ningen_shikkaku.Goodnight.Buffer.{SecretBuffer}
use ningen_shikkaku.Goodnight.Process.{Kernel}
use ningen_shikkaku.Kikka.Daemon.{Effect}
use ningen_shikkaku.Kikka.EventLoop.{Watchdog, Action, start, run}
use ningen_shikkaku.Dazai.{
  Made, buffers, none_made, LoopEnd, finished, failed, lethal, Host, DaemonArgs, make_buffers,
}

-- The list of buffers that the daemon wipes: the key and the work file.
unfoldable pub secrets : Made → List SecretBuffer
secrets (buffers key work) = key ∷ work ∷ []
secrets (none_made e) = []

unfoldable pub is_lethal : Effect → Bool
is_lethal Effect.lethal = true
is_lethal _ = false

unfoldable pub has_lethal : List Effect → Bool
has_lethal [] = false
has_lethal (e ∷ es) = is_lethal e || has_lethal es

-- How the loop has ended, if it has: it fails where the signal handlers cannot be installed, and the
-- lethal closure does not come back.
unfoldable pub loop_end : (signals_install : Bool) → Watchdog → Option LoopEnd
loop_end false w = some failed
loop_end true w =
    if has_lethal w.daemon.trace
    then some lethal
    else elim w.ended [ none ↦ none | some _ ↦ some finished ]

-- `run_daemon` goes on only with a grace; without one the loop is not reached.
pub grace_of : Option ℕ → ℕ
grace_of none = 0
grace_of (some grace) = grace

-- The loop as `run_daemon` starts it. `armed` is `--arm`.
unfoldable pub serve_start : Host → DaemonArgs → (armed : Bool) → (now : ℕ) → Watchdog
unfolding grace_of
serve_start h args armed now =
    start (grace_of args.grace) now armed args.korg_sink
      (secrets (make_buffers h.key_memory h.work_memory args.size).0)

-- The daemon of `run_daemon`, after what has happened to it in its loop.
unfoldable pub serve :
    Kernel → Host → DaemonArgs → (armed : Bool) → (now : ℕ) → List Action → Watchdog
unfolding grace_of serve_start
serve k h args armed now actions =
    run k (grace_of args.grace) actions (serve_start h args armed now)
