-- ===== src/Dazai/Main.antt =====
-- `main` and `run_mcp` of rs/crates/dazai/src/main.rs.
use ningen_shikkaku.Base.{
  ℕ, ◌≡◌, Bool, true, false, Option, none, some, List, length, if◌then◌else◌, arith,
}
use ningen_shikkaku.Goodnight.Process.{Kernel}
use ningen_shikkaku.Kikka.EventLoop as EventLoop
use ningen_shikkaku.Kikka.EventLoop.Audit.{IsWiped, verdict, wiped}
use ningen_shikkaku.Kikka.EventLoop.Frames.{kills}
use ningen_shikkaku.Dazai.{Exit, clean, Host, DaemonArgs, run_daemon}
use ningen_shikkaku.Dazai.Client.{ClientEnd, Connection, run_client}
use ningen_shikkaku.Dazai.Loop.{loop_end, serve}
use ningen_shikkaku.Dazai.Loop.Whole.{serve-Promise}

pub data Transport : Type 0 where
  stdio unix : Transport

pub data ExitCode : Type 0 where
  success failure : ExitCode

-- `runtime` is whether tokio starts, `served` whether `serve_stdio` ends without an error.
pub data Command : Type 0 where
  daemon : Host → DaemonArgs → Command
  client : (positive : Bool) → (interval : Option ℕ) → Connection → Command
  mcp : (runtime served : Bool) → Transport → Command

unfoldable pub run_mcp : (runtime served : Bool) → Transport → Bool
run_mcp runtime served Transport.stdio = if runtime then served else false
run_mcp runtime served Transport.unix = false

unfoldable pub exit_code : Bool → ExitCode
exit_code true = success
exit_code false = failure

-- No code where the process is killed.
unfoldable pub daemon_code : Exit → Option ExitCode
unfolding exit_code
daemon_code Exit.clean = some (exit_code true)
daemon_code Exit.sigkilled = none
daemon_code _ = some (exit_code false)

-- No code while the client waits.
unfoldable pub client_code : ClientEnd → Option ExitCode
unfolding exit_code
client_code ClientEnd.closed = some (exit_code true)
client_code ClientEnd.waiting = none
client_code _ = some (exit_code false)

unfoldable pub main : Command → Option ExitCode
unfolding daemon_code client_code run_mcp
main (daemon h args) = daemon_code (run_daemon h args).0
main (client positive interval c) = client_code (run_client positive interval c).0
main (mcp runtime served t) = some (exit_code (run_mcp runtime served t))

daemon_code_success : (x : Exit) → daemon_code x ≡ some success → x ≡ clean
unfolding daemon_code
daemon_code_success x e = ground arith

-- A daemon that exits with success had both its buffers and has wiped them, and the audit of its loop
-- ends with that wipe, with nothing signalled or killed, where the loop ended as the exit takes it to have ended.
pub main-IsWiped :
    (k : Kernel) (h : Host) (args : DaemonArgs) (installs armed : Bool) (now : ℕ)
    (actions : List EventLoop.Action)
    → loop_end installs (serve k h args armed now actions) ≡ some h.loop
    → main (daemon h args) ≡ some success
    → let d = (serve k h args armed now actions).daemon in
      (length d.buffers ≡ 2) × (IsWiped d × (verdict d ≡ some wiped) × (kills d ≡ 0))
unfolding main
main-IsWiped k h args installs armed now actions e ok =
    let p = serve-Promise k h args installs armed now actions e in
    rw (daemon_code_success (run_daemon h args).0 ok) at p
