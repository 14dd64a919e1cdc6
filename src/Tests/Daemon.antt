-- ===== src/Tests/Daemon.antt =====
-- The dazai daemon of rs/crates/kikka/src/lib.rs at concrete inputs.
use ningen_shikkaku.Base.{◌<◌, ◌≡◌, refl, [], ◌∷◌, true, false, none, some, arith, List, leb}
use ningen_shikkaku.Base.Text.{codes}
use ningen_shikkaku.Goodnight.Buffer.{SecretBuffer, wipe}
use ningen_shikkaku.Goodnight.Process.{Kernel, delivered}
use ningen_shikkaku.Kikka.Daemon.{
  Daemon, emit, kill_registered, wipe_all, kill_self, dry_done, count_u32,
}
use ningen_shikkaku.Kikka.Panic.{new, cancel, tick, request_graceful, request_hard}
use ningen_shikkaku.Kikka.Control.{process_control}
use ningen_shikkaku.Kikka.Control.Registry.{IsRegistry, process_control-IsRegistry}
use ningen_shikkaku.Kikka.EventLoop.{
  Watchdog, Action, receives, requests, elapses, event, signal, Signal, timed_out, connected,
  heartbeat_lost, on_received, leave, iterate, act, run, start,
}
use ningen_shikkaku.Kikka.EventLoop.Audit.{verdict, dead}
use ningen_shikkaku.Kikka.EventLoop.Frames.{kills}
use ningen_shikkaku.Kikka.EventLoop.Fate.{Fate}
use ningen_shikkaku.Kikka.EventLoop.Safety.{run-start-disarmed}
use ningen_shikkaku.Kikka.EventLoop.Liveness.{IsWatching, IsStruck, loss_kills, reconnect_saves}

abbrev every_pid : Kernel
every_pid pid signum = delivered

abbrev two_bytes : List SecretBuffer
two_bytes = record { memory = 7 ∷ 8 ∷ []; len = 1; cap = 2; locked = true } ∷ []

-- A client connects, a pid is registered, the daemon is armed over the socket, the client is lost,
-- and the window runs out.
abbrev bad_day : List Action
bad_day =
    receives (event (connected 1))
    ∷ requests (codes "REGISTER pid=42")
    ∷ requests (codes "ARM")
    ∷ receives (event (heartbeat_lost 1))
    ∷ elapses 5
    ∷ receives timed_out
    ∷ []

abbrev short_day : List Action
short_day =
    receives (event (connected 1))
    ∷ receives (event (heartbeat_lost 1))
    ∷ elapses 5
    ∷ receives timed_out
    ∷ []

short_day-verdict :
    verdict (run every_pid 5 short_day (start 5 0 true true two_bytes)).daemon ≡ some dead
unfolding run act iterate on_received start emit new cancel tick request_graceful request_hard
    kill_registered wipe_all kill_self dry_done count_u32 wipe leave
short_day-verdict = refl

abbrev dry_day : List Action
dry_day = receives (event (signal Signal.sigusr2)) ∷ receives timed_out ∷ []

dry : (run every_pid 5 dry_day (start 5 0 false true two_bytes)).daemon.armed ≡ false
unfolding run act iterate on_received start emit new cancel tick request_graceful request_hard
    kill_registered wipe_all kill_self dry_done count_u32 wipe leave
dry = refl

run-start-disarmed_example :
    kills (run every_pid 5 dry_day (start 5 0 false true two_bytes)).daemon ≡ 0
run-start-disarmed_example = run-start-disarmed every_pid 5 0 false true two_bytes dry_day dry

-- Armed from the start, with the client of generation 1 connected and a process registered.
abbrev watched : Watchdog
watched =
    let w = run every_pid 5 (receives (event (connected 1)) ∷ []) (start 5 0 true true two_bytes) in
    record w { daemon = record w.daemon { registered = 42 ∷ [] } }

watched-IsWatching : IsWatching 1 watched
unfolding run act iterate on_received start emit new cancel tick request_graceful request_hard
    kill_registered wipe_all kill_self dry_done count_u32 wipe leave
watched-IsWatching = record {
  open_loop = refl;
  not_stopped = refl;
  unfired = refl;
  is_present = refl;
  current = refl;
  calm = refl;
}

watched_armed : watched.daemon.armed ≡ true
unfolding run act iterate on_received start emit new cancel tick request_graceful request_hard
    kill_registered wipe_all kill_self dry_done count_u32 wipe leave
watched_armed = refl

watched_grace : 0 < watched.controller.grace
unfolding run act iterate on_received start emit new cancel tick request_graceful request_hard
    kill_registered wipe_all kill_self dry_done count_u32 wipe leave
watched_grace = ground arith

loss_kills_example :
    IsStruck
      (leb watched.controller.grace 6)
      watched.daemon
      (run every_pid 5
        (receives (event (heartbeat_lost 1)) ∷ elapses 6 ∷ receives timed_out ∷ [])
        watched).daemon
loss_kills_example =
    loss_kills every_pid 1 watched watched-IsWatching watched_armed watched_grace 5 6

reconnect_saves_example :
    let w' =
      run every_pid 5
        (receives (event (heartbeat_lost 1))
          ∷ elapses 4
          ∷ receives (event (connected 2))
          ∷ elapses 9
          ∷ receives timed_out
          ∷ [])
        watched in
    IsWatching 2 w' × (w'.controller.deadline ≡ none) × (w'.daemon.trace ≡ watched.daemon.trace)
reconnect_saves_example =
    reconnect_saves every_pid 1 watched watched-IsWatching watched_armed watched_grace 5 4 9 2

abbrev idle : Daemon
idle = (start 5 0 false true two_bytes).daemon

idle-IsRegistry : IsRegistry idle.registered
unfolding start emit
idle-IsRegistry = record { few = ground arith; pids = tt; distinct = tt }

process_control-IsRegistry_example :
    IsRegistry (process_control every_pid 5 (codes "register pid=42") idle).0.registered
process_control-IsRegistry_example =
    process_control-IsRegistry every_pid 5 (codes "register pid=42") idle idle-IsRegistry
