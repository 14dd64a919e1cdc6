-- ===== src/Tests/Races.antt =====
-- The daemon of rs/crates/kikka/src/lib.rs where threads and time meet, at concrete inputs.
use ningen_shikkaku.Base.{
  ◌≡◌, refl, true, false, none, some, List, [], ◌∷◌, ◌++◌, ◌-◌, leb, if◌then◌else◌, arith,
}
use ningen_shikkaku.Base.Text.{Bytes, codes}
use ningen_shikkaku.Goodnight.Buffer.{SecretBuffer}
use ningen_shikkaku.Goodnight.Process.{Kernel, delivered}
use ningen_shikkaku.Kikka.Panic.{Controller, execute}
use ningen_shikkaku.Kikka.Daemon.{Daemon, collaborators}
use ningen_shikkaku.Kikka.Heartbeat.{byte, timed_out, live, Lobby}
use ningen_shikkaku.Kikka.Heartbeat.Deadline.{
  Tick, tick_on, proceed, IsLost, IsTold, trickle-IsLost,
}
use ningen_shikkaku.Kikka.EventLoop as EventLoop
use ningen_shikkaku.Kikka.EventLoop.{Watchdog, start_daemon, iterate}
use ningen_shikkaku.Kikka.EventLoop.Audit.{verdict, dead, IsWiped}
use ningen_shikkaku.Kikka.EventLoop.Liveness.{later, IsStruck}
use ningen_shikkaku.Kikka.EventLoop.Waiting.{timeout, timeout_lem}
use ningen_shikkaku.Kikka.EventLoop.Interrupted.{controls, execute_steps}
use ningen_shikkaku.Kikka.EventLoop.Interrupted.Shots.{shots}
use ningen_shikkaku.Kikka.EventLoop.Interrupted.Order.{execute_steps_lem}

abbrev every_pid : Kernel
every_pid pid signum = delivered

abbrev secret : SecretBuffer
secret = record { memory = 7 ∷ 8 ∷ []; len = 1; cap = 2; locked = true }

abbrev holder : Daemon
holder = record (start_daemon 0 true true (secret ∷ [])) { registered = 7 ∷ [] }

abbrev pending : Controller
pending = record { grace = 5; fired = false; deadline = some 5 }

-- One process registers before the lock is taken, and one behind it.
abbrev early_line : List Bytes
early_line = codes "REGISTER pid=42" ∷ []

abbrev late_line : List Bytes
late_line = codes "REGISTER pid=43" ∷ []

execute_steps_lem_example :
    let d' = execute_steps every_pid 5 early_line late_line [] holder in
    (verdict d' ≡ some dead)
    × IsWiped d'
    × (shots d' ≡ shots holder ++ (controls every_pid 5 early_line holder).registered)
    × (execute_steps every_pid 5 [] [] [] holder
        ≡ (execute (collaborators every_pid) "grace window expired" pending holder).1)
execute_steps_lem_example =
    execute_steps_lem every_pid 5 early_line late_line [] holder "grace window expired" pending refl
      refl

abbrev waiting : Watchdog
waiting = record {
  controller = pending;
  daemon = holder;
  current_gen = 1;
  present = false;
  ended = none;
}

timeout_lem_example :
    (timeout waiting ≡ some (5 - 0))
    × IsStruck
        (leb (5 - 0) 3)
        waiting.daemon
        (iterate every_pid EventLoop.timed_out (later 3 waiting)).daemon
    × (timeout (iterate every_pid EventLoop.timed_out (later 3 waiting))
        ≡ (if leb (5 - 0) 3 then none else some (5 - 0 - 3)))
timeout_lem_example =
    timeout_lem every_pid 5 3 waiting
      (record { running = (refl, refl); deadline = refl; unfired = refl; calm = refl })

abbrev lobby : Lobby
lobby = record { active = true; gen_source = 1; sent = [] }

-- A byte a second, and no line.
abbrev trickled : List Tick
trickled =
    record { now = 1; read = byte b'P'; lobby = lobby }
    ∷ record { now = 2; read = byte b'I'; lobby = lobby }
    ∷ record { now = 3; read = timed_out; lobby = lobby }
    ∷ []

abbrev late_tick : Tick
late_tick = record { now = 4; read = byte b'N'; lobby = lobby }

trickle-IsLost_example :
    let late =
      tick_on
        (some 4)
        late_tick
        (proceed (some 4) trickled (record { place = live 1 [] (some 4); told = [] })) in
    let gone = tick_on (some 4) late_tick (tick_on (some 4) late_tick late) in
    IsLost 1 late.place late.told × IsTold 1 gone.place gone.told
trickle-IsLost_example =
    trickle-IsLost (some 4) 1 4 [] trickled late_tick late_tick late_tick (refl, (refl, (tt, tt)))
      (ground arith)
