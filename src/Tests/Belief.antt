-- ===== src/Tests/Belief.antt =====
-- A fast reconnect at the daemon of rs/crates/kikka/src/lib.rs: the new client is announced before the
-- loss of the old one.
use ningen_shikkaku.Base.{◌≡◌, refl, true, false, none, List, [], ◌∷◌}
use ningen_shikkaku.Goodnight.Process.{Kernel, delivered}
use ningen_shikkaku.Kikka.Panic.{new, cancel}
use ningen_shikkaku.Kikka.Daemon.{emit}
use ningen_shikkaku.Kikka.Heartbeat as Heartbeat
use ningen_shikkaku.Kikka.Heartbeat.{
  eof, timed_out, Move, arrives, proceeds, move, advance, step, on_read, empty,
}
use ningen_shikkaku.Kikka.Heartbeat.Belief.Client.{Knows, run-Knows}
use ningen_shikkaku.Kikka.EventLoop.{
  Action, receives, elapses, event, connected, heartbeat_lost, on_received, on_event, lose, iterate,
  act, run, start,
}
use ningen_shikkaku.Kikka.EventLoop.Told.{IsRunning, told}
use ningen_shikkaku.Kikka.EventLoop.Relaxed.{NoPanics}

abbrev every_pid : Kernel
every_pid pid signum = delivered

-- The first connection gives the lock back, the second takes it and is announced, and only then the
-- loss of the first is told.
abbrev overtaken : List Move
overtaken =
    arrives
    ∷ proceeds 0 0 timed_out
    ∷ proceeds 0 0 timed_out
    ∷ proceeds 0 0 timed_out
    ∷ proceeds 0 1 eof
    ∷ proceeds 0 1 timed_out
    ∷ arrives
    ∷ proceeds 0 2 timed_out
    ∷ proceeds 0 2 timed_out
    ∷ proceeds 0 2 timed_out
    ∷ proceeds 1 3 timed_out
    ∷ []

abbrev heard : List Action
heard =
    receives (event (connected 1))
    ∷ elapses 2
    ∷ receives (event (connected 2))
    ∷ receives (event (heartbeat_lost 1))
    ∷ []

all_heard : told heard ≡ (Heartbeat.run none overtaken empty).lobby.sent
unfolding Heartbeat.run move advance step on_read
all_heard = refl

heard-IsRunning : IsRunning (run every_pid 5 heard (start 5 0 true false []))
unfolding run act iterate on_received on_event lose start emit new cancel
heard-IsRunning = (refl, refl)

run-Knows_example :
    let w = run every_pid 5 heard (start 5 0 true false []) in
    let l = Heartbeat.run none overtaken empty in
    Knows w l × (NoPanics heard → w.present ≡ true → w.controller.deadline ≡ none)
run-Knows_example =
    run-Knows every_pid 5 0 true false [] heard none overtaken heard-IsRunning all_heard
