-- ===== src/Tests/Clients.antt =====
-- Control connections of rs/crates/kikka/src/lib.rs at concrete inputs.
use ningen_shikkaku.Base.{◌≤◌, ◌≡◌, true, [], ◌∷◌, List, arith, count_if}
use ningen_shikkaku.Base.Text.{codes}
use ningen_shikkaku.Goodnight.Process.{Kernel, delivered}
use ningen_shikkaku.Kikka.Daemon.{Daemon}
use ningen_shikkaku.Kikka.EventLoop.{start_daemon}
use ningen_shikkaku.Kikka.Control.Registry.{IsRegistry}
use ningen_shikkaku.Kikka.Heartbeat.{line, nothing}
use ningen_shikkaku.Kikka.Clients.{Move, arrives, proceeds, run, opened, max_control}
use ningen_shikkaku.Kikka.Clients.Bounds.{is_counted, is_served, control_bounded}

abbrev every_pid : Kernel
every_pid pid signum = delivered

abbrev idle : Daemon
idle = start_daemon 0 true true []

-- Two clients: one registers a pid and asks for the status, the other arms the daemon between.
abbrev busy_hour : List Move
busy_hour =
    arrives (codes "REGISTER pid=7")
    ∷ proceeds 0 nothing
    ∷ arrives (codes "ARM")
    ∷ proceeds 1 nothing
    ∷ proceeds 0 nothing
    ∷ proceeds 0 nothing
    ∷ proceeds 1 (line (codes "STATUS"))
    ∷ proceeds 0 nothing
    ∷ []

idle_IsRegistry : IsRegistry idle.registered
idle_IsRegistry = record { few = ground arith; pids = tt; distinct = tt }

control_bounded_example :
    let o = run every_pid 5 busy_hour (opened idle) in
    (count_if is_counted o.connections ≡ o.shared.in_flight)
    × (count_if is_served o.connections ≤ max_control)
    × IsRegistry o.shared.daemon.registered
control_bounded_example = control_bounded every_pid 5 idle busy_hour idle_IsRegistry
