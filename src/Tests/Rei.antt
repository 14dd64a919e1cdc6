-- ===== src/Tests/Rei.antt =====
-- The client of rs/crates/rei/src/lib.rs at concrete inputs.
use ningen_shikkaku.Base.{List, ◌≡◌, refl, true, false, none, some, [], ◌∷◌, ◌++◌, ◌&&◌, arith}
use ningen_shikkaku.Base.Text.{codes}
use ningen_shikkaku.Base.Words.{trim}
use ningen_shikkaku.Base.Decimal.{parse_uint}
use ningen_shikkaku.Goodnight.Process.{Kernel, delivered, pid_exists}
use ningen_shikkaku.Kikka.Daemon.{Daemon, emit}
use ningen_shikkaku.Kikka.Control.{process_control, contains}
use ningen_shikkaku.Kikka.EventLoop.{Watchdog, start_daemon, run, start}
use ningen_shikkaku.Kikka.EventLoop.Audit.{verdict, dead}
use ningen_shikkaku.Kikka.EventLoop.Interrupted.Shots.{shots}
use ningen_shikkaku.Rei.{
  DazaiClient, failed, status, register, register_request, panic, read_daemon_pid,
}
use ningen_shikkaku.Rei.Server.Dry.{harmless_tools-kills}
use ningen_shikkaku.Kikka.EventLoop.Frames.{kills}
use ningen_shikkaku.Rei.Server.{
  Tool, dazai_register, dazai_unregister, dazai_panic, trigger_json, dazai_arm, dazai_hard_panic,
}
use ningen_shikkaku.Rei.Server.Agent.{use_tool, use_tools}
use ningen_shikkaku.Rei.Server.Killing.{arm_then_panic_kills}
use ningen_shikkaku.Rei.RoundTrip.{reported, served, status-served}
use ningen_shikkaku.Rei.Registration.{register-served}
use ningen_shikkaku.Rei.Guard.{Guarded, panic-Guarded}

abbrev every_pid : Kernel
every_pid pid signum = delivered

-- An armed daemon with two pids.
abbrev busy : Daemon
busy = record (start_daemon 0 true true []) { registered = 7 ∷ 9 ∷ [] }

abbrev offline : DazaiClient
offline = record {
  exchange = λ sent. failed (codes "gone");
  pidfile = some (codes "41");
  signal_fn = λ pid s. true;
}

status-served_example :
    (status (record offline { exchange = served every_pid 5 busy }) ≡ reported true 5 2)
    × ((process_control every_pid 5 (codes "STATUS") busy).0 ≡ busy)
status-served_example = status-served every_pid 5 busy offline (ground arith) (ground arith)

register-served_example :
    (register (record offline { exchange = served every_pid 5 busy }) 42).ok ≡ (
      pid_exists every_pid 42
      && contains 42 (process_control every_pid 5 (register_request 42) busy).0.registered)
register-served_example = register-served every_pid 5 42 busy offline (ground arith)

panic-Guarded_example : Guarded offline true (panic offline true).0 (panic offline true).1
panic-Guarded_example = panic-Guarded offline true

-- A daemon in dry-run mode, with a client of it and a registered pid.
abbrev idle : Watchdog
idle = record {
  controller = record { grace = 5; fired = false; deadline = none };
  daemon = record (start_daemon 0 false true []) { registered = 7 ∷ [] };
  current_gen = 1;
  present = true;
  ended = none;
}

pid_of_daemon : read_daemon_pid offline.pidfile ≡ some 41
unfolding read_daemon_pid trim parse_uint
pid_of_daemon = refl

arm_then_panic_kills_example :
    let w1 = (use_tool every_pid 5 41 offline dazai_arm idle).1 in
    let (out, w2) = use_tool every_pid 5 41 offline dazai_hard_panic w1 in
    (out ≡ trigger_json true)
    × (verdict w2.daemon ≡ some dead)
    × (shots w2.daemon ≡ shots idle.daemon ++ idle.daemon.registered)
arm_then_panic_kills_example =
    arm_then_panic_kills every_pid 5 41 offline idle
      (record { open_loop = refl; not_stopped = refl; unfired = refl; calm = refl }) (ground arith)
      (ground arith) pid_of_daemon refl

-- Everything but `dazai_arm`, with a hard panic last.
abbrev harmless : List Tool
harmless = dazai_register 42 ∷ dazai_panic ∷ dazai_unregister 7 ∷ dazai_hard_panic ∷ []

never_armed : (run every_pid 5 [] (start 5 0 false true [])).daemon.armed ≡ false
unfolding run start emit
never_armed = refl

harmless_tools-kills_example :
    kills
      (use_tools every_pid 5 41 offline harmless
        (run every_pid 5 [] (start 5 0 false true []))).daemon
    ≡ 0
harmless_tools-kills_example =
    harmless_tools-kills every_pid 5 0 41 false true [] [] offline harmless never_armed
      (ground arith, (tt, (ground arith, (tt, tt))))
