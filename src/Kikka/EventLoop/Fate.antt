-- ===== src/Kikka/EventLoop/Fate.antt =====
-- What a daemon has done by the end of a run of its loop, and to which processes
-- (`run_with_listener`, rs/crates/kikka/src/lib.rs).
use ningen_shikkaku.Base.{ℕ, ◌≡◌, ◌∙◌, Bool, true, false, none, some, List, [], arith, branch}
use ningen_shikkaku.Goodnight.Process.{Kernel}
use ningen_shikkaku.Goodnight.Buffer.{SecretBuffer}
use ningen_shikkaku.Kiroku.{Lifecycle, Reason, ArmVia}
use ningen_shikkaku.Kikka.Daemon.{Daemon, emit}
use ningen_shikkaku.Kikka.EventLoop.Audit.{watching, wiped, dead, verdict, IsWiped}
use ningen_shikkaku.Kikka.EventLoop.Frames.{kills}
use ningen_shikkaku.Kikka.EventLoop.Invariant.{calm, closed, stood_down, destroyed}
use ningen_shikkaku.Kikka.EventLoop.Safety.{start-IsSafe, run-start-Standing}
use ningen_shikkaku.Kikka.EventLoop.Struck.Run.{Struck, run-Struck, audit-deaths}
use ningen_shikkaku.Kikka.EventLoop.Struck.{deaths, deaths-emit}
use ningen_shikkaku.Kikka.EventLoop.Interrupted.Shots.{shots, shots-emit}
use ningen_shikkaku.Kikka.EventLoop.{Watchdog, Action, run, start, start_daemon}

-- Where a daemon stands at the end of a run, and what it has done by then; `S` is said of one that
-- has destroyed itself.
pub data Ending (S : Type 0) (w : Watchdog) : Type 0 where
  serving :
      w.controller.fired ≡ false
      → w.ended ≡ none
      → verdict w.daemon ≡ some watching
      → kills w.daemon ≡ 0
      → Ending S w
  shut_down :
      (r : Reason)
      → w.controller.fired ≡ false
      → w.ended ≡ some r
      → verdict w.daemon ≡ some wiped
      → kills w.daemon ≡ 0
      → IsWiped w.daemon
      → Ending S w
  dry_run :
      w.controller.fired ≡ true
      → verdict w.daemon ≡ some wiped
      → kills w.daemon ≡ 0
      → IsWiped w.daemon
      → Ending S w
  killed :
      w.controller.fired ≡ true
      → w.daemon.armed ≡ true
      → verdict w.daemon ≡ some dead
      → S
      → IsWiped w.daemon
      → Ending S w

abbrev pub Fate : Kernel → ℕ → List Action → Watchdog → Type 0
Fate k grace xs w = Ending (Struck k grace xs w) (run k grace xs w)

start-quiet :
    (grace now : ℕ) (armed sink : Bool) (bs : List SecretBuffer)
    → let d = (start grace now armed sink bs).daemon in (deaths d ≡ 0) × (shots d ≡ [])
unfolding start
start-quiet grace now armed sink bs =
    let d = start_daemon now armed sink bs in
    let d1 = emit (Lifecycle.session_start armed) d in
    let e1 : (deaths d1 ≡ 0) × (shots d1 ≡ []) = (
      deaths-emit (Lifecycle.session_start armed) d,
      shots-emit (Lifecycle.session_start armed) d,
    ) in
    branch (λ (d : Daemon). (deaths d ≡ 0) × (shots d ≡ [])) armed
      (
        deaths-emit (Lifecycle.arm ArmVia.startup) d1 ∙ e1.0,
        shots-emit (Lifecycle.arm ArmVia.startup) d1 ∙ e1.1,
      )
      e1

-- A daemon that has called the lethal closure in order has signalled the processes that were
-- registered when it did.
pub run-start-Struck :
    (k : Kernel) (grace now : ℕ) (armed sink : Bool) (bs : List SecretBuffer) (xs : List Action)
    → verdict (run k grace xs (start grace now armed sink bs)).daemon ≡ some dead
    → Struck k grace xs (start grace now armed sink bs)
run-start-Struck k grace now armed sink bs xs v =
    let w = start grace now armed sink bs in
    let (none_yet, unsignalled) = start-quiet grace now armed sink bs in
    let d = (run k grace xs w).daemon in
    run-Struck k grace xs w (start-IsSafe grace now armed sink bs) none_yet unsignalled
      (omega (arith, audit-deaths d.trace watching dead v))

pub run-start-Fate :
    (k : Kernel) (grace now : ℕ) (armed sink : Bool) (bs : List SecretBuffer) (xs : List Action)
    → Fate k grace xs (start grace now armed sink bs)
run-start-Fate k grace now armed sink bs xs =
    elim (run-start-Standing k grace now armed sink bs xs) [
      | calm f e v m ↦ serving f e v m
      | closed r f e v m z ↦ shut_down r f e v m z
      | stood_down f v m z ↦ dry_run f v m z
      | destroyed f a v z ↦ killed f a v (run-start-Struck k grace now armed sink bs xs v) z
    ]
