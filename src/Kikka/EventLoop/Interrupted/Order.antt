-- ===== src/Kikka/EventLoop/Interrupted/Order.antt =====
-- What control clients cannot change in a self-destruct (rs/crates/kikka/src/lib.rs).
use ningen_shikkaku.Base.{
  ℕ, ◌≡◌, refl, sym, ap, ◌∙◌, true, false, some, List, [], ◌∷◌, ◌++◌, map, length, arith,
}
use ningen_shikkaku.Base.Text.{Bytes}
use ningen_shikkaku.Goodnight.Process.{Kernel, sigkill_pid}
use ningen_shikkaku.Kikka.Panic.{Controller, execute}
use Prim.Native.String.{String}
use ningen_shikkaku.Kikka.EventLoop.Liveness.{execute_unfired}
use ningen_shikkaku.Kikka.Control.{process_control}
use ningen_shikkaku.Kikka.Daemon.{
  Daemon, signalled, zeroized, lethal, collaborators, kill_registered, wipe_all, wipe_buffers,
  kill_self, dry_done, emit,
}
use ningen_shikkaku.Kikka.EventLoop.Audit.{
  watching, wiped, dead, audit_one, audit, verdict, verdict-wipe_all, verdict-kill_self,
  verdict-kill_registered, signals_then_wipe, IsWiped, map_wipe-IsZero,
}
use ningen_shikkaku.Kikka.EventLoop.Frames.{
  kills, Agrees, Agrees-refl, process_control-Agrees, kills-emit, kills-wipe_buffers,
}
use ningen_shikkaku.Kikka.EventLoop.Ending.{Agrees-trans}
use ningen_shikkaku.Kikka.EventLoop.Interrupted.{controls, execute_steps, dry_steps}
use ningen_shikkaku.Kikka.EventLoop.Interrupted.Shots.{
  shots, shots-kill_self, shots-wipe_all, shots-kill_registered, shots-controls,
}
use ningen_shikkaku.Goodnight.Buffer.{wipe}

kills-wipe_all : (d : Daemon) → kills (wipe_all d) ≡ kills d
unfolding wipe_all
kills-wipe_all d = simp (kills-emit, kills-wipe_buffers)

kills-dry_done : (d : Daemon) → kills (dry_done d) ≡ kills d
unfolding dry_done
kills-dry_done d = simp (kills-emit)

dry_done-buffers : (d : Daemon) → (dry_done d).buffers ≡ d.buffers
unfolding dry_done emit
dry_done-buffers d = ground arith

controls-Agrees :
    (k : Kernel) (grace : ℕ) (ls : List Bytes) (d : Daemon) → Agrees d (controls k grace ls d)
unfolding controls
controls-Agrees k grace [] d = Agrees-refl d
controls-Agrees k grace (line ∷ rest) d =
    let d' = (process_control k grace line d).0 in
    Agrees-trans (process_control-Agrees k grace line d) (controls-Agrees k grace rest d')

wipe_all-buffers : (d : Daemon) → (wipe_all d).buffers ≡ map wipe d.buffers
unfolding wipe_all wipe_buffers emit
wipe_all-buffers d = ground arith

kill_self-buffers : (d : Daemon) → (kill_self d).buffers ≡ d.buffers
unfolding kill_self emit
kill_self-buffers d = ground arith

-- The auditor's verdict behind the three steps.
audited :
    (k : Kernel) (grace : ℕ) (ls ms ns : List Bytes) (d : Daemon)
    → verdict d ≡ some watching
    → verdict (execute_steps k grace ls ms ns d) ≡ some dead
unfolding execute_steps
audited k grace ls ms ns d h =
    let d1 = controls k grace ls d in
    let d2 = kill_registered k d1 in
    let d3 = controls k grace ms d2 in
    let d4 = wipe_all d3 in
    let d5 = controls k grace ns d4 in
    let es = map (λ pid. signalled pid (sigkill_pid k pid)) d1.registered in
    let struck : verdict d3 ≡ audit (some watching) es =
      (controls-Agrees k grace ms d2).verdicts
      ∙ verdict-kill_registered k d1
      ∙ ap (λ o. audit o es) ((controls-Agrees k grace ls d).verdicts ∙ h) in
    let over : verdict d5 ≡ some wiped =
      (controls-Agrees k grace ns d4).verdicts
      ∙ verdict-wipe_all d3
      ∙ ap (λ o. audit_one o (zeroized (length d3.buffers))) struck
      ∙ signals_then_wipe k d1.registered (length d3.buffers) in
    verdict-kill_self d5 ∙ ap (λ o. audit_one o lethal) over

zeroed :
    (k : Kernel) (grace : ℕ) (ls ms ns : List Bytes) (d : Daemon)
    → IsWiped (execute_steps k grace ls ms ns d)
unfolding execute_steps
zeroed k grace ls ms ns d =
    let d3 = controls k grace ms (kill_registered k (controls k grace ls d)) in
    let d5 = controls k grace ns (wipe_all d3) in
    rw
      (kill_self-buffers d5
        ∙ (controls-Agrees k grace ns (wipe_all d3)).buffers
        ∙ wipe_all-buffers d3)
      (map_wipe-IsZero d3.buffers)

shot :
    (k : Kernel) (grace : ℕ) (ls ms ns : List Bytes) (d : Daemon)
    → shots (execute_steps k grace ls ms ns d) ≡ shots d ++ (controls k grace ls d).registered
unfolding execute_steps
shot k grace ls ms ns d =
    let d1 = controls k grace ls d in
    let d3 = controls k grace ms (kill_registered k d1) in
    let d5 = controls k grace ns (wipe_all d3) in
    shots-kill_self d5
    ∙ shots-controls k grace ns (wipe_all d3)
    ∙ shots-wipe_all d3
    ∙ shots-controls k grace ms (kill_registered k d1)
    ∙ shots-kill_registered k d1
    ∙ ap (λ x. x ++ d1.registered) (shots-controls k grace ls d)

-- The steps of a self-destruct are those of the controller's `execute`.
execute_steps-execute :
    (k : Kernel) (grace : ℕ) (why : String) (c : Controller) (d : Daemon)
    → c.fired ≡ false
    → execute_steps k grace [] [] [] d ≡ (execute (collaborators k) why c d).1
unfolding execute_steps controls
execute_steps-execute k grace why c d f = sym (execute_unfired k why c d f)

-- However control lines come between the steps of a self-destruct that the controller makes, the
-- daemon signals, zeroizes and then calls the lethal closure once, in this order, with every buffer
-- zero; and the processes that it signals are exactly those that are registered when it takes the
-- lock. One that is registered later is not signalled, whatever its client is told.
pub execute_steps_lem :
    (k : Kernel) (grace : ℕ) (ls ms ns : List Bytes) (d : Daemon) (why : String) (c : Controller)
    → verdict d ≡ some watching
    → c.fired ≡ false
    → let d' = execute_steps k grace ls ms ns d in
      (verdict d' ≡ some dead)
      × IsWiped d'
      × (shots d' ≡ shots d ++ (controls k grace ls d).registered)
      × (execute_steps k grace [] [] [] d ≡ (execute (collaborators k) why c d).1)
execute_steps_lem k grace ls ms ns d why c h f = (
  audited k grace ls ms ns d h,
  zeroed k grace ls ms ns d,
  shot k grace ls ms ns d,
  execute_steps-execute k grace why c d f,
)

-- A dry run kills nothing, zeroizes every buffer and stops the loop, even when a client arms the daemon between its
-- steps and is told so.
pub dry_steps_lem :
    (k : Kernel) (grace : ℕ) (ms ns : List Bytes) (d : Daemon)
    → let d' = dry_steps k grace ms ns d in (kills d' ≡ kills d) × IsWiped d' × (d'.stop ≡ true)
unfolding dry_steps
dry_steps_lem k grace ms ns d =
    let d1 = controls k grace ms d in
    let d3 = controls k grace ns (wipe_all d1) in
    (
      kills-dry_done d3
          ∙ (controls-Agrees k grace ns (wipe_all d1)).counts
          ∙ kills-wipe_all d1
          ∙ (controls-Agrees k grace ms d).counts,
      rw
          (dry_done-buffers d3
            ∙ (controls-Agrees k grace ns (wipe_all d1)).buffers
            ∙ wipe_all-buffers d1)
          (map_wipe-IsZero d1.buffers),
      unfold dry_done in refl,
    )
