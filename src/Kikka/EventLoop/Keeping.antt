-- ===== src/Kikka/EventLoop/Keeping.antt =====
-- What the operations of the controller and the end of the loop leave alone, a round of the loop
-- (`run_with_listener`, rs/crates/kikka/src/lib.rs) leaves alone.
use Prim.Native.String.{String}
use ningen_shikkaku.Base.{
  ℕ, ◌≡◌, inl, inr, false, none, Bool-cases, Option-cases, branch, subst, sym, List, [], ◌∷◌, ◌+◌,
}
use ningen_shikkaku.Goodnight.Process.{Kernel}
use ningen_shikkaku.Kiroku.{Reason}
use ningen_shikkaku.Kikka.Panic.{Controller}
use ningen_shikkaku.Kikka.Daemon.{Daemon}
use ningen_shikkaku.Kikka.EventLoop.Moves.{
  Moves, graceful-Moves, hard-Moves, cancel-Moves, tick-Moves,
}
use ningen_shikkaku.Kikka.EventLoop.Ending.{trigger-Agrees}
use ningen_shikkaku.Kikka.EventLoop.Invariant.{IsSafe, Agrees-IsSafe}
use ningen_shikkaku.Base.Text.{Bytes}
use ningen_shikkaku.Kikka.Control.{process_control}
use ningen_shikkaku.Kikka.EventLoop.Safety.{
  act-IsSafe, IsSafeWatchdog, iterate_ended, iterate_stopped, iterate_running,
}
use ningen_shikkaku.Kikka.EventLoop.{
  Watchdog, Received, event, timed_out, disconnected, connected, heartbeat_lost, ping_timeout,
  cancels, quits, signal, Signal, sigusr1, sigusr2, leave, is_live, graceful, lose, on_received,
  iterate, act, run, Action, receives, requests, elapses,
}

-- A relation that the controller, the trigger and the end of the loop keep to.
pub record IsKept (R : Daemon → Daemon → Type 0) (k : Kernel) : Type 0 where
  pub stays : (d : Daemon) → R d d
  pub chained : {a b c : Daemon} → R a b → R b c → R a c
  pub moved : {c c' : Controller} {d d' : Daemon} → Moves k c d c' d' → R d d'
  pub retriggered : (r : Reason) (d : Daemon) → R d (record d { trigger = r })
  pub left : (r : Reason) (w : Watchdog) → R w.daemon (leave r w).daemon

module _ (R : Daemon → Daemon → Type 0) (k : Kernel) (kept : IsKept R k) where
  graceful-keeps :
      (r : Reason) (why : String) (w : Watchdog)
      → IsSafe w.controller none w.daemon
      → R w.daemon (graceful k r why w).daemon
  graceful-keeps r why w s =
      let d = record w.daemon { trigger = r } in
      let t = Agrees-IsSafe (trigger-Agrees r w.daemon) s in
      kept.chained (kept.retriggered r w.daemon)
        (kept.moved (graceful-Moves k w.controller d t.pending why))

  lose-keeps :
      (r : Reason) (why : String) (g : ℕ) (w : Watchdog)
      → IsSafe w.controller none w.daemon
      → R w.daemon (lose k r why g w).daemon
  unfolding lose
  lose-keeps r why g w s =
      branch (λ (w' : Watchdog). R w.daemon w'.daemon) (is_live k g w)
        (graceful-keeps r why (record w { present = false }) s) (kept.stays w.daemon)

  on_received-keeps :
      (r : Received) (w : Watchdog)
      → IsSafe w.controller none w.daemon
      → R w.daemon (on_received k r w).daemon
  unfolding on_received
  on_received-keeps (event (connected g)) w s =
      kept.moved (cancel-Moves k w.controller w.daemon s.pending "client reconnected")
  on_received-keeps (event (heartbeat_lost g)) w s =
      lose-keeps Reason.heartbeat_lost "heartbeat connection dropped" g w s
  on_received-keeps (event (ping_timeout g)) w s =
      lose-keeps Reason.ping_timeout "ping deadline missed" g w s
  on_received-keeps (event cancels) w s =
      kept.moved (cancel-Moves k w.controller w.daemon s.pending "client CANCEL")
  on_received-keeps (event quits) w s = kept.left Reason.client_quit w
  on_received-keeps (event (signal sigusr1)) w s =
      graceful-keeps Reason.panic_signal "SIGUSR1 panic signal" w s
  on_received-keeps (event (signal sigusr2)) w s =
      let d = record w.daemon { trigger = Reason.hard_panic_signal } in
      let t = Agrees-IsSafe (trigger-Agrees Reason.hard_panic_signal w.daemon) s in
      kept.chained (kept.retriggered Reason.hard_panic_signal w.daemon)
        (kept.moved (hard-Moves k w.controller d t.pending "SIGUSR2 hard panic"))
  on_received-keeps (event (signal Signal.sigterm)) w s = kept.left Reason.shutdown w
  on_received-keeps (event (signal Signal.sigint)) w s = kept.left Reason.shutdown w
  on_received-keeps timed_out w s =
      kept.moved (tick-Moves k w.controller w.daemon s.pending w.daemon.now)
  on_received-keeps disconnected w s = kept.left Reason.shutdown w

  -- A round of the loop keeps to `R`.
  pub iterate-keeps :
      (r : Received) (w : Watchdog) → IsSafeWatchdog w → R w.daemon (iterate k r w).daemon
  iterate-keeps r w s = elim (Option-cases w.ended) [
    | inr (x, e) ↦ to (iterate_ended k r w x e) (kept.stays w.daemon)
    | inl e ↦ elim (Bool-cases w.daemon.stop) [
      | inl t ↦ to (iterate_stopped k r w e t) (kept.left w.daemon.trigger w)
      | inr t ↦ to (iterate_running k r w e t) (on_received-keeps r w (rw e at s))
    ]
  ]
    where
      to : {x y : Watchdog} → x ≡ y → R w.daemon y.daemon → R w.daemon x.daemon
      to {x} {y} e h = subst (λ (v : Watchdog). R w.daemon v.daemon) (sym e) h

  module _
      (handled : (grace : ℕ) (line : Bytes) (d : Daemon) → R d (process_control k grace line d).0)
      (elapsed : (n : ℕ) (d : Daemon) → R d (record d { now = d.now + n })) where
    act-keeps :
        (grace : ℕ) (a : Action) (w : Watchdog)
        → IsSafeWatchdog w
        → R w.daemon (act k grace a w).daemon
    unfolding act
    act-keeps grace (receives r) w s = iterate-keeps r w s
    act-keeps grace (requests line) w s = handled grace line w.daemon
    act-keeps grace (elapses n) w s = elapsed n w.daemon

    -- With the control clients and the clock, a whole run keeps to `R`.
    pub run-keeps :
        (grace : ℕ) (xs : List Action) (w : Watchdog)
        → IsSafeWatchdog w
        → R w.daemon (run k grace xs w).daemon
    unfolding run
    run-keeps grace [] w s = kept.stays w.daemon
    run-keeps grace (a ∷ rest) w s =
        kept.chained (act-keeps grace a w s)
          (run-keeps grace rest (act k grace a w) (act-IsSafe k grace a w s))
