-- ===== src/Kikka/EventLoop/Safety.antt =====
-- The invariant along the steps of `run_with_listener` (rs/crates/kikka/src/lib.rs).
use Prim.Native.String.{String}
use ningen_shikkaku.Base.{
  ℕ, ◌≡◌, refl, sym, inl, inr, Bool, true, false, none, some, List, [], ◌∷◌, arith, if◌then◌else◌,
  Bool-cases, Option-cases, subst,
}
use ningen_shikkaku.Goodnight.Buffer.{SecretBuffer}
use ningen_shikkaku.Goodnight.Process.{Kernel}
use ningen_shikkaku.Kiroku.{Lifecycle, Reason, ArmVia}
use ningen_shikkaku.Kikka.Panic.{new, request_hard}
use ningen_shikkaku.Kikka.Daemon.{Daemon, collaborators, emit}
use ningen_shikkaku.Kikka.EventLoop.Frames.{kills, Agrees, emit-Agrees, process_control-Agrees}
use ningen_shikkaku.Kikka.EventLoop.Moves.{graceful-Moves, hard-Moves, cancel-Moves, tick-Moves}
use ningen_shikkaku.Kikka.EventLoop.Ending.{
  Agrees-trans, leave-IsSafe, trigger-Agrees, clock-Agrees,
}
use ningen_shikkaku.Kikka.EventLoop.Invariant.{Standing, calm, IsSafe, Agrees-IsSafe, Moves-IsSafe}
use ningen_shikkaku.Kikka.EventLoop.{
  Watchdog, Action, receives, requests, elapses, Received, event, timed_out, disconnected,
  connected, heartbeat_lost, ping_timeout, cancels, quits, signal, Signal, sigusr1, sigusr2, leave,
  is_live, graceful, lose, on_received, iterate, act, run, start, start_daemon, triggered, drive,
}

abbrev pub IsSafeWatchdog : Watchdog → Type 0
IsSafeWatchdog w = IsSafe w.controller w.ended w.daemon

module _ (k : Kernel) where
  graceful-IsSafe :
      (r : Reason) (why : String) (w : Watchdog)
      → IsSafe w.controller none w.daemon
      → IsSafe (graceful k r why w).controller none (graceful k r why w).daemon
  graceful-IsSafe r why w s =
      let t = Agrees-IsSafe (trigger-Agrees r w.daemon) s in
      Moves-IsSafe k (graceful-Moves k w.controller (record w.daemon { trigger = r }) t.pending why)
        t

  hard-IsSafe :
      (r : Reason) (why : String) (w : Watchdog)
      → IsSafe w.controller none w.daemon
      → let w' = drive (request_hard (collaborators k) why) (triggered r w) in
        IsSafe w'.controller none w'.daemon
  hard-IsSafe r why w s =
      let t = Agrees-IsSafe (trigger-Agrees r w.daemon) s in
      Moves-IsSafe k (hard-Moves k w.controller (record w.daemon { trigger = r }) t.pending why) t

  lose-IsSafe :
      (r : Reason) (why : String) (g : ℕ) (w : Watchdog)
      → w.ended ≡ none
      → IsSafeWatchdog w
      → IsSafeWatchdog (lose k r why g w)
  unfolding lose
  lose-IsSafe r why g w e s = elim (Bool-cases (is_live k g w)) [
    | inl live ↦
        rw (live, lose) (rw e (graceful-IsSafe r why (record w { present = false }) (rw e at s)))
    | inr stale ↦ rw (stale, lose) s
  ]

  on_received-IsSafe :
      (r : Received) (w : Watchdog)
      → w.ended ≡ none
      → IsSafe w.controller none w.daemon
      → IsSafeWatchdog (on_received k r w)
  unfolding on_received
  on_received-IsSafe (event (connected g)) w e s =
      rw e (Moves-IsSafe k (cancel-Moves k w.controller w.daemon s.pending "client reconnected") s)
  on_received-IsSafe (event (heartbeat_lost g)) w e s =
      lose-IsSafe Reason.heartbeat_lost "heartbeat connection dropped" g w e (rw e s)
  on_received-IsSafe (event (ping_timeout g)) w e s =
      lose-IsSafe Reason.ping_timeout "ping deadline missed" g w e (rw e s)
  on_received-IsSafe (event cancels) w e s =
      rw e (Moves-IsSafe k (cancel-Moves k w.controller w.daemon s.pending "client CANCEL") s)
  on_received-IsSafe (event quits) w e s = leave-IsSafe Reason.client_quit w s
  on_received-IsSafe (event (signal sigusr1)) w e s =
      rw e (graceful-IsSafe Reason.panic_signal "SIGUSR1 panic signal" w s)
  on_received-IsSafe (event (signal sigusr2)) w e s =
      rw e (hard-IsSafe Reason.hard_panic_signal "SIGUSR2 hard panic" w s)
  on_received-IsSafe (event (signal Signal.sigterm)) w e s = leave-IsSafe Reason.shutdown w s
  on_received-IsSafe (event (signal Signal.sigint)) w e s = leave-IsSafe Reason.shutdown w s
  on_received-IsSafe timed_out w e s =
      rw e (Moves-IsSafe k (tick-Moves k w.controller w.daemon s.pending w.daemon.now) s)
  on_received-IsSafe disconnected w e s = leave-IsSafe Reason.shutdown w s

  pub iterate_ended :
      (r : Received) (w : Watchdog) (x : Reason) → w.ended ≡ some x → iterate k r w ≡ w
  unfolding iterate
  iterate_ended r w x e = ground arith

  pub iterate_stopped :
      (r : Received) (w : Watchdog)
      → w.ended ≡ none
      → w.daemon.stop ≡ true
      → iterate k r w ≡ leave w.daemon.trigger w
  unfolding iterate
  iterate_stopped r w e t = ground arith

  pub iterate_running :
      (r : Received) (w : Watchdog)
      → w.ended ≡ none
      → w.daemon.stop ≡ false
      → iterate k r w ≡ on_received k r w
  unfolding iterate
  iterate_running r w e t = ground arith

  iterate-IsSafe : (r : Received) (w : Watchdog) → IsSafeWatchdog w → IsSafeWatchdog (iterate k r w)
  iterate-IsSafe r w s = elim (Option-cases w.ended) [
    | inr (x, e) ↦ subst IsSafeWatchdog (sym (iterate_ended r w x e)) s
    | inl e ↦
        let s' : IsSafe w.controller none w.daemon = rw e at s in
        elim (Bool-cases w.daemon.stop) [
          | inl t ↦
              subst IsSafeWatchdog (sym (iterate_stopped r w e t))
                (leave-IsSafe w.daemon.trigger w s')
          | inr t ↦
              subst IsSafeWatchdog (sym (iterate_running r w e t)) (on_received-IsSafe r w e s')
        ]
  ]

  pub act-IsSafe :
      (grace : ℕ) (a : Action) (w : Watchdog) → IsSafeWatchdog w → IsSafeWatchdog (act k grace a w)
  unfolding act
  act-IsSafe grace (receives r) w s = iterate-IsSafe r w s
  act-IsSafe grace (requests line) w s =
      Agrees-IsSafe (process_control-Agrees k grace line w.daemon) s
  act-IsSafe grace (elapses n) w s = Agrees-IsSafe (clock-Agrees n w.daemon) s

  pub run-IsSafe :
      (grace : ℕ) (xs : List Action) (w : Watchdog)
      → IsSafeWatchdog w
      → IsSafeWatchdog (run k grace xs w)
  unfolding run
  run-IsSafe grace [] w s = s
  run-IsSafe grace (a ∷ rest) w s = run-IsSafe grace rest (act k grace a w) (act-IsSafe grace a w s)

pub start-Agrees :
    (armed : Bool) (d : Daemon)
    → let d1 = emit (Lifecycle.session_start armed) d in
      Agrees d (if armed then emit (Lifecycle.arm ArmVia.startup) d1 else d1)
start-Agrees true d =
    let d1 = emit (Lifecycle.session_start true) d in
    Agrees-trans (emit-Agrees (Lifecycle.session_start true) d)
      (emit-Agrees (Lifecycle.arm ArmVia.startup) d1)
start-Agrees false d = emit-Agrees (Lifecycle.session_start false) d

pub start-IsSafe :
    (grace now : ℕ) (armed sink : Bool) (bs : List SecretBuffer)
    → IsSafeWatchdog (start grace now armed sink bs)
unfolding start new
start-IsSafe grace now armed sink bs =
    Agrees-IsSafe {d = start_daemon now armed sink bs}
      (start-Agrees armed (start_daemon now armed sink bs))
      (record {
        pending = tt;
        standing = calm refl refl refl refl;
        bloodless = λ _. refl;
        stops = λ e. cc;
      })

pub run-start-IsSafe :
    (k : Kernel) (grace now : ℕ) (armed sink : Bool) (bs : List SecretBuffer) (xs : List Action)
    → IsSafeWatchdog (run k grace xs (start grace now armed sink bs))
run-start-IsSafe k grace now armed sink bs xs =
    run-IsSafe k grace xs (start grace now armed sink bs) (start-IsSafe grace now armed sink bs)

-- Whatever happens to a daemon, in whatever order, it stands in one of four ways. Nothing has
-- fired or ended, and nothing was signalled or zeroized. It was shut down, or has stood down after
-- a dry run: every buffer is zero and nothing was signalled. Or it was armed, has zeroized its
-- buffers behind all signals, and called the lethal closure once, after that.
pub run-start-Standing :
    (k : Kernel) (grace now : ℕ) (armed sink : Bool) (bs : List SecretBuffer) (xs : List Action)
    → let w = run k grace xs (start grace now armed sink bs) in
      Standing w.controller.fired w.daemon.armed w.ended w.daemon
run-start-Standing k grace now armed sink bs xs =
    (run-start-IsSafe k grace now armed sink bs xs).standing

-- A daemon that is not armed after some history has killed nothing in it.
pub run-start-disarmed :
    (k : Kernel) (grace now : ℕ) (armed sink : Bool) (bs : List SecretBuffer) (xs : List Action)
    → (run k grace xs (start grace now armed sink bs)).daemon.armed ≡ false
    → kills (run k grace xs (start grace now armed sink bs)).daemon ≡ 0
run-start-disarmed k grace now armed sink bs xs e =
    (run-start-IsSafe k grace now armed sink bs xs).bloodless e
