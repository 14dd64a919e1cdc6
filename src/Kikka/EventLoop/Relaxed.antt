-- ===== src/Kikka/EventLoop/Relaxed.antt =====
-- While the loop of `run_with_listener` (rs/crates/kikka/src/lib.rs) believes that a client is there, no
-- panic is pending, but for the one that SIGUSR1 asks for.
use Prim.Native.String.{String}
use ningen_shikkaku.Base.{
  ℕ, ◌≡◌, sym, inl, inr, true, none, List, [], ◌∷◌, arith, branch, Bool-cases, Option-cases, subst,
}
use ningen_shikkaku.Goodnight.Process.{Kernel}
use ningen_shikkaku.Kiroku.{Reason}
use ningen_shikkaku.Kikka.Panic.{Controller, cancel, tick, request_hard}
use ningen_shikkaku.Kikka.Daemon.{Daemon, collaborators}
use ningen_shikkaku.Kikka.EventLoop.Safety.{iterate_ended, iterate_stopped, iterate_running}
use ningen_shikkaku.Kikka.EventLoop.{
  Watchdog, Action, receives, requests, elapses, Received, event, timed_out, disconnected,
  connected, heartbeat_lost, ping_timeout, cancels, quits, signal, Signal, sigusr1, sigusr2, leave,
  cleanup, is_live, lose, on_signal, on_event, on_received, iterate, act, run,
}

abbrev pub IsRelaxed : Watchdog → Type 0
IsRelaxed w = w.present ≡ true → w.controller.deadline ≡ none

-- SIGUSR1 is not among what is received.
abbrev pub NoPanics : List Action → Type 0
NoPanics [] = Unit
NoPanics (receives (event (signal sigusr1)) ∷ rest) = ⊥
NoPanics (_ ∷ rest) = NoPanics rest

abbrev IsQuiet : Received → Type 0
IsQuiet (event (signal sigusr1)) = ⊥
IsQuiet _ = Unit

leave-IsRelaxed : (r : Reason) (w : Watchdog) → IsRelaxed w → IsRelaxed (leave r w)
unfolding leave cleanup
leave-IsRelaxed r w h = h

module _ (k : Kernel) where
  hard_deadline :
      (why : String) (c : Controller) (d : Daemon)
      → c.deadline ≡ none
      → (request_hard (collaborators k) why c d).0.deadline ≡ none
  unfolding request_hard
  hard_deadline why c d h = ground arith

  tick_deadline :
      (now : ℕ) (c : Controller) (d : Daemon)
      → c.deadline ≡ none
      → (tick (collaborators k) now c d).0.deadline ≡ none
  unfolding tick
  tick_deadline now c d h = ground arith

  cancel_deadline :
      (why : String) (c : Controller) (d : Daemon)
      → (cancel (collaborators k) why c d).0.deadline ≡ none
  unfolding cancel
  cancel_deadline why c d = ground arith

  lose-IsRelaxed :
      (r : Reason) (why : String) (g : ℕ) (w : Watchdog)
      → IsRelaxed w
      → IsRelaxed (lose k r why g w)
  unfolding lose
  lose-IsRelaxed r why g w h = branch IsRelaxed (is_live k g w) (λ p. cc p) h

  received-IsRelaxed :
      (x : Received) (w : Watchdog) → IsQuiet x → IsRelaxed w → IsRelaxed (on_received k x w)
  unfolding on_received on_event on_signal
  received-IsRelaxed (event (connected g)) w q h =
      λ p. cancel_deadline "client reconnected" w.controller w.daemon
  received-IsRelaxed (event (heartbeat_lost g)) w q h =
      lose-IsRelaxed Reason.heartbeat_lost "heartbeat connection dropped" g w h
  received-IsRelaxed (event (ping_timeout g)) w q h =
      lose-IsRelaxed Reason.ping_timeout "ping deadline missed" g w h
  received-IsRelaxed (event cancels) w q h =
      λ p. cancel_deadline "client CANCEL" w.controller w.daemon
  received-IsRelaxed (event quits) w q h = leave-IsRelaxed Reason.client_quit w h
  received-IsRelaxed (event (signal sigusr1)) w q h = elim q [ ]
  received-IsRelaxed (event (signal sigusr2)) w q h = λ p.
      hard_deadline "SIGUSR2 hard panic" w.controller
        (record w.daemon { trigger = Reason.hard_panic_signal }) (h p)
  received-IsRelaxed (event (signal Signal.sigterm)) w q h = leave-IsRelaxed Reason.shutdown w h
  received-IsRelaxed (event (signal Signal.sigint)) w q h = leave-IsRelaxed Reason.shutdown w h
  received-IsRelaxed timed_out w q h = λ p. tick_deadline w.daemon.now w.controller w.daemon (h p)
  received-IsRelaxed disconnected w q h = leave-IsRelaxed Reason.shutdown w h

  iterate-IsRelaxed :
      (x : Received) (w : Watchdog) → IsQuiet x → IsRelaxed w → IsRelaxed (iterate k x w)
  iterate-IsRelaxed x w q h = elim (Option-cases w.ended) [
    | inr (y, e) ↦ subst IsRelaxed (sym (iterate_ended k x w y e)) h
    | inl e ↦ elim (Bool-cases w.daemon.stop) [
      | inl t ↦
          subst IsRelaxed (sym (iterate_stopped k x w e t)) (leave-IsRelaxed w.daemon.trigger w h)
      | inr t ↦ subst IsRelaxed (sym (iterate_running k x w e t)) (received-IsRelaxed x w q h)
    ]
  ]

  IsQuiet-NoPanics :
      (x : Received) (xs : List Action) → NoPanics (receives x ∷ xs) → IsQuiet x × NoPanics xs
  IsQuiet-NoPanics (event (signal sigusr1)) xs n = elim n [ ]
  IsQuiet-NoPanics (event (signal sigusr2)) xs n = (tt, n)
  IsQuiet-NoPanics (event (signal Signal.sigterm)) xs n = (tt, n)
  IsQuiet-NoPanics (event (signal Signal.sigint)) xs n = (tt, n)
  IsQuiet-NoPanics (event (connected g)) xs n = (tt, n)
  IsQuiet-NoPanics (event (heartbeat_lost g)) xs n = (tt, n)
  IsQuiet-NoPanics (event (ping_timeout g)) xs n = (tt, n)
  IsQuiet-NoPanics (event cancels) xs n = (tt, n)
  IsQuiet-NoPanics (event quits) xs n = (tt, n)
  IsQuiet-NoPanics timed_out xs n = (tt, n)
  IsQuiet-NoPanics disconnected xs n = (tt, n)

  -- Without SIGUSR1, no round of the loop leaves a panic pending on a client that is there.
  pub run-IsRelaxed :
      (grace : ℕ) (xs : List Action) (w : Watchdog)
      → NoPanics xs
      → IsRelaxed w
      → IsRelaxed (run k grace xs w)
  unfolding run act
  run-IsRelaxed grace [] w n h = h
  run-IsRelaxed grace (receives x ∷ rest) w n h =
      let (q, m) = IsQuiet-NoPanics x rest n in
      run-IsRelaxed grace rest (iterate k x w) m (iterate-IsRelaxed x w q h)
  run-IsRelaxed grace (requests line ∷ rest) w n h =
      run-IsRelaxed grace rest (act k grace (requests line) w) n h
  run-IsRelaxed grace (elapses m ∷ rest) w n h =
      run-IsRelaxed grace rest (act k grace (elapses m) w) n h
