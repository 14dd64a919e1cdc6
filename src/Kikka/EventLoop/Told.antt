-- ===== src/Kikka/EventLoop/Told.antt =====
-- What the loop of `run_with_listener` (rs/crates/kikka/src/lib.rs) makes of the events of the
-- heartbeat connections, whatever else it receives in between.
use Prim.Native.String.{String}
use ningen_shikkaku.Base.{
  ℕ, ◌≡◌, refl, sym, ap, ◌∙◌, inl, inr, Bool, true, false, none, some, List, [], ◌∷◌, ◌++◌,
  if◌then◌else◌, Bool-cases, Option-cases,
}
use ningen_shikkaku.Goodnight.Process.{Kernel}
use ningen_shikkaku.Kiroku.{Reason}
use ningen_shikkaku.Kikka.Heartbeat.Belief.{Belief, believe, beliefs, beliefs-append}
use ningen_shikkaku.Kikka.EventLoop.Frames.{process_control-Agrees}
use ningen_shikkaku.Kikka.EventLoop.Safety.{iterate_ended, iterate_stopped, iterate_running}
use ningen_shikkaku.Kikka.EventLoop.{
  Watchdog, Action, receives, requests, elapses, Received, event, timed_out, disconnected, Event,
  connected, heartbeat_lost, ping_timeout, cancels, quits, signal, sigusr1, sigusr2, leave, cleanup,
  is_live, graceful, lose, on_signal, on_event, on_received, act, run,
}

-- The events of connections among what the loop receives; signals come from another thread.
abbrev pub told : List Action → List Event
told [] = []
told (receives (event (signal s)) ∷ rest) = told rest
told (receives (event e) ∷ rest) = e ∷ told rest
told (_ ∷ rest) = told rest

abbrev pub belief_of : Watchdog → Belief
belief_of w = record { current_gen = w.current_gen; present = w.present }

-- The loop is in a round: it has not ended, and will not at its next look at the stop flag.
abbrev pub IsRunning : Watchdog → Type 0
IsRunning w = (w.ended ≡ none) × (w.daemon.stop ≡ false)

told-cons : (a : Action) (xs : List Action) → told (a ∷ xs) ≡ told (a ∷ []) ++ told xs
told-cons (receives (event (signal s))) xs = refl
told-cons (receives (event (connected g))) xs = refl
told-cons (receives (event (heartbeat_lost g))) xs = refl
told-cons (receives (event (ping_timeout g))) xs = refl
told-cons (receives (event cancels)) xs = refl
told-cons (receives (event quits)) xs = refl
told-cons (receives timed_out) xs = refl
told-cons (receives disconnected) xs = refl
told-cons (requests line) xs = refl
told-cons (elapses n) xs = refl

leave-ended : (r : Reason) (w : Watchdog) → (leave r w).ended ≡ some r
unfolding leave cleanup
leave-ended r w = refl

choose-belief :
    (t : Bool) (w w' : Watchdog)
    → belief_of (if t then w else w') ≡ (if t then belief_of w else belief_of w')
choose-belief true w w' = refl
choose-belief false w w' = refl

module _ (k : Kernel) where
  lose-belief :
      (r : Reason) (why : String) (g : ℕ) (w : Watchdog)
      → belief_of (lose k r why g w) ≡ believe (belief_of w) (heartbeat_lost g)
  unfolding lose
  lose-belief r why g w =
      choose-belief (is_live k g w) (graceful k r why (record w { present = false })) w

  received-belief :
      (e : Event) (w : Watchdog) → belief_of (on_received k (event e) w) ≡ believe (belief_of w) e
  unfolding on_received on_event on_signal leave cleanup
  received-belief (connected g) w = refl
  received-belief (heartbeat_lost g) w =
      lose-belief Reason.heartbeat_lost "heartbeat connection dropped" g w
  received-belief (ping_timeout g) w = lose-belief Reason.ping_timeout "ping deadline missed" g w
  received-belief cancels w = refl
  received-belief quits w = refl
  received-belief (signal sigusr1) w = refl
  received-belief (signal sigusr2) w = refl
  received-belief (signal _) w = refl

  act-IsRunning :
      (grace : ℕ) (a : Action) (w : Watchdog) → IsRunning (act k grace a w) → IsRunning w
  unfolding act
  act-IsRunning grace (elapses n) w r = r
  act-IsRunning grace (requests line) w (e, t) =
      (e, sym (process_control-Agrees k grace line w.daemon).stop ∙ t)
  act-IsRunning grace (receives x) w (e, t) = elim (Option-cases w.ended) [
    | inr (y, m) ↦ cc (e, m, ap (λ (v : Watchdog). v.ended) (iterate_ended k x w y m))
    | inl m ↦ elim (Bool-cases w.daemon.stop) [
      | inl n ↦ cc (
        e,
        ap (λ (v : Watchdog). v.ended) (iterate_stopped k x w m n),
        leave-ended w.daemon.trigger w,
      )
      | inr n ↦ (m, n)
    ]
  ]

  heard :
      (x : Received) (w : Watchdog)
      → belief_of (on_received k x w) ≡ beliefs (belief_of w) (told (receives x ∷ []))
  unfolding on_received leave cleanup
  heard (event (signal s)) w = received-belief (signal s) w
  heard (event (connected g)) w = received-belief (connected g) w
  heard (event (heartbeat_lost g)) w = received-belief (heartbeat_lost g) w
  heard (event (ping_timeout g)) w = received-belief (ping_timeout g) w
  heard (event cancels) w = received-belief cancels w
  heard (event quits) w = received-belief quits w
  heard timed_out w = refl
  heard disconnected w = refl

  act-belief :
      (grace : ℕ) (a : Action) (w : Watchdog)
      → IsRunning w
      → belief_of (act k grace a w) ≡ beliefs (belief_of w) (told (a ∷ []))
  unfolding act
  act-belief grace (elapses n) w r = refl
  act-belief grace (requests line) w r = refl
  act-belief grace (receives x) w (e, t) = ap belief_of (iterate_running k x w e t) ∙ heard x w

  run-IsRunning :
      (grace : ℕ) (xs : List Action) (w : Watchdog) → IsRunning (run k grace xs w) → IsRunning w
  unfolding run
  run-IsRunning grace [] w r = r
  run-IsRunning grace (a ∷ rest) w r =
      act-IsRunning grace a w (run-IsRunning grace rest (act k grace a w) r)

  -- A loop that is still running believes what the events that it was told of give.
  pub run-belief :
      (grace : ℕ) (xs : List Action) (w : Watchdog)
      → IsRunning (run k grace xs w)
      → belief_of (run k grace xs w) ≡ beliefs (belief_of w) (told xs)
  unfolding run
  run-belief grace [] w r = refl
  run-belief grace (a ∷ rest) w r =
      let w' = act k grace a w in
      let now = run-IsRunning grace (a ∷ rest) w r in
      run-belief grace rest w' r
      ∙ ap (λ v. beliefs v (told rest)) (act-belief grace a w now)
      ∙ sym (beliefs-append (belief_of w) (told (a ∷ [])) (told rest))
      ∙ ap (beliefs (belief_of w)) (sym (told-cons a rest))
