-- ===== src/Kikka/EventLoop/Waiting.antt =====
-- How long the loop of `run_with_listener` (rs/crates/kikka/src/lib.rs) waits for an event.
use ningen_shikkaku.Base.{
  ℕ, ◌+◌, ◌-◌, ◌≡◌, refl, sym, subst, ap, ◌∙◌, true, false, Option, none, some, leb, if◌then◌else◌,
  Bool-cases, inl, inr, arith,
}
use ningen_shikkaku.Goodnight.Process.{Kernel}
use ningen_shikkaku.Kikka.Panic.{tick, execute}
use ningen_shikkaku.Kikka.Daemon.{Daemon, kill_self, wipe_all, kill_registered}
use ningen_shikkaku.Kikka.EventLoop.{Watchdog, timed_out, on_received, iterate}
use ningen_shikkaku.Kikka.EventLoop.Audit.{watching, verdict}
use ningen_shikkaku.Kikka.EventLoop.Liveness.{execute_unfired, later, IsStruck, destroy-IsStruck}
use ningen_shikkaku.Kikka.EventLoop.Safety.{iterate_running}
use ningen_shikkaku.Kikka.EventLoop.Told.{IsRunning}

-- `saturating_duration_since`, where a panic is pending; without one the loop waits for ever.
unfoldable pub timeout : Watchdog → Option ℕ
timeout w = elim w.controller.deadline [ none ↦ none | some t ↦ some (t - w.daemon.now) ]

-- A running loop with a panic pending and nothing fired.
pub record IsPending (t : ℕ) (w : Watchdog) : Type 0 where
  pub running : IsRunning w
  pub deadline : w.controller.deadline ≡ some t
  pub unfired : w.controller.fired ≡ false
  pub calm : verdict w.daemon ≡ some watching

timeout-some :
    (t : ℕ) (w : Watchdog) → w.controller.deadline ≡ some t → timeout w ≡ some (t - w.daemon.now)
unfolding timeout
timeout-some t w h = rw h refl

ticked :
    (k : Kernel) (t : ℕ) (w : Watchdog)
    → w.controller.deadline ≡ some t
    → w.controller.fired ≡ false
    → (on_received k timed_out w).daemon
      ≡ (if leb t w.daemon.now then kill_self (wipe_all (kill_registered k w.daemon)) else w.daemon)
unfolding on_received tick
ticked k t w h f = elim (Bool-cases (leb t w.daemon.now)) [
  | inl e ↦
      rw (h, e)
        (execute_unfired k "grace window expired" (record w.controller { deadline = some t })
          w.daemon f)
  | inr e ↦ rw (h, e) refl
]

reached : (t now n : ℕ) → leb t (now + n) ≡ leb (t - now) n
reached t now n = ground arith

timeout-none : (w : Watchdog) → w.controller.deadline ≡ none → timeout w ≡ none
unfolding timeout
timeout-none w h = rw h refl

ticked_over :
    (k : Kernel) (t : ℕ) (w : Watchdog)
    → w.controller.deadline ≡ some t
    → w.controller.fired ≡ false
    → leb t w.daemon.now ≡ true
    → (on_received k timed_out w).controller.deadline ≡ none
unfolding on_received tick execute
ticked_over k t w h f e = rw (h, e) (ground (arith, f))

ticked_early :
    (k : Kernel) (t : ℕ) (w : Watchdog)
    → w.controller.deadline ≡ some t
    → leb t w.daemon.now ≡ false
    → (on_received k timed_out w).controller.deadline ≡ some t
unfolding on_received tick
ticked_early k t w h e = rw (h, e) refl

waits :
    (k : Kernel) (t n : ℕ) (w : Watchdog)
    → IsPending t w
    → timeout (on_received k timed_out (later n w))
      ≡ (if leb (t - w.daemon.now) n then none else some (t - w.daemon.now - n))
waits k t n w p =
    let w' = later n w in
    let r = reached t w.daemon.now n in
    elim (Bool-cases (leb t (w.daemon.now + n))) [
      | inl e ↦
          timeout-none (on_received k timed_out w') (ticked_over k t w' p.deadline p.unfired e)
          ∙ ap (λ b. if b then none else some (t - w.daemon.now - n)) (sym e ∙ r)
      | inr e ↦
          timeout-some t (on_received k timed_out w') (ticked_early k t w' p.deadline e)
          ∙ ap (λ (d : Daemon). some (t - d.now))
              (ticked k t w' p.deadline p.unfired
                ∙ ap
                    (λ b.
                      if b then kill_self (wipe_all (kill_registered k w'.daemon)) else w'.daemon)
                    e)
          ∙ (let same : t - (w.daemon.now + n) ≡ t - w.daemon.now - n = omega arith in ap some same)
          ∙ ap (λ b. if b then none else some (t - w.daemon.now - n)) (sym e ∙ r)
    ]

-- A loop with a panic pending waits for what is left of the window. However early or late it is
-- woken without an event, the daemon has then destroyed itself, in order, with exactly its
-- registered processes signalled and no panic pending any more, exactly when it waited that long;
-- before that it has done nothing, and still has its panic pending and waits for the rest.
pub timeout_lem :
    (k : Kernel) (t n : ℕ) (w : Watchdog)
    → IsPending t w
    → let wait = t - w.daemon.now in
      let w' = later n w in
      (timeout w ≡ some wait)
      × IsStruck (leb wait n) w.daemon (iterate k timed_out w').daemon
      × (timeout (iterate k timed_out w') ≡ (if leb wait n then none else some (wait - n)))
timeout_lem k t n w p =
    let w' = later n w in
    let same = iterate_running k timed_out w' p.running.0 p.running.1 in
    let when = reached t w.daemon.now n in
    (
      timeout-some t w p.deadline,
      subst (IsStruck (leb (t - w.daemon.now) n) w.daemon)
          (sym (
            ap (λ (x : Watchdog). x.daemon) same
            ∙ ticked k t w' p.deadline p.unfired
            ∙ ap (λ b. if b then kill_self (wipe_all (kill_registered k w'.daemon)) else w'.daemon)
                when))
          (destroy-IsStruck k (leb (t - w.daemon.now) n) w.daemon w'.daemon refl refl p.calm),
      ap timeout same ∙ waits k t n w p,
    )
