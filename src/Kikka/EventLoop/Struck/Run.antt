-- ===== src/Kikka/EventLoop/Struck/Run.antt =====
-- Which processes a run of the loop of `run_with_listener` (rs/crates/kikka/src/lib.rs) signals.
use ningen_shikkaku.Base.{
  ℕ, zero, suc, ◌+◌, ◌≡◌, refl, sym, ap, ◌∙◌, ◌⊎◌, inl, inr, true, Option, none, some, List, [],
  ◌∷◌, ◌++◌, append-nil, count_if, arith, branch,
}
use ningen_shikkaku.Base.Text.{Bytes}
use ningen_shikkaku.Goodnight.Process.{Kernel}
use ningen_shikkaku.Kiroku.{Lifecycle, ArmVia}
use ningen_shikkaku.Kikka.Control.{
  register, unregister, arm, answer, process_control, parse_pid, verb_of, first_word_upper, Verb,
  register_verb, unregister_verb, arm_verb,
}
use ningen_shikkaku.Kikka.Daemon.{Effect, signalled, recorded, zeroized, lethal, Daemon}
use ningen_shikkaku.Kikka.EventLoop.Audit.{Stage, watching, striking, wiped, dead, audit}
use ningen_shikkaku.Kikka.EventLoop.Keeping.{iterate-keeps}
use ningen_shikkaku.Kikka.EventLoop.Safety.{IsSafeWatchdog, act-IsSafe}
use ningen_shikkaku.Kikka.EventLoop.Struck.{
  is_death, deaths, copies, Strikes, Strikes-IsKept, deaths-emit,
}
use ningen_shikkaku.Kikka.EventLoop.Interrupted.Shots.{shots, shots-controls}
use ningen_shikkaku.Kikka.EventLoop.Interrupted.{controls}
use ningen_shikkaku.Kikka.EventLoop.{Watchdog, Action, receives, requests, elapses, act, run}

abbrev ends : Option Stage → ℕ
ends (some dead) = 1
ends _ = 0

audit-none : (es : List Effect) → audit none es ≡ none
audit-none [] = refl
audit-none (e ∷ es) = audit-none es

-- An audit that has not failed has seen the lethal closure as often as its stages say.
pub audit-deaths :
    (es : List Effect) (o s : Stage)
    → audit (some o) es ≡ some s
    → count_if is_death es + ends (some o) ≡ ends (some s)
audit-deaths [] o s e = let f = ap ends e in omega (arith, f)
audit-deaths (recorded r ∷ es) watching s e = omega (arith, audit-deaths es watching s e)
audit-deaths (recorded r ∷ es) striking s e = omega (arith, audit-deaths es striking s e)
audit-deaths (recorded r ∷ es) wiped s e = omega (arith, audit-deaths es wiped s e)
audit-deaths (recorded r ∷ es) dead s e = omega (arith, audit-deaths es dead s e)
audit-deaths (signalled p r ∷ es) watching s e = omega (arith, audit-deaths es striking s e)
audit-deaths (signalled p r ∷ es) striking s e = omega (arith, audit-deaths es striking s e)
audit-deaths (signalled p r ∷ es) wiped s e = cc (audit-none es)
audit-deaths (signalled p r ∷ es) dead s e = cc (audit-none es)
audit-deaths (zeroized n ∷ es) watching s e = omega (arith, audit-deaths es wiped s e)
audit-deaths (zeroized n ∷ es) striking s e = omega (arith, audit-deaths es wiped s e)
audit-deaths (zeroized n ∷ es) wiped s e = omega (arith, audit-deaths es wiped s e)
audit-deaths (zeroized n ∷ es) dead s e = omega (arith, audit-deaths es dead s e)
audit-deaths (lethal ∷ es) wiped s e = omega (arith, audit-deaths es dead s e)
audit-deaths (lethal ∷ es) _ s e = cc (audit-none es)

-- What a step of the loop or beside it does to the processes and to the daemon itself.
record Hits (d d' : Daemon) (ps : List ℕ) : Type 0 where
  times : ℕ
  called : deaths d' ≡ deaths d + times
  hit : shots d' ≡ shots d ++ copies times ps

missed : (d d' : Daemon) (ps : List ℕ) → deaths d' ≡ deaths d → shots d' ≡ shots d → Hits d d' ps
missed d d' ps e s = record {
  times = 0;
  called = omega (arith, e);
  hit = s ∙ sym (append-nil (shots d));
}

-- The lethal closure is called again, or what was signalled stays.
record Later (d d' : Daemon) : Type 0 where
  more : ℕ
  counted : deaths d' ≡ deaths d + more
  steady : more ≡ 0 → shots d' ≡ shots d

register-deaths : (k : Kernel) (o : Option ℕ) (d : Daemon) → deaths (register k o d).0 ≡ deaths d
unfolding register
register-deaths k none d = refl
register-deaths k (some pid) d = ground arith

unregister-deaths : (o : Option ℕ) (d : Daemon) → deaths (unregister o d).0 ≡ deaths d
unfolding unregister
unregister-deaths none d = refl
unregister-deaths (some pid) d = refl

arm-deaths : (d : Daemon) → deaths (arm d).0 ≡ deaths d
unfolding arm
arm-deaths d =
    branch (λ (r : Daemon × Bytes). deaths r.0 ≡ deaths d) d.armed refl
      (deaths-emit (Lifecycle.arm ArmVia.control) (record d { armed = true }))

answer-deaths :
    (k : Kernel) (grace : ℕ) (v : Verb) (line : Bytes) (d : Daemon)
    → deaths (answer k grace v line d).0 ≡ deaths d
unfolding answer
answer-deaths k grace register_verb line d = register-deaths k (parse_pid line) d
answer-deaths k grace unregister_verb line d = unregister-deaths (parse_pid line) d
answer-deaths k grace arm_verb line d = arm-deaths d
answer-deaths k grace _ line d = refl

module _ (k : Kernel) (grace : ℕ) where
  request-Hits :
      (line : Bytes) (d : Daemon) (ps : List ℕ) → Hits d (process_control k grace line d).0 ps
  unfolding process_control controls
  request-Hits line d ps =
      missed d (process_control k grace line d).0 ps
        (answer-deaths k grace (verb_of (first_word_upper line)) line d)
        (shots-controls k grace (line ∷ []) d)

  act-Hits :
      (a : Action) (w : Watchdog)
      → IsSafeWatchdog w
      → Hits w.daemon (act k grace a w).daemon w.daemon.registered
  unfolding act
  act-Hits (receives r) w s =
      let x = iterate-keeps Strikes k (Strikes-IsKept k) r w s in
      record { times = x.times; called = x.called; hit = x.hit }
  act-Hits (requests line) w s = request-Hits line w.daemon w.daemon.registered
  act-Hits (elapses n) w s =
      missed w.daemon (record w.daemon { now = w.daemon.now + n }) w.daemon.registered refl refl

  copies-none : (n : ℕ) (ps : List ℕ) → n ≡ 0 → copies n ps ≡ []
  copies-none zero ps e = refl
  copies-none (suc n) ps e = let no : ⊥ = omega (arith, e) in elim no [ ]

  Hits-steady : {d d' : Daemon} {ps : List ℕ} (h : Hits d d' ps) → h.times ≡ 0 → shots d' ≡ shots d
  Hits-steady {d} {ps} h e =
      h.hit ∙ ap (λ x. shots d ++ x) (copies-none h.times ps e) ∙ append-nil (shots d)

  Hits-Later : {d d' : Daemon} {ps : List ℕ} → Hits d d' ps → Later d d'
  Hits-Later h = record { more = h.times; counted = h.called; steady = λ e. Hits-steady h e }

  run-Later :
      (xs : List Action) (w : Watchdog)
      → IsSafeWatchdog w
      → Later w.daemon (run k grace xs w).daemon
  unfolding run
  run-Later [] w s = record { more = 0; counted = omega arith; steady = λ e. refl }
  run-Later (a ∷ rest) w s =
      let x = Hits-Later (act-Hits a w s) in
      let y = run-Later rest (act k grace a w) (act-IsSafe k grace a w s) in
      record {
        more = x.more + y.more;
        counted = omega (arith, x.counted, y.counted);
        steady = λ e. y.steady (omega (arith, e)) ∙ x.steady (omega (arith, e));
      }

  -- One step of the run has destroyed the daemon: before it nothing was signalled and the lethal
  -- closure not called, and the processes signalled by the end are those that were registered at
  -- that step, in their order and each once.
  pub record Struck (xs : List Action) (w : Watchdog) : Type 0 where
    pub before : List Action
    pub step : Action
    pub after : List Action
    pub parts : xs ≡ before ++ step ∷ after
    pub unsignalled : shots (run k grace before w).daemon ≡ []
    pub alive : deaths (run k grace before w).daemon ≡ 0
    pub hit : shots (run k grace xs w).daemon ≡ (run k grace before w).daemon.registered

  split : (n : ℕ) → (n ≡ 0) ⊎ ((m : ℕ) × (n ≡ suc m))
  split zero = inl refl
  split (suc m) = inr (m, refl)

  pub run-Struck :
      (xs : List Action) (w : Watchdog)
      → IsSafeWatchdog w
      → deaths w.daemon ≡ 0
      → shots w.daemon ≡ []
      → deaths (run k grace xs w).daemon ≡ 1
      → Struck xs w
  unfolding run
  run-Struck [] w s d e one = let no : ⊥ = omega (arith, d, one) in elim no [ ]
  run-Struck (a ∷ rest) w s d e one =
      let w' = act k grace a w in
      let s' = act-IsSafe k grace a w s in
      let h = act-Hits a w s in
      elim (split h.times) [
        | inl z ↦
            let y =
              run-Struck rest w' s' (omega (arith, h.called, d, z)) (Hits-steady h z ∙ e) one in
            record {
              before = a ∷ y.before;
              step = y.step;
              after = y.after;
              parts = ap (◌∷◌ a) y.parts;
              unsignalled = y.unsignalled;
              alive = y.alive;
              hit = y.hit;
            }
        | inr (m, p) ↦
            let y = run-Later rest w' s' in
            let only : h.times ≡ 1 = omega (arith, h.called, y.counted, d, p, one) in
            record {
              before = [];
              step = a;
              after = rest;
              parts = refl;
              unsignalled = e;
              alive = d;
              hit =
                  y.steady (omega (arith, h.called, y.counted, d, p, one))
                  ∙ h.hit
                  ∙ ap (λ x. x ++ copies h.times w.daemon.registered) e
                  ∙ ap (λ n. copies n w.daemon.registered) only
                  ∙ append-nil w.daemon.registered;
            }
      ]
