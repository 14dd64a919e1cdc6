-- ===== src/Kikka/EventLoop/Struck.antt =====
-- Which processes a daemon has signalled when it has destroyed itself
-- (`run_with_listener`, rs/crates/kikka/src/lib.rs).
pub mod Run
use ningen_shikkaku.Base.{
  ℕ, zero, suc, ◌+◌, ◌≡◌, refl, sym, ap, ◌∙◌, Bool, true, false, Option, none, some, List, [], ◌∷◌,
  ◌++◌, append_assoc, append-nil, count_if, count_if-append, map, length, arith, if◌then◌else◌,
  branch,
}
use ningen_shikkaku.Base.Text.{Bytes}
use ningen_shikkaku.Goodnight.Process.{Kernel, sigkill_pid}
use ningen_shikkaku.Goodnight.Buffer.{SecretBuffer}
use ningen_shikkaku.Kiroku.{Lifecycle, KillTarget, Reason, ArmVia}
use ningen_shikkaku.Kikka.Control.{
  register, unregister, arm, answer, process_control, parse_pid, verb_of, first_word_upper, Verb,
  register_verb, unregister_verb, arm_verb,
}
use ningen_shikkaku.Kikka.Daemon.{
  Effect, signalled, recorded, zeroized, lethal, Daemon, emit, kill_registered, wipe_all,
  wipe_buffers, kill_self, dry_done, count_u32,
}
use ningen_shikkaku.Kikka.EventLoop.Audit.{
  Stage, watching, striking, wiped, dead, audit, audit_one, verdict,
}
use ningen_shikkaku.Kikka.EventLoop.Moves.{Moves, keeps, dries, destroys}
use ningen_shikkaku.Kikka.EventLoop.Keeping.{IsKept, iterate-keeps}
use ningen_shikkaku.Kikka.EventLoop.Safety.{IsSafeWatchdog, act-IsSafe, start-IsSafe}
use ningen_shikkaku.Kikka.EventLoop.Interrupted.Shots.{
  shots, shots-emit, shots-wipe_buffers, destroy-shots,
}
use ningen_shikkaku.Kikka.EventLoop.{
  Watchdog, Action, receives, requests, elapses, leave, cleanup, iterate, act, run, start,
  start_daemon,
}

abbrev pub is_death : Effect → Bool
is_death lethal = true
is_death _ = false

-- How often the lethal closure was called.
abbrev pub deaths : Daemon → ℕ
deaths d = count_if is_death d.trace

-- The list `n` times.
abbrev pub copies : ℕ → List ℕ → List ℕ
copies zero ps = []
copies (suc n) ps = ps ++ copies n ps

copies-append : (m n : ℕ) (ps : List ℕ) → copies m ps ++ copies n ps ≡ copies (m + n) ps
copies-append zero n ps = let e : n ≡ 0 + n = omega arith in ap (λ x. copies x ps) e
copies-append (suc m) n ps =
    append_assoc ps (copies m ps) (copies n ps)
    ∙ ap (λ x. ps ++ x) (copies-append m n ps)
    ∙ (let e : suc (m + n) ≡ suc m + n = omega arith in ap (λ x. copies x ps) e)

-- From a daemon to another the lethal closure was called `times` times, with the registered
-- processes signalled each time and no others, and the registered processes stay.
pub record Strikes (d d' : Daemon) : Type 0 where
  pub times : ℕ
  pub same : d'.registered ≡ d.registered
  pub called : deaths d' ≡ deaths d + times
  pub hit : shots d' ≡ shots d ++ copies times d.registered

quiet :
    (d d' : Daemon)
    → d'.registered ≡ d.registered
    → deaths d' ≡ deaths d
    → shots d' ≡ shots d
    → Strikes d d'
quiet d d' r e s = record {
  times = 0;
  same = r;
  called = omega (arith, e);
  hit = s ∙ sym (append-nil (shots d));
}

chain : {a b c : Daemon} → Strikes a b → Strikes b c → Strikes a c
chain {a} {b} {c} x y = record {
  times = x.times + y.times;
  same = y.same ∙ x.same;
  called = omega (arith, x.called, y.called);
  hit =
      y.hit
      ∙ ap (λ s. s ++ copies y.times b.registered) x.hit
      ∙ append_assoc (shots a) (copies x.times a.registered) (copies y.times b.registered)
      ∙ ap (λ ps. shots a ++ (copies x.times a.registered ++ copies y.times ps)) x.same
      ∙ ap (λ s. shots a ++ s) (copies-append x.times y.times a.registered);
}

pub deaths-emit : (e : Lifecycle) (d : Daemon) → deaths (emit e d) ≡ deaths d
unfolding emit
deaths-emit e d = ground (arith, count_if-append is_death d.trace (recorded e ∷ []))

registered-emit : (e : Lifecycle) (d : Daemon) → (emit e d).registered ≡ d.registered
unfolding emit
registered-emit e d = ground arith

emit-Strikes : (e : Lifecycle) (d : Daemon) → Strikes d (emit e d)
emit-Strikes e d = quiet d (emit e d) (registered-emit e d) (deaths-emit e d) (shots-emit e d)

deaths-wipe_buffers : (d : Daemon) → deaths (wipe_buffers d) ≡ deaths d
unfolding wipe_buffers
deaths-wipe_buffers d =
    omega (arith, count_if-append is_death d.trace (zeroized (length d.buffers) ∷ []))

wipe_buffers-Strikes : (d : Daemon) → Strikes d (wipe_buffers d)
wipe_buffers-Strikes d =
    quiet d (wipe_buffers d) (unfold wipe_buffers in refl) (deaths-wipe_buffers d)
      (shots-wipe_buffers d)

deaths-wipe_all : (d : Daemon) → deaths (wipe_all d) ≡ deaths d
unfolding wipe_all
deaths-wipe_all d =
    deaths-emit (Lifecycle.wipe d.trigger (count_u32 (length d.buffers))) (wipe_buffers d)
    ∙ deaths-wipe_buffers d

wipe_all-Strikes : (d : Daemon) → Strikes d (wipe_all d)
unfolding wipe_all
wipe_all-Strikes d =
    chain (wipe_buffers-Strikes d)
      (emit-Strikes (Lifecycle.wipe d.trigger (count_u32 (length d.buffers))) (wipe_buffers d))

dry_done-Strikes : (d : Daemon) → Strikes d (dry_done d)
unfolding dry_done
dry_done-Strikes d =
    let e =
      Lifecycle.kill d.trigger KillTarget.registered (count_u32 (length d.registered)) false in
    let f = Lifecycle.kill d.trigger KillTarget.self_process 1 false in
    let x = chain (emit-Strikes e d) (emit-Strikes f (emit e d)) in
    record { times = x.times; same = x.same; called = x.called; hit = x.hit }

signals_deathless :
    (k : Kernel) (ps : List ℕ)
    → count_if is_death (map (λ pid. signalled pid (sigkill_pid k pid)) ps) ≡ 0
signals_deathless k [] = refl
signals_deathless k (p ∷ ps) = omega (arith, signals_deathless k ps)

deaths-kill_registered : (k : Kernel) (d : Daemon) → deaths (kill_registered k d) ≡ deaths d
unfolding kill_registered
deaths-kill_registered k d =
    let es = map (λ pid. signalled pid (sigkill_pid k pid)) d.registered in
    deaths-emit
      (Lifecycle.kill d.trigger KillTarget.registered (count_u32 (length d.registered)) true)
      (record d { trace = d.trace ++ es })
    ∙ omega (arith, count_if-append is_death d.trace es, signals_deathless k d.registered)

deaths-kill_self : (d : Daemon) → deaths (kill_self d) ≡ deaths d + 1
unfolding kill_self
deaths-kill_self d =
    let e = Lifecycle.kill d.trigger KillTarget.self_process 1 true in
    omega (arith, count_if-append is_death (emit e d).trace (lethal ∷ []), deaths-emit e d)

destroy-registered :
    (k : Kernel) (d : Daemon)
    → (kill_self (wipe_all (kill_registered k d))).registered ≡ d.registered
unfolding kill_self wipe_all wipe_buffers kill_registered emit
destroy-registered k d = ground arith

destroy-Strikes : (k : Kernel) (d : Daemon) → Strikes d (kill_self (wipe_all (kill_registered k d)))
destroy-Strikes k d =
    let d1 = kill_registered k d in
    record {
      times = 1;
      same = destroy-registered k d;
      called =
          omega
            (arith, deaths-kill_self (wipe_all d1), deaths-wipe_all d1, deaths-kill_registered k d);
      hit = destroy-shots k d ∙ ap (λ ps. shots d ++ ps) (sym (append-nil d.registered));
    }

leave-Strikes : (r : Reason) (w : Watchdog) → Strikes w.daemon (leave r w).daemon
unfolding leave cleanup
leave-Strikes r w =
    let d = wipe_buffers w.daemon in
    let e = Lifecycle.wipe r (count_u32 (length w.daemon.buffers)) in
    let f = Lifecycle.session_end r in
    let wiped = wipe_buffers-Strikes w.daemon in
    let told =
      branch (Strikes w.daemon) w.controller.fired wiped (chain wiped (emit-Strikes e d)) in
    let x = chain told (emit-Strikes f (if w.controller.fired then d else emit e d)) in
    record { times = x.times; same = x.same; called = x.called; hit = x.hit }

Moves-Strikes : (k : Kernel) {c c' : _} {d d' : Daemon} → Moves k c d c' d' → Strikes d d'
Moves-Strikes k {d} (keeps _ _ e) = rw e (quiet d d refl refl refl)
Moves-Strikes k {d} (dries _ _ _ _ e) =
    rw e (chain (wipe_all-Strikes d) (dry_done-Strikes (wipe_all d)))
Moves-Strikes k {d} (destroys _ _ _ _ e) = rw e (destroy-Strikes k d)

pub Strikes-IsKept : (k : Kernel) → IsKept Strikes k
Strikes-IsKept k = record {
  stays = λ d. quiet d d refl refl refl;
  chained = chain;
  moved = λ m. Moves-Strikes k m;
  retriggered = λ r d. quiet d (record d { trigger = r }) refl refl refl;
  left = leave-Strikes;
}
