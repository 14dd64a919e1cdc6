-- ===== src/Rei/Server/Dry.antt =====
-- An agent that does not arm the daemon: rs/crates/rei/src/lib.rs over rs/crates/kikka/src/lib.rs.
use ningen_shikkaku.Base.{
  ℕ, ◌≤◌, ◌≡◌, refl, ap, ◌∙◌, Bool, false, inl, inr, some, List, [], ◌∷◌, arith, Bool-cases, All,
  ◌==◌, ◌&&◌, if◌then◌else◌, branch, length,
}
use ningen_shikkaku.Base.Text.{Bytes}
use ningen_shikkaku.Goodnight.Buffer.{SecretBuffer}
use ningen_shikkaku.Goodnight.Process.{Kernel}
use ningen_shikkaku.Kiroku.{Lifecycle, Reason}
use ningen_shikkaku.Kikka.Panic.{Controller}
use ningen_shikkaku.Kikka.Daemon.{Daemon, emit, wipe_buffers, count_u32}
use ningen_shikkaku.Kikka.Control
use ningen_shikkaku.Kikka.Control.{u32_max, process_control}
use ningen_shikkaku.Kikka.EventLoop.{
  Watchdog, Signal, Action, receives, requests, event, signal, leave, cleanup, act, run, start,
}
use ningen_shikkaku.Kikka.EventLoop.Frames.{kills, Dried_lem, Destroyed_lem}
use ningen_shikkaku.Kikka.EventLoop.Moves.{Moves, keeps, dries, destroys}
use ningen_shikkaku.Kikka.EventLoop.Keeping.{IsKept, iterate-keeps}
use ningen_shikkaku.Kikka.EventLoop.Safety.{
  IsSafeWatchdog, act-IsSafe, run-IsSafe, run-start-IsSafe,
}
use ningen_shikkaku.Rei.{DazaiClient}
use ningen_shikkaku.Rei.Wire.{process_control-register_request, process_control-unregister_request}
use ningen_shikkaku.Rei.RoundTrip.{status_request}
use ningen_shikkaku.Rei.Server.{
  Tool, dazai_status, dazai_register, dazai_unregister, dazai_panic, dazai_hard_panic, dazai_arm,
}
use ningen_shikkaku.Rei.Server.Agent.{request_of, received, use_tool, use_tools}

Moves-armed :
    (k : Kernel) {c c' : Controller} {d d' : Daemon} → Moves k c d c' d' → d'.armed ≡ d.armed
Moves-armed k (keeps _ _ e) = rw e refl
Moves-armed k {d} (dries _ _ _ _ e) = rw e (Dried_lem d).armed
Moves-armed k {d} (destroys _ _ _ _ e) = rw e (Destroyed_lem k d).armed

emit-armed : (e : Lifecycle) (d : Daemon) → (emit e d).armed ≡ d.armed
unfolding emit
emit-armed e d = ground arith

leave-armed : (r : Reason) (w : Watchdog) → (leave r w).daemon.armed ≡ w.daemon.armed
unfolding leave cleanup
leave-armed r w =
    let d = wipe_buffers w.daemon in
    let e = Lifecycle.wipe r (count_u32 (length w.daemon.buffers)) in
    emit-armed (Lifecycle.session_end r) (if w.controller.fired then d else emit e d)
    ∙ branch (λ (d' : Daemon). d'.armed ≡ w.daemon.armed) w.controller.fired
        (unfold wipe_buffers in refl) (emit-armed e d ∙ unfold wipe_buffers in refl)

abbrev SameArmed : Daemon → Daemon → Type 0
SameArmed d d' = d'.armed ≡ d.armed

armed-IsKept : (k : Kernel) → IsKept SameArmed k
armed-IsKept k = record {
  stays = λ d. refl;
  chained = λ x y. y ∙ x;
  moved = λ m. Moves-armed k m;
  retriggered = λ r d. refl;
  left = leave-armed;
}

-- The tools that do not arm, with pids in their range.
abbrev pub IsHarmless : Tool → Type 0
IsHarmless dazai_arm = ⊥
IsHarmless (dazai_register pid) = pid ≤ u32_max
IsHarmless (dazai_unregister pid) = pid ≤ u32_max
IsHarmless _ = Unit

register-armed :
    (k : Kernel) (pid : ℕ) (d : Daemon) → (Control.register k (some pid) d).0.armed ≡ d.armed
unfolding Control.register
register-armed k pid d = ground arith

unregister-armed : (pid : ℕ) (d : Daemon) → (Control.unregister (some pid) d).0.armed ≡ d.armed
unfolding Control.unregister
unregister-armed pid d = refl

request-armed :
    (k : Kernel) (grace : ℕ) (t : Tool) (d : Daemon)
    → IsHarmless t
    → (process_control k grace (request_of t) d).0.armed ≡ d.armed
request-armed k grace dazai_arm d h = elim h [ ]
request-armed k grace (dazai_register pid) d h =
    ap (λ (r : Daemon × Bytes × Bool). r.0.armed) (process_control-register_request k grace pid d h)
    ∙ register-armed k pid d
request-armed k grace (dazai_unregister pid) d h =
    ap (λ (r : Daemon × Bytes × Bool). r.0.armed)
      (process_control-unregister_request k grace pid d h)
    ∙ unregister-armed pid d
request-armed k grace dazai_status d h =
    ap (λ (r : Daemon × Bytes × Bool). r.0.armed) (status_request k grace d)
request-armed k grace dazai_panic d h =
    ap (λ (r : Daemon × Bytes × Bool). r.0.armed) (status_request k grace d)
request-armed k grace dazai_hard_panic d h =
    ap (λ (r : Daemon × Bytes × Bool). r.0.armed) (status_request k grace d)

module _ (k : Kernel) (grace : ℕ) where
  received-armed :
      (sends : ℕ → Signal → Bool) (pid : ℕ) (sent : List (ℕ × Signal)) (w : Watchdog)
      → IsSafeWatchdog w
      → (run k grace (received sends pid sent) w).daemon.armed ≡ w.daemon.armed
  unfolding run
  received-armed sends pid [] w s = refl
  received-armed sends pid ((p, g) ∷ rest) w s = elim (Bool-cases (p == pid && sends p g)) [
    | inl e ↦
        let a = receives (event (signal g)) in
        rw e (
          received-armed sends pid rest (act k grace a w) (act-IsSafe k grace a w s)
          ∙ unfold act in iterate-keeps SameArmed k (armed-IsKept k) (event (signal g)) w s)
    | inr e ↦ rw e (received-armed sends pid rest w s)
  ]

  tool-armed :
      (pid : ℕ) (c : DazaiClient) (t : Tool) (w : Watchdog)
      → IsHarmless t
      → IsSafeWatchdog w
      → (use_tool k grace pid c t w).1.daemon.armed ≡ w.daemon.armed
  unfolding use_tool
  tool-armed pid c t w h s =
      let line = requests (request_of t) in
      received-armed c.signal_fn pid _ (act k grace line w) (act-IsSafe k grace line w s)
      ∙ unfold act in request-armed k grace t w.daemon h

  tool-IsSafe :
      (pid : ℕ) (c : DazaiClient) (t : Tool) (w : Watchdog)
      → IsSafeWatchdog w
      → IsSafeWatchdog (use_tool k grace pid c t w).1
  unfolding use_tool
  tool-IsSafe pid c t w s =
      let line = requests (request_of t) in
      run-IsSafe k grace _ (act k grace line w) (act-IsSafe k grace line w s)

  harmless-kills :
      (pid : ℕ) (c : DazaiClient) (ts : List Tool) (w : Watchdog)
      → All IsHarmless ts
      → w.daemon.armed ≡ false
      → IsSafeWatchdog w
      → kills (use_tools k grace pid c ts w).daemon ≡ 0
  unfolding use_tools
  harmless-kills pid c [] w h a s = s.bloodless a
  harmless-kills pid c (t ∷ ts) w (h, hs) a s =
      harmless-kills pid c ts (use_tool k grace pid c t w).1 hs (tool-armed pid c t w h s ∙ a)
        (tool-IsSafe pid c t w s)

-- An agent that does not arm the daemon kills nothing with it: on a daemon that is not armed after
-- some history, it may use every other tool, with pids in the range of their type, as often and in whatever
-- order it likes, hard panics included, and wherever its signals go.
pub harmless_tools-kills :
    (k : Kernel) (grace now pid : ℕ) (armed sink : Bool) (bs : List SecretBuffer) (xs : List Action)
    (c : DazaiClient) (ts : List Tool)
    → (run k grace xs (start grace now armed sink bs)).daemon.armed ≡ false
    → All IsHarmless ts
    → kills (use_tools k grace pid c ts (run k grace xs (start grace now armed sink bs))).daemon ≡ 0
harmless_tools-kills k grace now pid armed sink bs xs c ts a h =
    let w = run k grace xs (start grace now armed sink bs) in
    harmless-kills k grace pid c ts w h a (run-start-IsSafe k grace now armed sink bs xs)
