-- ===== src/Kikka/EventLoop/Buffers.antt =====
-- `run_with_listener` (rs/crates/kikka/src/lib.rs): the list of buffers over a run of the loop.
use ningen_shikkaku.Base.{
  ℕ, ◌≡◌, refl, ap, ◌∙◌, Bool, List, map, length, length-map, if◌then◌else◌, branch,
}
use ningen_shikkaku.Goodnight.Buffer.{SecretBuffer, wipe}
use ningen_shikkaku.Goodnight.Process.{Kernel}
use ningen_shikkaku.Kiroku.{Lifecycle, Reason}
use ningen_shikkaku.Kikka.Panic.{Controller}
use ningen_shikkaku.Kikka.Daemon.{Daemon, emit, wipe_buffers, count_u32}
use ningen_shikkaku.Kikka.EventLoop.Frames.{
  Dried_lem, Destroyed_lem, emit-Agrees, process_control-Agrees,
}
use ningen_shikkaku.Kikka.EventLoop.Moves.{Moves, keeps, dries, destroys}
use ningen_shikkaku.Kikka.EventLoop.Keeping.{IsKept, run-keeps}
use ningen_shikkaku.Kikka.EventLoop.Safety.{IsSafeWatchdog, start-Agrees, start-IsSafe}
use ningen_shikkaku.Kikka.EventLoop.{Watchdog, Action, leave, cleanup, run, start, start_daemon}

abbrev count : Watchdog → ℕ
count w = length w.daemon.buffers

wiped-count : (bs bs' : List SecretBuffer) → bs' ≡ map wipe bs → length bs' ≡ length bs
wiped-count bs bs' e = ap length e ∙ length-map wipe bs

Moves-count :
    (k : Kernel) {c c' : Controller} {d d' : Daemon}
    → Moves k c d c' d'
    → length d'.buffers ≡ length d.buffers
Moves-count k (keeps _ _ e) = rw e refl
Moves-count k {d} (dries _ _ _ _ e) = rw e (wiped-count d.buffers _ (Dried_lem d).buffers)
Moves-count k {d} (destroys _ _ _ _ e) = rw e (wiped-count d.buffers _ (Destroyed_lem k d).buffers)

leave-count : (r : Reason) (w : Watchdog) → count (leave r w) ≡ count w
unfolding leave cleanup
leave-count r w =
    let d = wipe_buffers w.daemon in
    let e = Lifecycle.wipe r (count_u32 (length w.daemon.buffers)) in
    ap length
      (emit-Agrees (Lifecycle.session_end r) (if w.controller.fired then d else emit e d)).buffers
    ∙ branch (λ (d' : Daemon). length d'.buffers ≡ length w.daemon.buffers) w.controller.fired
        (unfold wipe_buffers in length-map wipe w.daemon.buffers)
        (ap length (emit-Agrees e d).buffers
          ∙ unfold wipe_buffers in length-map wipe w.daemon.buffers)

abbrev SameCount : Daemon → Daemon → Type 0
SameCount d d' = length d'.buffers ≡ length d.buffers

count-IsKept : (k : Kernel) → IsKept SameCount k
count-IsKept k = record {
  stays = λ d. refl;
  chained = λ x y. y ∙ x;
  moved = λ m. Moves-count k m;
  retriggered = λ r d. refl;
  left = leave-count;
}

run-count :
    (k : Kernel) (grace : ℕ) (xs : List Action) (w : Watchdog)
    → IsSafeWatchdog w
    → count (run k grace xs w) ≡ count w
run-count k =
    run-keeps SameCount k (count-IsKept k)
      (λ grace line d. ap length (process_control-Agrees k grace line d).buffers) (λ n d. refl)

start-count :
    (grace now : ℕ) (armed sink : Bool) (bs : List SecretBuffer)
    → count (start grace now armed sink bs) ≡ length bs
unfolding start
start-count grace now armed sink bs =
    ap length (start-Agrees armed (start_daemon now armed sink bs)).buffers

-- No step of a run adds or drops a buffer.
pub run-start-count :
    (k : Kernel) (grace now : ℕ) (armed sink : Bool) (bs : List SecretBuffer) (xs : List Action)
    → length (run k grace xs (start grace now armed sink bs)).daemon.buffers ≡ length bs
run-start-count k grace now armed sink bs xs =
    run-count k grace xs (start grace now armed sink bs) (start-IsSafe grace now armed sink bs)
    ∙ start-count grace now armed sink bs
