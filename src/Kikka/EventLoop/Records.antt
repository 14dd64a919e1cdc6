-- ===== src/Kikka/EventLoop/Records.antt =====
-- The lifecycle records that a daemon makes (rs/crates/kikka/src/lib.rs).
use ningen_shikkaku.Base.{
  ℕ, ◌≤◌, ◌≡◌, refl, Bool, true, false, Option, none, some, List, [], ◌∷◌, ◌++◌, map, length, All,
  All-append, arith, if◌then◌else◌, branch,
}
use ningen_shikkaku.Base.Text.{Bytes}
use ningen_shikkaku.Goodnight.Buffer.{SecretBuffer}
use ningen_shikkaku.Goodnight.Process.{Kernel, sigkill_pid}
use ningen_shikkaku.Kiroku.{Lifecycle, KillTarget, Reason, ArmVia}
use ningen_shikkaku.Kiroku.Render.Bound.{IsInRange}
use ningen_shikkaku.Kikka.Control.{
  register, unregister, arm, answer, process_control, parse_pid, verb_of, first_word_upper, Verb,
  register_verb, unregister_verb, arm_verb,
}
use ningen_shikkaku.Kikka.Daemon.{
  Effect, signalled, recorded, zeroized, lethal, Daemon, emit, kill_registered, wipe_all,
  wipe_buffers, kill_self, dry_done, count_u32,
}
use ningen_shikkaku.Kikka.EventLoop.Moves.{Moves, keeps, dries, destroys}
use ningen_shikkaku.Kikka.EventLoop.Keeping.{IsKept, run-keeps}
use ningen_shikkaku.Kikka.EventLoop.Safety.{start-IsSafe}
use ningen_shikkaku.Kikka.EventLoop.{Watchdog, Action, leave, cleanup, run, start, start_daemon}

abbrev pub records : List Effect → List Lifecycle
records [] = []
records (recorded e ∷ es) = e ∷ records es
records (_ ∷ es) = records es

-- A record is in the range of its fields.
abbrev IsSound : Effect → Type 0
IsSound (recorded e) = IsInRange e
IsSound _ = Unit

abbrev IsRecorded : Daemon → Type 0
IsRecorded d = All IsSound d.trace

count_u32-le : (n : ℕ) → count_u32 n ≤ 4294967295
unfolding count_u32
count_u32-le n = omega arith

emit-IsRecorded : (e : Lifecycle) (d : Daemon) → IsInRange e → IsRecorded d → IsRecorded (emit e d)
unfolding emit
emit-IsRecorded e d r h =
    branch IsRecorded d.sink (All-append IsSound d.trace (recorded e ∷ []) h (r, tt)) h

signals-none :
    (k : Kernel) (ps : List ℕ) → All IsSound (map (λ pid. signalled pid (sigkill_pid k pid)) ps)
signals-none k [] = tt
signals-none k (p ∷ ps) = (tt, signals-none k ps)

kill_registered-IsRecorded :
    (k : Kernel) (d : Daemon) → IsRecorded d → IsRecorded (kill_registered k d)
unfolding kill_registered
kill_registered-IsRecorded k d h =
    let es = map (λ pid. signalled pid (sigkill_pid k pid)) d.registered in
    emit-IsRecorded
      (Lifecycle.kill d.trigger KillTarget.registered (count_u32 (length d.registered)) true)
      (record d { trace = d.trace ++ es }) (count_u32-le (length d.registered))
      (All-append IsSound d.trace es h (signals-none k d.registered))

wipe_buffers-IsRecorded : (d : Daemon) → IsRecorded d → IsRecorded (wipe_buffers d)
unfolding wipe_buffers
wipe_buffers-IsRecorded d h =
    All-append IsSound d.trace (zeroized (length d.buffers) ∷ []) h (tt, tt)

wipe_all-IsRecorded : (d : Daemon) → IsRecorded d → IsRecorded (wipe_all d)
unfolding wipe_all
wipe_all-IsRecorded d h =
    emit-IsRecorded (Lifecycle.wipe d.trigger (count_u32 (length d.buffers))) (wipe_buffers d)
      (count_u32-le (length d.buffers)) (wipe_buffers-IsRecorded d h)

kill_self-IsRecorded : (d : Daemon) → IsRecorded d → IsRecorded (kill_self d)
unfolding kill_self
kill_self-IsRecorded d h =
    let e = Lifecycle.kill d.trigger KillTarget.self_process 1 true in
    All-append IsSound (emit e d).trace (lethal ∷ []) (emit-IsRecorded e d (omega arith) h) (tt, tt)

dry_done-IsRecorded : (d : Daemon) → IsRecorded d → IsRecorded (dry_done d)
unfolding dry_done
dry_done-IsRecorded d h =
    let would = count_u32 (length d.registered) in
    let e = Lifecycle.kill d.trigger KillTarget.registered would false in
    emit-IsRecorded (Lifecycle.kill d.trigger KillTarget.self_process 1 false) (emit e d)
      (omega arith) (emit-IsRecorded e d (count_u32-le (length d.registered)) h)

leave-IsRecorded : (r : Reason) (w : Watchdog) → IsRecorded w.daemon → IsRecorded (leave r w).daemon
unfolding leave cleanup
leave-IsRecorded r w h =
    let d = wipe_buffers w.daemon in
    let e = Lifecycle.wipe r (count_u32 (length w.daemon.buffers)) in
    let wiped = wipe_buffers-IsRecorded w.daemon h in
    emit-IsRecorded (Lifecycle.session_end r) (if w.controller.fired then d else emit e d) tt (
      branch IsRecorded w.controller.fired wiped
        (emit-IsRecorded e d (count_u32-le (length w.daemon.buffers)) wiped))

Moves-IsRecorded :
    (k : Kernel) {c c' : _} {d d' : Daemon} → Moves k c d c' d' → IsRecorded d → IsRecorded d'
Moves-IsRecorded k (keeps _ _ e) h = rw e h
Moves-IsRecorded k {d} (dries _ _ _ _ e) h =
    rw e (dry_done-IsRecorded (wipe_all d) (wipe_all-IsRecorded d h))
Moves-IsRecorded k {d} (destroys _ _ _ _ e) h = rw e (
    kill_self-IsRecorded (wipe_all (kill_registered k d))
      (wipe_all-IsRecorded (kill_registered k d) (kill_registered-IsRecorded k d h)))

abbrev Keeps : Daemon → Daemon → Type 0
Keeps d d' = IsRecorded d → IsRecorded d'

IsRecorded-IsKept : (k : Kernel) → IsKept Keeps k
IsRecorded-IsKept k = record {
  stays = λ d h. h;
  chained = λ f g h. g (f h);
  moved = λ m. Moves-IsRecorded k m;
  retriggered = λ r d h. h;
  left = leave-IsRecorded;
}

register-trace : (k : Kernel) (o : Option ℕ) (d : Daemon) → (register k o d).0.trace ≡ d.trace
unfolding register
register-trace k none d = refl
register-trace k (some pid) d = ground arith

unregister-trace : (o : Option ℕ) (d : Daemon) → (unregister o d).0.trace ≡ d.trace
unfolding unregister
unregister-trace none d = refl
unregister-trace (some pid) d = refl

arm-IsRecorded : (d : Daemon) → IsRecorded d → IsRecorded (arm d).0
unfolding arm
arm-IsRecorded d h =
    branch (λ (r : Daemon × Bytes). IsRecorded r.0) d.armed h
      (emit-IsRecorded (Lifecycle.arm ArmVia.control) (record d { armed = true }) tt h)

answer-IsRecorded :
    (k : Kernel) (grace : ℕ) (v : Verb) (line : Bytes) (d : Daemon)
    → IsRecorded d
    → IsRecorded (answer k grace v line d).0
unfolding answer
answer-IsRecorded k grace register_verb line d h = rw (register-trace k (parse_pid line) d) h
answer-IsRecorded k grace unregister_verb line d h = rw (unregister-trace (parse_pid line) d) h
answer-IsRecorded k grace arm_verb line d h = arm-IsRecorded d h
answer-IsRecorded k grace _ line d h = h

process_control-IsRecorded :
    (k : Kernel) (grace : ℕ) (line : Bytes) (d : Daemon)
    → IsRecorded d
    → IsRecorded (process_control k grace line d).0
unfolding process_control
process_control-IsRecorded k grace line =
    answer-IsRecorded k grace (verb_of (first_word_upper line)) line

start-IsRecorded :
    (grace now : ℕ) (armed sink : Bool) (bs : List SecretBuffer)
    → IsRecorded (start grace now armed sink bs).daemon
unfolding start
start-IsRecorded grace now armed sink bs =
    let d = start_daemon now armed sink bs in
    let d1 = emit (Lifecycle.session_start armed) d in
    let started = emit-IsRecorded (Lifecycle.session_start armed) d tt tt in
    branch IsRecorded armed (emit-IsRecorded (Lifecycle.arm ArmVia.startup) d1 tt started) started

records-IsInRange : (es : List Effect) → All IsSound es → All IsInRange (records es)
records-IsInRange [] h = tt
records-IsInRange (recorded e ∷ es) (h, hs) = (h, records-IsInRange es hs)
records-IsInRange (signalled _ _ ∷ es) (h, hs) = records-IsInRange es hs
records-IsInRange (zeroized _ ∷ es) (h, hs) = records-IsInRange es hs
records-IsInRange (lethal ∷ es) (h, hs) = records-IsInRange es hs

-- Every record that a daemon makes is in the range of its fields.
pub run-start-IsInRange :
    (k : Kernel) (grace now : ℕ) (armed sink : Bool) (bs : List SecretBuffer) (xs : List Action)
    → All IsInRange (records (run k grace xs (start grace now armed sink bs)).daemon.trace)
run-start-IsInRange k grace now armed sink bs xs =
    records-IsInRange (run k grace xs (start grace now armed sink bs)).daemon.trace (
      run-keeps Keeps k (IsRecorded-IsKept k) (process_control-IsRecorded k) (λ n d h. h) grace xs
        (start grace now armed sink bs) (start-IsSafe grace now armed sink bs)
        (start-IsRecorded grace now armed sink bs))
