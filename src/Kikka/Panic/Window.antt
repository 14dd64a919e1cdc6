-- ===== src/Kikka/Panic/Window.antt =====
-- The grace window: when an armed graceful panic kills, and when it can still be stopped.
use ningen_shikkaku.Base.{
  ℕ, ◌+◌, ◌≤◌, ◌<◌, ◌≡◌, true, false, Option, none, some, List, [], ◌∷◌, arith, leb, if◌then◌else◌,
}
use ningen_shikkaku.Kikka.Panic.{Controller, new, request_graceful, request_hard, cancel, tick}
use ningen_shikkaku.Kikka.Panic.Policy.{
  Recorder, Call, graceful, hard, ticks, waits, step, run, fresh, kills_registered, wipes, kills,
}
use Prim.Native.String.{String}

-- An idle armed controller that is triggered and ticked `n` ticks later has destroyed itself
-- exactly when the grace window is over by then; before that it has done nothing.
pub window_exact :
    (g n now : ℕ) (why : String)
    → 0 < g
    → (run (graceful why ∷ waits n ∷ ticks ∷ []) (new g) (fresh true now)).1.trace
      ≡ (if leb g n then kills_registered ∷ wipes ∷ kills ∷ [] else [])
unfolding run step new request_graceful tick
window_exact g n now why h = ground arith

-- No hard trigger among the calls.
abbrev pub NoHard : List Call → Type 0
NoHard [] = Unit
NoHard (hard _ ∷ xs) = ⊥
NoHard (_ ∷ xs) = NoHard xs

-- The deadline, if any, is not before the limit.
abbrev Late : ℕ → Option ℕ → Type 0
Late limit none = Unit
Late limit (some d) = limit ≤ d

-- An armed panic that is not over before `limit`, or none at all, and nothing done so far.
record IsQuiet (limit : ℕ) (c : Controller) (r : Recorder) : Type 0 where
  unfired : c.fired ≡ false
  is_armed : r.armed ≡ true
  graced : 0 < c.grace
  far : limit ≤ r.now + c.grace
  late : Late limit c.deadline
  idle : r.trace ≡ []

-- One step keeps the quiet while its end is before the limit, and time does not run back.
step-IsQuiet :
    (x : Call) (xs : List Call) (limit : ℕ) (c : Controller) (r : Recorder)
    → NoHard (x ∷ xs)
    → IsQuiet limit c r
    → r.now < limit
    → IsQuiet limit (step x c r).0 (step x c r).1 × NoHard xs
unfolding step request_graceful cancel tick
step-IsQuiet (hard why) xs limit c r n q h = absurd n
step-IsQuiet _ xs limit c r n q h = ground arith

step_clock : (x : Call) (c : Controller) (r : Recorder) → r.now ≤ (step x c r).1.now
unfolding step request_graceful request_hard cancel tick
step_clock ticks c r = ground arith
step_clock _ c r = ground arith

run_clock : (xs : List Call) (c : Controller) (r : Recorder) → r.now ≤ (run xs c r).1.now
unfolding run
run_clock [] c r = omega arith
run_clock (x ∷ xs) c r = omega (arith, step_clock x c r, run_clock xs (step x c r).0 (step x c r).1)

run-IsQuiet :
    (xs : List Call) (limit : ℕ) (c : Controller) (r : Recorder)
    → NoHard xs
    → IsQuiet limit c r
    → (run xs c r).1.now < limit
    → IsQuiet limit (run xs c r).0 (run xs c r).1
unfolding run
run-IsQuiet [] limit c r n q h = q
run-IsQuiet (x ∷ xs) limit c r n q h =
    let (c', r') = step x c r in
    let h' : r'.now < limit = omega (arith, run_clock xs c' r') in
    let (q', n') = step-IsQuiet x xs limit c r n q (omega (arith, step_clock x c r)) in
    run-IsQuiet xs limit c' r' n' q' h

begin-IsQuiet :
    (g now : ℕ) (why : String)
    → 0 < g
    → let s = step (graceful why) (new g) (fresh true now) in IsQuiet (now + g) (s.0) (s.1)
unfolding step new request_graceful
begin-IsQuiet g now why h = ground arith

-- An armed graceful panic on a fresh controller does nothing before its window is over, whatever
-- calls follow it (more graceful triggers, cancels, ticks, arming, waiting), hard triggers aside.
pub window_holds :
    (g now : ℕ) (why : String) (xs : List Call)
    → 0 < g
    → NoHard xs
    → (run (graceful why ∷ xs) (new g) (fresh true now)).1.now < now + g
    → let end = run (graceful why ∷ xs) (new g) (fresh true now) in
      ((end.1).trace ≡ []) × ((end.0).fired ≡ false)
unfolding run
window_holds g now why xs h n e =
    let (c, r) = step (graceful why) (new g) (fresh true now) in
    let q = run-IsQuiet xs (now + g) c r n (begin-IsQuiet g now why h) e in (q.idle, q.unfired)
