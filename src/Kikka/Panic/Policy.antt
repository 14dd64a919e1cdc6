-- ===== src/Kikka/Panic/Policy.antt =====
-- The policy of the controller over recording collaborators, as the fakes of the source's tests:
-- each one appends its name to a trace. The environment arms the controller (it never disarms it)
-- and moves the clock on.
use Prim.Native.String.{String}
use ningen_shikkaku.Base.{
  ℕ, ◌+◌, ◌≡◌, refl, Bool, true, false, none, some, List, [], ◌∷◌, ◌++◌, arith, ltb, leb,
  if◌then◌else◌, ◌∙◌, subst,
}
use ningen_shikkaku.Kikka.Panic.{
  Collaborators, Controller, new, request_graceful, request_hard, cancel, tick,
}

pub data Act : Type 0 where
  kills_registered wipes kills finishes_dry : Act

pub record Recorder : Type 0 where
  pub armed : Bool
  pub now : ℕ
  pub trace : List Act

abbrev does : Act → Recorder → Recorder
does a r = record r { trace = r.trace ++ a ∷ [] }

abbrev pub recording : Collaborators Recorder
recording = record {
  armed = λ r. r.armed;
  kill_registered = does kills_registered;
  wipe = does wipes;
  kill = does kills;
  dry_done = does finishes_dry;
  clock = λ r. r.now;
  log = λ _ r. r;
}

pub data Call : Type 0 where
  graceful hard cancels : (reason : String) → Call
  ticks arms : Call
  waits : ℕ → Call

abbrev State : Type 0
State = Controller × Recorder

unfoldable pub step : Call → Controller → Recorder → Controller × Recorder
step (graceful why) c r = request_graceful recording why c r
step (hard why) c r = request_hard recording why c r
step (cancels why) c r = let (c', r', _) = cancel recording why c r in (c', r')
step ticks c r = tick recording r.now c r
step arms c r = (c, record r { armed = true })
step (waits n) c r = (c, record r { now = r.now + n })

unfoldable pub run : List Call → Controller → Recorder → Controller × Recorder
run [] c r = (c, r)
run (x ∷ xs) c r = let (c', r') = step x c r in run xs c' r'

-- The contract: what a controller promises, with no flags and no trace. It waits, it has a panic
-- pending until a time, it has stood down after a dry run, or it has destroyed itself.
pub data Phase : Type 0 where
  waiting stood_down destroyed : Phase
  pending : (until : ℕ) → Phase

pub record Spec : Type 0 where
  pub phase : Phase
  pub armed : Bool
  pub now : ℕ

trigger : ℕ → Bool → ℕ → Phase
trigger grace armed now =
    if armed then (if ltb 0 grace then pending (now + grace) else destroyed) else stood_down

-- A graceful trigger while one is pending starts the window anew.
on_graceful : ℕ → Spec → Phase → Phase
on_graceful grace s waiting = trigger grace s.armed s.now
on_graceful grace s (pending _) = trigger grace s.armed s.now
on_graceful grace s done = done

on_hard : Spec → Phase → Phase
on_hard s waiting = trigger 0 s.armed s.now
on_hard s (pending _) = trigger 0 s.armed s.now
on_hard s done = done

on_cancel : Phase → Phase
on_cancel (pending _) = waiting
on_cancel waiting = waiting
on_cancel stood_down = stood_down
on_cancel destroyed = destroyed

on_tick : ℕ → Phase → Phase
on_tick now (pending until) = if leb until now then destroyed else pending until
on_tick now waiting = waiting
on_tick now stood_down = stood_down
on_tick now destroyed = destroyed

unfoldable pub spec_step : ℕ → Call → Spec → Spec
unfolding on_graceful on_hard on_cancel on_tick trigger
spec_step grace (graceful _) s = record s { phase = on_graceful grace s s.phase }
spec_step grace (hard _) s = record s { phase = on_hard s s.phase }
spec_step grace (cancels _) s = record s { phase = on_cancel s.phase }
spec_step grace ticks s = record s { phase = on_tick s.now s.phase }
spec_step grace arms s = record s { armed = true }
spec_step grace (waits n) s = record s { now = s.now + n }

unfoldable pub spec_run : ℕ → List Call → Spec → Spec
spec_run grace [] s = s
spec_run grace (x ∷ xs) s = spec_run grace xs (spec_step grace x s)

-- What each phase means of the controller and of all that was ever done.
abbrev pub Means : Bool → Controller → List Act → Phase → Type 0
Means armed c t waiting = (c.fired ≡ false) × (c.deadline ≡ none) × (t ≡ [])
Means armed c t (pending until) =
    (c.fired ≡ false) × (c.deadline ≡ some until) × (t ≡ []) × (armed ≡ true)
Means armed c t stood_down =
    (c.fired ≡ true) × (c.deadline ≡ none) × (t ≡ wipes ∷ finishes_dry ∷ [])
Means armed c t destroyed =
    (c.fired ≡ true)
    × (c.deadline ≡ none)
    × (armed ≡ true)
    × (t ≡ kills_registered ∷ wipes ∷ kills ∷ [])

pub record Refines (c : Controller) (r : Recorder) (s : Spec) : Type 0 where
  pub arming : r.armed ≡ s.armed
  pub clocks : r.now ≡ s.now
  pub meaning : Means s.armed c r.trace s.phase

step-Refines-at :
    (p : Phase) (x : Call) (c : Controller) (r : Recorder) (s : Spec)
    → s.phase ≡ p
    → r.armed ≡ s.armed
    → r.now ≡ s.now
    → Means s.armed c r.trace p
    → Refines (step x c r).0 (step x c r).1 (spec_step c.grace x s)
      × ((step x c r).0.grace ≡ c.grace)
unfolding step spec_step request_graceful request_hard cancel tick on_graceful on_hard on_cancel
    on_tick trigger
step-Refines-at waiting x c r s e a n m = ground arith
step-Refines-at p (graceful why) c r s e a n m = ground arith
step-Refines-at p (hard why) c r s e a n m = ground arith
step-Refines-at p (cancels why) c r s e a n m = ground arith
step-Refines-at p ticks c r s e a n m = ground arith
step-Refines-at p arms c r s e a n m = ground arith
step-Refines-at p (waits k) c r s e a n m = ground arith

-- One call of the controller does what the contract says.
pub step-Refines :
    (x : Call) {c : Controller} {r : Recorder} {s : Spec}
    → Refines c r s
    → Refines (step x c r).0 (step x c r).1 (spec_step c.grace x s)
      × ((step x c r).0.grace ≡ c.grace)
step-Refines x {c} {r} {s} f = step-Refines-at s.phase x c r s refl f.arming f.clocks f.meaning

run-Refines-at :
    (g : ℕ) (xs : List Call) {c : Controller} {r : Recorder} {s : Spec}
    → c.grace ≡ g
    → Refines c r s
    → Refines (run xs c r).0 (run xs c r).1 (spec_run g xs s)
unfolding run spec_run
run-Refines-at g [] e f = f
run-Refines-at g (x ∷ xs) {c} {r} {s} e f =
    let (f', e') = step-Refines x f in
    run-Refines-at g xs (e' ∙ e)
      (subst (λ k. Refines (step x c r).0 (step x c r).1 (spec_step k x s)) e f')

-- A process starts with nothing fired, nothing pending and nothing done.
abbrev pub fresh : Bool → ℕ → Recorder
fresh armed now = record { armed = armed; now = now; trace = [] }

abbrev pub spec_fresh : Bool → ℕ → Spec
spec_fresh armed now = record { phase = waiting; armed = armed; now = now }

pub new-Refines :
    (g : ℕ) (armed : Bool) (now : ℕ) → Refines (new g) (fresh armed now) (spec_fresh armed now)
unfolding new
new-Refines g armed now = record { arming = refl; clocks = refl; meaning = (refl, refl, refl) }

-- For every grace, every start and every sequence of triggers, cancels, ticks, arming and waiting,
-- the controller and all that it ever did are as the contract's phase says.
pub run-Refines :
    (g : ℕ) (armed : Bool) (now : ℕ) (xs : List Call)
    → Refines
        (run xs (new g) (fresh armed now)).0
        (run xs (new g) (fresh armed now)).1
        (spec_run g xs (spec_fresh armed now))
unfolding new
run-Refines g armed now xs = run-Refines-at g xs refl (new-Refines g armed now)
