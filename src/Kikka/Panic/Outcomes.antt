-- ===== src/Kikka/Panic/Outcomes.antt =====
-- What a controller can ever have done, read off the refinement of its contract.
use ningen_shikkaku.Base.{ℕ, ◌≡◌, refl, ◌⊎◌, inl, inr, Bool, true, false, List, [], ◌∷◌, ◌∙◌}
use ningen_shikkaku.Kikka.Panic.{Controller, new}
use ningen_shikkaku.Kikka.Panic.Policy.{
  Act, kills_registered, wipes, kills, finishes_dry, Call, arms, Phase, waiting, pending,
  stood_down, destroyed, Spec, spec_step, spec_run, Means, Refines, run, fresh, spec_fresh,
  run-Refines,
}

-- All that a controller can ever have done.
pub data Outcome (armed fired : Bool) (t : List Act) : Type 0 where
  nothing : fired ≡ false → t ≡ [] → Outcome armed fired t
  dry : fired ≡ true → t ≡ wipes ∷ finishes_dry ∷ [] → Outcome armed fired t
  full :
      fired ≡ true
      → armed ≡ true
      → t ≡ kills_registered ∷ wipes ∷ kills ∷ []
      → Outcome armed fired t

Means-Outcome :
    (p : Phase) {armed : Bool} (c : Controller) {t : List Act}
    → Means armed c t p
    → Outcome armed c.fired t
Means-Outcome waiting c (f, _, t) = nothing f t
Means-Outcome (pending _) c (f, _, t, _) = nothing f t
Means-Outcome stood_down c (f, _, t) = dry f t
Means-Outcome destroyed c (f, _, a, t) = full f a t

-- After any sequence of calls the controller has done nothing, or one wipe and the dry-run end,
-- or, only when armed, one kill of the registered processes, one wipe and one self-kill, in this
-- order; its one-shot flag is set exactly in the last two cases.
pub run-Outcome :
    (g : ℕ) (armed : Bool) (now : ℕ) (xs : List Call)
    → let s = run xs (new g) (fresh armed now) in Outcome (s.1).armed (s.0).fired (s.1).trace
run-Outcome g armed now xs =
    let f = run-Refines g armed now xs in
    let s = spec_run g xs (spec_fresh armed now) in
    rw f.arming (Means-Outcome s.phase (run xs (new g) (fresh armed now)).0 f.meaning)

-- The environment never arms it.
abbrev pub NeverArms : List Call → Type 0
NeverArms [] = Unit
NeverArms (arms ∷ xs) = ⊥
NeverArms (_ ∷ xs) = NeverArms xs

spec_step-armed :
    (g : ℕ) (x : Call) (s : Spec) (xs : List Call)
    → NeverArms (x ∷ xs)
    → ((spec_step g x s).armed ≡ s.armed) × NeverArms xs
unfolding spec_step
spec_step-armed g arms s xs n = absurd n
spec_step-armed g _ s xs n = (refl, n)

spec_run-armed :
    (g : ℕ) (xs : List Call) (s : Spec) → NeverArms xs → (spec_run g xs s).armed ≡ s.armed
unfolding spec_run
spec_run-armed g [] s n = refl
spec_run-armed g (x ∷ xs) s n =
    let (e, n') = spec_step-armed g x s xs n in spec_run-armed g xs (spec_step g x s) n' ∙ e

-- A controller that starts in dry-run mode and is never armed kills nothing.
pub run_dry :
    (g now : ℕ) (xs : List Call)
    → NeverArms xs
    → let t = (run xs (new g) (fresh false now)).1.trace in
      (t ≡ []) ⊎ (t ≡ wipes ∷ finishes_dry ∷ [])
run_dry g now xs n =
    go (run-Outcome g false now xs) (f.arming ∙ spec_run-armed g xs (spec_fresh false now) n)
  where
    f :
        Refines
          (run xs (new g) (fresh false now)).0
          (run xs (new g) (fresh false now)).1
          (spec_run g xs (spec_fresh false now))
    f = run-Refines g false now xs

    go :
        {armed fired : Bool} {t : List Act}
        → Outcome armed fired t
        → armed ≡ false
        → (t ≡ []) ⊎ (t ≡ wipes ∷ finishes_dry ∷ [])
    go (nothing _ t) a = inl t
    go (dry _ t) a = inr t
    go (full _ b t) a = cc
