-- ===== src/Motokano/Counter/Once.antt =====
-- The one-shot flag and the budget of `CallCounter` (rs/crates/motokano/src/counter.rs).
use ningen_shikkaku.Base.{
  ℕ, zero, suc, ◌+◌, ◌≤◌, ◌<◌, ◌≡◌, refl, ap, ◌∙◌, Bool, false, List, [], ◌∷◌, if◌then◌else◌, arith,
  count_if, All, ◌⊎◌, inl, inr,
}
use ningen_shikkaku.Motokano.Counter.{CallCounter, CounterMode, budget, new, on_disconnect}
use ningen_shikkaku.Motokano.Counter.Threads.{
  Pc, entry, loaded, swapping, done, step, System, advance, Move, call, disconnect, proceed, move,
  run, start, says_exit, is_counted, exits, counted,
}

abbrev pub weight : (Pc → Bool) → Pc → ℕ
weight f p = if f p then 1 else 0

-- What a thread knows: the value it has loaded is not zero, and only a counted call says exit.
abbrev pub IsSound : Pc → Type 0
IsSound (loaded n) = 0 < n
IsSound (done false r) = r ≡ false
IsSound _ = Unit

-- One step of one thread, seen from the counts over all threads.
pub record Advanced (c : CallCounter) (ts : List Pc) (c' : CallCounter) (ts' : List Pc)
    : Type 0 where
  pub at : Pc
  pub moves : c' ≡ (step at c).0
  pub sound : IsSound at
  pub counts :
      (f : Pc → Bool) → count_if f ts' + weight f at ≡ count_if f ts + weight f (step at c).1
  pub present : (f : Pc → Bool) → weight f at ≤ count_if f ts

pub advance-Advanced :
    (i : ℕ) (ts : List Pc) (c : CallCounter)
    → All IsSound ts
    → let r = advance i ts c in ((r.0 ≡ c) × (r.1 ≡ ts)) ⊎ Advanced c ts (r.0) (r.1)
unfolding advance
advance-Advanced i [] c s = inl (refl, refl)
advance-Advanced zero (p ∷ ts) c s = inr (record {
  at = p;
  moves = refl;
  sound = s.0;
  counts = λ f. omega arith;
  present = λ f. omega arith;
})
advance-Advanced (suc i) (p ∷ ts) c s = elim (advance-Advanced i ts c s.1) [
  | inl (e, f) ↦ inl (e, ap (◌∷◌ p) f)
  | inr a ↦ inr (record {
    at = a.at;
    moves = a.moves;
    sound = a.sound;
    counts = λ f. omega (arith, a.counts f);
    present = λ f. omega (arith, a.present f);
  })
]

step-IsSound : (p : Pc) (c : CallCounter) → IsSound p → IsSound (step p c).1
unfolding step
step-IsSound entry c s = ground arith
step-IsSound p c s = ground arith

advance-IsSound :
    (i : ℕ) (ts : List Pc) (c : CallCounter) → All IsSound ts → All IsSound (advance i ts c).1
unfolding advance
advance-IsSound i [] c s = tt
advance-IsSound zero (p ∷ ts) c s = (step-IsSound p c s.0, s.1)
advance-IsSound (suc i) (p ∷ ts) c s = (s.0, advance-IsSound i ts c s.1)

-- The flag is set exactly when someone was told to exit, once; each call that counts has taken one
-- off the budget.
pub record Inv (m : CounterMode) (s : System) : Type 0 where
  pub mode_is : s.counter.mode ≡ m
  pub sound : All IsSound s.threads
  pub fires : exits s ≡ (if s.counter.fired then 1 else 0)
  pub spends : counted s + s.counter.remaining ≡ budget m

pub start-Inv : (m : CounterMode) → Inv m (start m)
unfolding start new
start-Inv m = record { mode_is = refl; sound = tt; fires = refl; spends = omega arith }

disconnect-Inv : (m : CounterMode) (s : System) → Inv m s → Inv m (move disconnect s)
unfolding move on_disconnect
disconnect-Inv m s v = ground arith

abbrev pub flag : CallCounter → ℕ
flag c = if c.fired then 1 else 0

-- What one step of one thread adds to the exits and to the spent budget.
step_balance :
    (p : Pc) (c : CallCounter)
    → IsSound p
    → let r = step p c in
      ((r.0).mode ≡ c.mode)
      × (weight says_exit (r.1) + flag c ≡ weight says_exit p + flag (r.0))
      × (weight is_counted (r.1) + (r.0).remaining ≡ weight is_counted p + c.remaining)
unfolding step
step_balance entry c s = ground arith
step_balance (loaded n) c s = ground arith
step_balance swapping c s = ground arith
step_balance (done b r) c s = ground arith

proceed-Inv : (m : CounterMode) (i : ℕ) (s : System) → Inv m s → Inv m (move (proceed i) s)
unfolding move
proceed-Inv m i s v = elim (advance-Advanced i s.threads s.counter v.sound) [
  | inl (e, f) ↦ rw (e, f) v
  | inr a ↦
      let (mode', fires', spends') = step_balance a.at s.counter a.sound in
      record {
        mode_is = rw a.moves (mode' ∙ v.mode_is);
        sound = advance-IsSound i s.threads s.counter v.sound;
        fires = rw a.moves (omega (arith, a.counts says_exit, v.fires, fires'));
        spends = rw a.moves (omega (arith, a.counts is_counted, v.spends, spends'));
      }
]

pub move-Inv : (m : CounterMode) (x : Move) (s : System) → Inv m s → Inv m (move x s)
unfolding move
move-Inv m call s v = record {
  mode_is = v.mode_is;
  sound = (tt, v.sound);
  fires = omega (arith, v.fires);
  spends = omega (arith, v.spends);
}
move-Inv m disconnect s v = disconnect-Inv m s v
move-Inv m (proceed i) s v = proceed-Inv m i s v

pub run-Inv : (m : CounterMode) (xs : List Move) (s : System) → Inv m s → Inv m (run xs s)
unfolding run
run-Inv m [] s v = v
run-Inv m (x ∷ xs) s v = run-Inv m xs (move x s) (move-Inv m x s v)

-- However the calls and disconnections interleave, at most one of them is told to exit, and no
-- more calls are counted than the budget allows; the counter never goes below zero.
pub fires_once :
    (m : CounterMode) (xs : List Move)
    → let s = run xs (start m) in
      (exits s ≤ 1) × (counted s ≤ budget m) × (counted s + s.counter.remaining ≡ budget m)
fires_once m xs =
    let v = run-Inv m xs (start m) (start-Inv m) in
    (ground (arith, v.fires), omega (arith, v.spends), v.spends)
