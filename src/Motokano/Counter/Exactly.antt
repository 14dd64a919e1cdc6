-- ===== src/Motokano/Counter/Exactly.antt =====
-- The mode of `CallCounter` that only counts calls (rs/crates/motokano/src/counter.rs).
use ningen_shikkaku.Base.{
  ℕ, ◌+◌, ◌-◌, ◌≤◌, ◌<◌, ◌≡◌, refl, false, List, [], ◌∷◌, ◌==◌, if◌then◌else◌, arith, count_if, inl,
  inr, subst,
}
use ningen_shikkaku.Motokano.Counter.{CallCounter, calls, new, on_disconnect}
use ningen_shikkaku.Motokano.Counter.Threads.{
  Pc, entry, loaded, swapping, done, step, System, Move, call, disconnect, proceed, move, run,
  start, says_exit, is_swapping, exits,
}
use ningen_shikkaku.Motokano.Counter.Once.{
  Inv, advance-Advanced, weight, IsSound, flag, start-Inv, move-Inv,
}

-- The call that took the last one off is about to swap the flag or has said exit; there is none
-- while some of the budget is left.
abbrev Tally : CallCounter → ℕ → Type 0
Tally c x = x ≡ (if c.remaining == 0 then 1 else 0)

record Exact (s : System) : Type 0 where
  quiet : s.disconnects ≡ 0
  tally : Tally s.counter (count_if is_swapping s.threads + count_if says_exit s.threads)

step-Tally :
    (n : ℕ) (p : Pc) (c : CallCounter) (x y : ℕ)
    → c.mode ≡ calls n
    → IsSound p
    → weight is_swapping p ≤ x
    → y ≡ flag c
    → Tally c (x + y)
    → let r = step p c in
      Tally (r.0) (
        x
        + y
        + weight is_swapping (r.1)
        + weight says_exit (r.1)
        - weight is_swapping p
        - weight says_exit p)
unfolding step
step-Tally n entry c x y m s h e t = ground arith
step-Tally n (loaded k) c x y m s h e t = ground arith
step-Tally n swapping c x y m s h e t = ground arith
step-Tally n (done b r) c x y m s h e t = ground arith

proceed-Exact : (n i : ℕ) (s : System) → Inv (calls n) s → Exact s → Exact (move (proceed i) s)
unfolding move
proceed-Exact n i s v x = elim (advance-Advanced i s.threads s.counter v.sound) [
  | inl (e, f) ↦ record { quiet = x.quiet; tally = rw (e, f) x.tally }
  | inr a ↦ record {
    quiet = x.quiet;
    tally =
        let t =
          step-Tally n a.at s.counter (count_if is_swapping s.threads)
            (count_if says_exit s.threads) v.mode_is a.sound (a.present is_swapping)
            (omega (arith, v.fires, x.quiet)) x.tally in
        let a1 = a.counts is_swapping in
        let a2 = a.counts says_exit in
        let a3 = a.present says_exit in
        let a4 = a.present is_swapping in
        rw a.moves (subst (Tally (step a.at s.counter).0) (omega arith) t);
  }
]

start-Exact : (n : ℕ) → 0 < n → Exact (start (calls n))
unfolding start new
start-Exact n h = record { quiet = refl; tally = ground (arith, h) }

pub disconnect-calls : (n : ℕ) (c : CallCounter) → c.mode ≡ calls n → on_disconnect c ≡ (c, false)
unfolding on_disconnect
disconnect-calls n c h = rw h refl

move-Exact : (n : ℕ) (m : Move) (s : System) → Inv (calls n) s → Exact s → Exact (move m s)
unfolding move
move-Exact n call s v x = record { quiet = x.quiet; tally = omega (arith, x.tally) }
move-Exact n disconnect s v x =
    let e = disconnect-calls n s.counter v.mode_is in
    record { quiet = rw e (omega (arith, x.quiet)); tally = rw e x.tally }
move-Exact n (proceed i) s v x = proceed-Exact n i s v x

run-Exact : (n : ℕ) (ms : List Move) (s : System) → Inv (calls n) s → Exact s → Exact (run ms s)
unfolding run
run-Exact n [] s v x = x
run-Exact n (m ∷ ms) s v x =
    run-Exact n ms (move m s) (move-Inv (calls n) m s v) (move-Exact n m s v x)

-- With a budget of calls above zero, and once the budget is spent and no call is between taking
-- the last one off and swapping the flag, exactly one call has been told to exit, however the
-- calls and the disconnections interleaved.
pub fires_exactly :
    (n : ℕ) (ms : List Move)
    → 0 < n
    → (run ms (start (calls n))).counter.remaining ≡ 0
    → count_if is_swapping (run ms (start (calls n))).threads ≡ 0
    → exits (run ms (start (calls n))) ≡ 1
fires_exactly n ms h r q =
    let x = run-Exact n ms (start (calls n)) (start-Inv (calls n)) (start-Exact n h) in
    ground (arith, x.quiet, x.tally)
