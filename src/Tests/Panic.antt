-- ===== src/Tests/Panic.antt =====
-- `PanicController` of rs/crates/kikka/src/panic.rs at concrete inputs.
use ningen_shikkaku.Base.{◌<◌, ◌+◌, ◌≡◌, refl, [], ◌∷◌, true, false, arith, List}
use ningen_shikkaku.Kikka.Panic.{new, request_hard, request_graceful, cancel, tick}
use ningen_shikkaku.Kikka.Panic.Policy.{
  Call, graceful, hard, cancels, ticks, arms, waits, run, step, fresh, spec_run, spec_fresh,
  Refines, run-Refines, kills_registered, wipes, kills,
}

-- Armed while it runs, triggered, rescued, triggered again and left alone.
abbrev busy_day : List Call
busy_day =
    arms
    ∷ graceful "loss"
    ∷ waits 3
    ∷ cancels "back"
    ∷ ticks
    ∷ graceful "loss"
    ∷ waits 5
    ∷ ticks
    ∷ hard "late"
    ∷ []

busy_day_trace :
    (run busy_day (new 5) (fresh false 100)).1.trace ≡ kills_registered ∷ wipes ∷ kills ∷ []
unfolding run step request_hard tick request_graceful cancel new
busy_day_trace = refl

run-Refines_example :
    Refines
      (run busy_day (new 5) (fresh false 100)).0
      (run busy_day (new 5) (fresh false 100)).1
      (spec_run 5 busy_day (spec_fresh false 100))
run-Refines_example = run-Refines 5 false 100 busy_day

early : (run (graceful "loss" ∷ waits 4 ∷ ticks ∷ []) (new 5) (fresh true 7)).1.now < 7 + 5
unfolding run step request_hard tick request_graceful cancel new
early = ground arith
