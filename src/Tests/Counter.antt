-- ===== src/Tests/Counter.antt =====
-- `CallCounter` of rs/crates/motokano/src/counter.rs at concrete inputs.
use ningen_shikkaku.Base.{◌+◌, ◌≤◌, ◌≡◌, refl, List, [], ◌∷◌, arith, count_if}
use ningen_shikkaku.Motokano.Counter.{new, on_disconnect, calls, either}
use ningen_shikkaku.Motokano.Counter.Threads.{
  Move, call, disconnect, proceed, move, advance, run, start, exits, counted, is_swapping,
}
use ningen_shikkaku.Motokano.Counter.Once.{fires_once}
use ningen_shikkaku.Motokano.Counter.Exactly.{fires_exactly}

-- Two calls that both read the counter before either writes it, and a disconnection.
abbrev race : List Move
race =
    call
    ∷ call
    ∷ proceed 0
    ∷ proceed 1
    ∷ proceed 1
    ∷ proceed 0
    ∷ disconnect
    ∷ proceed 0
    ∷ proceed 0
    ∷ proceed 0
    ∷ proceed 1
    ∷ []

race-exits : exits (run race (start (calls 2))) ≡ 1
unfolding run move on_disconnect advance start new
race-exits = refl

fires_once_example :
    let s = run race (start (either 2)) in
    (exits s ≤ 1) × (counted s ≤ 2) × (counted s + s.counter.remaining ≡ 2)
fires_once_example = fires_once (either 2) race

spent : (run race (start (calls 2))).counter.remaining ≡ 0
unfolding run move on_disconnect advance start new
spent = refl

settled : count_if is_swapping (run race (start (calls 2))).threads ≡ 0
unfolding run move on_disconnect advance start new
settled = refl

fires_exactly_example : exits (run race (start (calls 2))) ≡ 1
fires_exactly_example = fires_exactly 2 race (ground arith) spent settled
