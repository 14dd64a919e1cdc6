-- ===== src/Motokano/Counter/Threads.antt =====
-- `decrement` with one step for each access of an atomic variable, so that the steps of any number
-- of threads can come in any order.
use ningen_shikkaku.Base.{
  ℕ, zero, suc, ◌+◌, ◌-◌, Bool, true, false, not, List, [], ◌∷◌, ◌==◌, if◌then◌else◌, count_if,
}
use ningen_shikkaku.Motokano.Counter.{CallCounter, CounterMode, counts_calls, new, on_disconnect}

-- Where a call of `decrement` stands. `counted` says that its exchange has taken one off.
pub data Pc : Type 0 where
  entry : Pc
  loaded : (current : ℕ) → Pc
  swapping : Pc
  done : (counted result : Bool) → Pc

unfoldable pub step : Pc → CallCounter → CallCounter × Pc
step entry c =
    if not (counts_calls c.mode)
    then (c, done false false)
    else if c.remaining == 0
    then (c, done false false)
    else (c, loaded c.remaining)
step (loaded current) c =
    if c.remaining == current
    then (
      record c { remaining = current - 1 },
      (if current - 1 == 0 then swapping else done true false),
    )
    else (c, entry)
step swapping c = (record c { fired = true }, done true (not c.fired))
step (done b r) c = (c, done b r)

-- The counter, the calls made so far, and how often a disconnection was told to exit.
pub record System : Type 0 where
  pub counter : CallCounter
  pub threads : List Pc
  pub disconnects : ℕ

unfoldable pub advance : ℕ → List Pc → CallCounter → CallCounter × List Pc
unfolding step
advance i [] c = (c, [])
advance zero (p ∷ ps) c = let (c', p') = step p c in (c', p' ∷ ps)
advance (suc i) (p ∷ ps) c = let (c', ps') = advance i ps c in (c', p ∷ ps')

-- A new call, a step of the call at an index, or a disconnection.
pub data Move : Type 0 where
  call disconnect : Move
  proceed : ℕ → Move

unfoldable pub move : Move → System → System
move call s = record s { threads = entry ∷ s.threads }
move disconnect s =
    let (c, exit) = on_disconnect s.counter in
    record s { counter = c; disconnects = (if exit then 1 else 0) + s.disconnects }
move (proceed i) s =
    let (c, ts) = advance i s.threads s.counter in record s { counter = c; threads = ts }

unfoldable pub run : List Move → System → System
run [] s = s
run (m ∷ ms) s = run ms (move m s)

unfoldable pub start : CounterMode → System
start m = record { counter = new m; threads = []; disconnects = 0 }

abbrev pub says_exit : Pc → Bool
says_exit (done _ r) = r
says_exit _ = false

abbrev pub is_counted : Pc → Bool
is_counted swapping = true
is_counted (done b _) = b
is_counted _ = false

abbrev pub is_swapping : Pc → Bool
is_swapping swapping = true
is_swapping _ = false

-- How often anyone was told to exit.
abbrev pub exits : System → ℕ
exits s = s.disconnects + count_if says_exit s.threads

-- How many calls took one off the budget.
abbrev pub counted : System → ℕ
counted s = count_if is_counted s.threads
