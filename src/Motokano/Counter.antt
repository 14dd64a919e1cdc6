-- ===== src/Motokano/Counter.antt =====
-- `CallCounter` of rs/crates/motokano/src/counter.rs: sequentially, and as threads that interleave
-- at each atomic access.
pub mod Threads
pub mod Once
pub mod Exactly
use ningen_shikkaku.Base.{
  ℕ, zero, suc, ◌+◌, ◌-◌, Bool, true, false, not, List, [], ◌∷◌, ◌==◌, if◌then◌else◌,
}

pub data CounterMode : Type 0 where
  calls : ℕ → CounterMode
  session : CounterMode
  either : ℕ → CounterMode

pub record CallCounter : Type 0 where
  pub remaining : ℕ
  pub mode : CounterMode
  pub fired : Bool

abbrev pub budget : CounterMode → ℕ
budget (calls n) = n
budget (either n) = n
budget session = 0

unfoldable pub new : CounterMode → CallCounter
new m = record { remaining = budget m; mode = m; fired = false }

abbrev pub counts_calls : CounterMode → Bool
counts_calls (calls _) = true
counts_calls (either _) = true
counts_calls session = false

-- With no other thread at work the exchange succeeds at the first try.
unfoldable pub decrement : CallCounter → CallCounter × Bool
decrement c =
    if not (counts_calls c.mode)
    then (c, false)
    else if c.remaining == 0
    then (c, false)
    else if c.remaining - 1 == 0
    then (record c { remaining = c.remaining - 1; fired = true }, not c.fired)
    else (record c { remaining = c.remaining - 1 }, false)

disconnect_in : CounterMode → CallCounter → CallCounter × Bool
disconnect_in (calls _) c = (c, false)
disconnect_in _ c = (record c { fired = true }, not c.fired)

unfoldable pub on_disconnect : CallCounter → CallCounter × Bool
unfolding disconnect_in
on_disconnect c = disconnect_in c.mode c
