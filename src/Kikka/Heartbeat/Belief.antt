-- ===== src/Kikka/Heartbeat/Belief.antt =====
-- What the loop of `run_with_listener` (rs/crates/kikka/src/lib.rs) comes to believe of its client by
-- the events of the heartbeat connections: the generation that is live, and whether one is.
pub mod Turn
pub mod Placing
pub mod Soundness
pub mod Client
use ningen_shikkaku.Base.{
  ℕ, ◌≡◌, refl, Bool, true, false, ◌&&◌, ◌==◌, List, [], ◌∷◌, ◌++◌, if◌then◌else◌,
}
use ningen_shikkaku.Kikka.EventLoop.{Event, connected, heartbeat_lost, ping_timeout, quits}

pub record Belief : Type 0 where
  pub current_gen : ℕ
  pub present : Bool

abbrev loses : ℕ → Belief → Belief
loses g v = if v.present && g == v.current_gen then record v { present = false } else v

abbrev pub believe : Belief → Event → Belief
believe v (connected g) = record { current_gen = g; present = true }
believe v (heartbeat_lost g) = loses g v
believe v (ping_timeout g) = loses g v
believe v _ = v

abbrev pub beliefs : Belief → List Event → Belief
beliefs v [] = v
beliefs v (e ∷ es) = beliefs (believe v e) es

abbrev pub at_first : Belief
at_first = record { current_gen = 0; present = false }

pub beliefs-append :
    (v : Belief) (es fs : List Event) → beliefs v (es ++ fs) ≡ beliefs (beliefs v es) fs
beliefs-append v [] fs = refl
beliefs-append v (e ∷ es) fs = beliefs-append (believe v e) es fs

-- A loss of the connection of a generation.
abbrev pub is_loss : ℕ → Event → Bool
is_loss g (heartbeat_lost h) = g == h
is_loss g (ping_timeout h) = g == h
is_loss g _ = false

abbrev pub is_quit : Event → Bool
is_quit quits = true
is_quit _ = false
