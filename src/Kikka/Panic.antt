-- ===== src/Kikka/Panic.antt =====
-- `PanicController` of rs/crates/kikka/src/panic.rs.
-- The collaborators that the source injects as closures are functions on a world `W`, which holds
-- whatever they share; the shared `armed` flag is read from it. An operation takes the world and
-- returns it. An `Instant` is a number of ticks, and the clock reads it from the world.
pub mod Policy
pub mod Outcomes
pub mod Window
use ningen_shikkaku.Base.{ℕ, ◌+◌, Bool, true, false, Option, none, some, ltb, leb, if◌then◌else◌}
use Prim.Native.String.{String}

-- The messages of `log`: the format of each and its arguments.
pub data Message : Type 0 where
  dry_run : (hard : Bool) (reason : String) → Message
  armed_trigger : (reason : String) (grace : ℕ) → Message
  cancelled : (reason : String) → Message
  panicking : (reason : String) → Message

pub record Collaborators (W : Type 0) : Type 0 where
  pub armed : W → Bool
  pub kill_registered : W → W
  pub wipe : W → W
  pub kill : W → W
  pub dry_done : W → W
  pub clock : W → ℕ
  pub log : Message → W → W

pub record Controller : Type 0 where
  pub grace : ℕ
  pub fired : Bool
  pub deadline : Option ℕ

unfoldable pub new : ℕ → Controller
new grace = record { grace = grace; fired = false; deadline = none }

module _ {W : Type 0} (k : Collaborators W) where
  unfoldable pub dry_wipe : String → Bool → Controller → W → Controller × W
  dry_wipe reason hard c w =
      let w1 = k.wipe (k.log (dry_run hard reason) w) in (record c { fired = true }, k.dry_done w1)

  unfoldable pub execute : String → Controller → W → Controller × W
  execute reason c w = if c.fired then (c, w) else (
    record c { fired = true; deadline = none },
    k.kill (k.wipe (k.kill_registered (k.log (panicking reason) w))),
  )

  unfoldable pub request_graceful : String → Controller → W → Controller × W
  unfolding dry_wipe execute
  request_graceful reason c w =
      if c.fired
      then (c, w)
      else if k.armed w
      then (if ltb 0 c.grace
          then (
            record c { deadline = some (k.clock w + c.grace) },
            k.log (armed_trigger reason c.grace) w,
          )
          else execute reason c w)
      else dry_wipe reason false c w

  unfoldable pub request_hard : String → Controller → W → Controller × W
  unfolding dry_wipe execute
  request_hard reason c w =
      if c.fired then (c, w) else if k.armed w then execute reason c w else dry_wipe reason true c w

  -- The flag says whether a panic was pending.
  unfoldable pub cancel : String → Controller → W → Controller × W × Bool
  cancel reason c w = elim c.deadline [
    | none ↦ (c, w, false)
    | some _ ↦ (record c { deadline = none }, k.log (cancelled reason) w, true)
  ]

  unfoldable pub tick : ℕ → Controller → W → Controller × W
  unfolding execute
  tick now c w = elim c.deadline [
    | none ↦ (c, w)
    | some d ↦ if leb d now then execute "grace window expired" c w else (c, w)
  ]
