-- ===== src/Kikka/EventLoop/Moves.antt =====
-- What an operation of the controller does to the daemon: nothing, a dry run, or everything.
use Prim.Native.String.{String}
use ningen_shikkaku.Base.{
  ℕ, ◌≡◌, inl, inr, Bool, true, false, Option, none, some, arith, leb, ltb, Bool-cases,
  Option-cases,
}
use ningen_shikkaku.Goodnight.Process.{Kernel}
use ningen_shikkaku.Kikka.Panic.{Controller, request_graceful, request_hard, cancel, tick}
use ningen_shikkaku.Kikka.Daemon.{
  Daemon, collaborators, kill_registered, wipe_all, kill_self, dry_done,
}

-- A panic is only pending on an armed daemon that has not fired.
abbrev pub Pending : Bool → Bool → Option ℕ → Type 0
Pending armed fired none = Unit
Pending armed fired (some _) = (armed ≡ true) × (fired ≡ false)

pub data Moves (k : Kernel) (c : Controller) (d : Daemon) (c' : Controller) (d' : Daemon)
    : Type 0 where
  keeps : c'.fired ≡ c.fired → Pending d.armed c.fired c'.deadline → d' ≡ d → Moves k c d c' d'
  dries :
      c.fired ≡ false
      → d.armed ≡ false
      → c'.fired ≡ true
      → c'.deadline ≡ c.deadline
      → d' ≡ dry_done (wipe_all d)
      → Moves k c d c' d'
  destroys :
      c.fired ≡ false
      → d.armed ≡ true
      → c'.fired ≡ true
      → c'.deadline ≡ none
      → d' ≡ kill_self (wipe_all (kill_registered k d))
      → Moves k c d c' d'

module _ (k : Kernel) (c : Controller) (d : Daemon) (p : Pending d.armed c.fired c.deadline) where
  pub graceful-Moves :
      (why : String) → let r = request_graceful (collaborators k) why c d in Moves k c d (r.0) (r.1)
  unfolding request_graceful
  graceful-Moves why = elim (Bool-cases c.fired) [
    | inl f ↦ keeps (ground arith) (ground arith) (ground arith)
    | inr f ↦ elim (Bool-cases d.armed) [
      | inl a ↦ elim (Bool-cases (ltb 0 c.grace)) [
        | inl g ↦ keeps (ground arith) (ground arith) (ground arith)
        | inr g ↦ destroys f a (ground arith) (ground arith) (ground arith)
      ]
      | inr a ↦ dries f a (ground arith) (ground arith) (ground arith)
    ]
  ]

  pub hard-Moves :
      (why : String) → let r = request_hard (collaborators k) why c d in Moves k c d (r.0) (r.1)
  unfolding request_hard
  hard-Moves why = elim (Bool-cases c.fired) [
    | inl f ↦ keeps (ground arith) (ground arith) (ground arith)
    | inr f ↦ elim (Bool-cases d.armed) [
      | inl a ↦ destroys f a (ground arith) (ground arith) (ground arith)
      | inr a ↦ dries f a (ground arith) (ground arith) (ground arith)
    ]
  ]

  pub cancel-Moves :
      (why : String) → let r = cancel (collaborators k) why c d in Moves k c d (r.0) (r.1)
  unfolding cancel
  cancel-Moves why = keeps (ground arith) (ground arith) (ground arith)

  pub tick-Moves : (now : ℕ) → let r = tick (collaborators k) now c d in Moves k c d (r.0) (r.1)
  unfolding tick
  tick-Moves now = elim (Option-cases c.deadline) [
    | inl n ↦ keeps (ground arith) (ground arith) (ground arith)
    | inr (t, n) ↦ elim (Bool-cases (leb t now)) [
      | inl l ↦ destroys (ground arith) (ground arith) (ground arith) (ground arith) (ground arith)
      | inr l ↦ keeps (ground arith) (ground arith) (ground arith)
    ]
  ]
