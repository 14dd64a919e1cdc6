-- ===== src/Sienna.antt =====
-- `ChildProcess` of rs/crates/sienna/src/lib.rs. What the system answers is an input; what a call
-- does to the child process is listed.
use ningen_shikkaku.Base.{ℕ, Bool, true, false, List, [], ◌∷◌, Option, none, some}

-- The child is known by its pid.
pub record ChildProcess : Type 0 where
  pub child : Option ℕ

pub data Deed : Type 0 where
  spawned killed reaped : (pid : ℕ) → Deed

-- `started` is the pid that the system gives, or nothing where the spawn fails.
unfoldable pub spawn : (started : Option ℕ) → Option (ChildProcess × List Deed)
spawn none = none
spawn (some pid) = some (record { child = some pid }, spawned pid ∷ [])

unfoldable pub no_child : ChildProcess
no_child = record { child = none }

unfoldable pub pid : ChildProcess → Option ℕ
pid c = c.child

-- `try_wait` gives `Ok(None)` for a child that runs.
pub data TryWait : Type 0 where
  running exited failed : TryWait

unfoldable pub is_running : TryWait → ChildProcess → Bool
is_running answer c = elim c.child [
  | none ↦ false
  | some _ ↦ elim answer [ running ↦ true | _ ↦ false ]
]

deeds_of : Option ℕ → List Deed
deeds_of none = []
deeds_of (some pid) = killed pid ∷ reaped pid ∷ []

-- `kill`, and so `drop`: SIGKILL and a wait for the child, if there is one.
unfoldable pub kill : ChildProcess → ChildProcess × List Deed
unfolding deeds_of
kill c = (record { child = none }, deeds_of c.child)
