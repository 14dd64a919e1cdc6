-- ===== src/Dazai/Monitor.antt =====
-- What `run_daemon` of rs/crates/dazai/src/main.rs promises about the order of its steps and about
-- what it leaves behind: a monitor that knows nothing of the code.
use ningen_shikkaku.Base.{
  ℕ, ◌+◌, ◌-◌, ◌≡◌, Bool, true, false, not, ◌&&◌, List, [], ◌∷◌, Option, none, some, ◌==◌, ltb,
  if◌then◌else◌,
}
use ningen_shikkaku.Sienna.{spawned, killed, reaped}
use ningen_shikkaku.Dazai.{
  Action, opened_sink, tried_memlock, tried_undumpable, mapped_buffer, freed_buffer, child, bound,
  created_pidfile, removed_pidfile, confined, looped, killed_self, Exit, Run,
}

pub data ChildState : Type 0 where
  absent : ChildState
  alive unreaped : (pid : ℕ) → ChildState

pub record Mode : Type 0 where
  pub tried_limit : Bool
  pub tried_dump : Bool
  pub held : ℕ
  pub runs : ChildState
  pub listens : Bool
  pub has_pidfile : Bool
  pub is_confined : Bool
  pub has_looped : Bool
  pub is_gone : Bool

abbrev pub at_start : Mode
at_start = record {
  tried_limit = false;
  tried_dump = false;
  held = 0;
  runs = absent;
  listens = false;
  has_pidfile = false;
  is_confined = false;
  has_looped = false;
  is_gone = false;
}

abbrev is_absent : ChildState → Bool
is_absent absent = true
is_absent _ = false

abbrev is_alive : ℕ → ChildState → Bool
is_alive pid (alive p) = p == pid
is_alive pid _ = false

abbrev is_unreaped : ℕ → ChildState → Bool
is_unreaped pid (unreaped p) = p == pid
is_unreaped pid _ = false

-- Whether the step may come now.
unfoldable pub may : Mode → Action → Bool
may m opened_sink = not m.is_confined && m.held == 0
may m (tried_memlock answer) = m.held == 0
may m (tried_undumpable done) = m.held == 0
may m (mapped_buffer locked) = m.tried_limit && m.tried_dump && not m.is_confined
may m freed_buffer = ltb 0 m.held && is_absent m.runs
may m (child (spawned pid)) = m.held == 2 && not m.is_confined && is_absent m.runs
may m (child (killed pid)) = is_alive pid m.runs
may m (child (reaped pid)) = is_unreaped pid m.runs
may m bound = m.held == 2 && not m.is_confined
may m created_pidfile = m.listens && not m.is_confined
may m (confined filter) = m.has_pidfile && m.listens && m.held == 2 && not m.is_confined
may m looped = m.is_confined && not m.has_looped
may m removed_pidfile = m.has_pidfile
may m killed_self = is_absent m.runs && not m.has_pidfile

unfoldable pub next : Mode → Action → Mode
next m opened_sink = m
next m (tried_memlock answer) = record m { tried_limit = true }
next m (tried_undumpable done) = record m { tried_dump = true }
next m (mapped_buffer locked) = record m { held = m.held + 1 }
next m freed_buffer = record m { held = m.held - 1 }
next m (child (spawned pid)) = record m { runs = alive pid }
next m (child (killed pid)) = record m { runs = unreaped pid }
next m (child (reaped pid)) = record m { runs = absent }
next m bound = record m { listens = true }
next m created_pidfile = record m { has_pidfile = true }
next m (confined filter) = record m { is_confined = true }
next m looped = record m { has_looped = true }
next m removed_pidfile = record m { has_pidfile = false }
next m killed_self = record m { is_gone = true }

unfoldable pub watch : Mode → List Action → Option Mode
watch m [] = some m
watch m (a ∷ actions) =
    let rest = watch (next m a) actions in if not m.is_gone && may m a then rest else none

-- What a way out leaves: no buffer, no child, and of the pidfile what `left` says.
abbrev pub Leaves : Mode → (left : Bool) → Type 0
Leaves m left = (m.held ≡ 0) × (m.runs ≡ absent) × (m.is_gone ≡ false) × (m.has_pidfile ≡ left)

abbrev pub Settled : Exit → Mode → Type 0
Settled Exit.clean m = Leaves m false × (m.has_looped ≡ true)
Settled Exit.sigkilled m =
    (m.is_gone ≡ true) × (m.has_looped ≡ true) × (m.runs ≡ absent) × (m.has_pidfile ≡ false)
Settled Exit.zero_size m = m ≡ at_start
Settled Exit.bad_grace m = m ≡ at_start
Settled Exit.bad_ping_timeout m = m ≡ at_start
Settled Exit.no_pidfile m = Leaves m m.has_pidfile × (m.is_confined ≡ false)
Settled Exit.no_seccomp m = Leaves m true × (m.is_confined ≡ false)
Settled Exit.loop_failed m = Leaves m true × (m.is_confined ≡ true)
Settled _ m = Leaves m false × (m.is_confined ≡ false)

-- The monitor takes every step, and ends as the exit asks.
abbrev pub Accepted : Exit → Option Mode → Type 0
Accepted e none = ⊥
Accepted e (some m) = Settled e m

abbrev pub IsOrderly : Mode → Run → Type 0
IsOrderly m r = Accepted r.0 (watch m r.1)
