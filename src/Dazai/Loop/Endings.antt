-- ===== src/Dazai/Loop/Endings.antt =====
-- The lethal closure in the trace of a daemon (rs/crates/kikka/src/lib.rs), and its auditor.
use ningen_shikkaku.Base.{◌≡◌, inl, inr, true, false, List, [], ◌∷◌, Option, none, some, Bool-cases}
use ningen_shikkaku.Kikka.Daemon.{Effect, signalled, zeroized, recorded}
use ningen_shikkaku.Kikka.EventLoop.Audit.{Stage, watching, striking, wiped, dead, audit_one, audit}
use ningen_shikkaku.Dazai.Loop.{is_lethal, has_lethal}

-- An audit behind the lethal closure.
abbrev pub IsOver : Option Stage → Type 0
IsOver none = Unit
IsOver (some dead) = Unit
IsOver (some _) = ⊥

audit_one-IsOver : (o : Option Stage) (e : Effect) → IsOver o → IsOver (audit_one o e)
audit_one-IsOver none e over = tt
audit_one-IsOver (some watching) e over = elim over [ ]
audit_one-IsOver (some striking) e over = elim over [ ]
audit_one-IsOver (some wiped) e over = elim over [ ]
audit_one-IsOver (some dead) (signalled _ _) over = tt
audit_one-IsOver (some dead) (zeroized _) over = tt
audit_one-IsOver (some dead) Effect.lethal over = tt
audit_one-IsOver (some dead) (recorded _) over = tt

audit-IsOver : (es : List Effect) (o : Option Stage) → IsOver o → IsOver (audit o es)
audit-IsOver [] o over = over
audit-IsOver (e ∷ es) o over = audit-IsOver es (audit_one o e) (audit_one-IsOver o e over)

lethal-IsOver : (o : Option Stage) → IsOver (audit_one o Effect.lethal)
lethal-IsOver none = tt
lethal-IsOver (some watching) = tt
lethal-IsOver (some striking) = tt
lethal-IsOver (some wiped) = tt
lethal-IsOver (some dead) = tt

-- A lethal closure that was called ends the audit.
pub has_lethal-IsOver :
    (es : List Effect) (o : Option Stage) → has_lethal es ≡ true → IsOver (audit o es)
unfolding has_lethal is_lethal
has_lethal-IsOver [] o h = cc
has_lethal-IsOver (Effect.lethal ∷ es) o h =
    audit-IsOver es (audit_one o Effect.lethal) (lethal-IsOver o)
has_lethal-IsOver (signalled p r ∷ es) o h = has_lethal-IsOver es (audit_one o (signalled p r)) h
has_lethal-IsOver (zeroized n ∷ es) o h = has_lethal-IsOver es (audit_one o (zeroized n)) h
has_lethal-IsOver (recorded r ∷ es) o h = has_lethal-IsOver es (audit_one o (recorded r)) h

-- An audit that is not at its end.
abbrev pub IsAlive : Option Stage → Type 0
IsAlive (some dead) = ⊥
IsAlive _ = Unit

audit_one-IsAlive :
    (o : Option Stage) (e : Effect) → is_lethal e ≡ false → IsAlive o → IsAlive (audit_one o e)
unfolding is_lethal
audit_one-IsAlive none e h alive = tt
audit_one-IsAlive (some watching) (signalled _ _) h alive = tt
audit_one-IsAlive (some watching) (zeroized _) h alive = tt
audit_one-IsAlive (some watching) (recorded _) h alive = tt
audit_one-IsAlive (some striking) (signalled _ _) h alive = tt
audit_one-IsAlive (some striking) (zeroized _) h alive = tt
audit_one-IsAlive (some striking) (recorded _) h alive = tt
audit_one-IsAlive (some wiped) (signalled _ _) h alive = tt
audit_one-IsAlive (some wiped) (zeroized _) h alive = tt
audit_one-IsAlive (some wiped) (recorded _) h alive = tt
audit_one-IsAlive (some dead) e h alive = elim alive [ ]
audit_one-IsAlive (some _) Effect.lethal h alive = cc

-- Without the lethal closure the audit does not come to its end.
pub audit-IsAlive :
    (es : List Effect) (o : Option Stage) → has_lethal es ≡ false → IsAlive o → IsAlive (audit o es)
unfolding has_lethal
audit-IsAlive [] o h alive = alive
audit-IsAlive (e ∷ es) o h alive = elim (Bool-cases (is_lethal e)) [
  | inl l ↦ cc
  | inr l ↦ audit-IsAlive es (audit_one o e) (rw l at h) (audit_one-IsAlive o e l alive)
]
