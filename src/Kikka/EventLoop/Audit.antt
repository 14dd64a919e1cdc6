-- ===== src/Kikka/EventLoop/Audit.antt =====
-- An auditor of the trace of a daemon (rs/crates/kikka/src/lib.rs). It accepts an order in which
-- registered processes are signalled, then the buffers zeroized, and then the lethal closure
-- called, once, with nothing but a clean-up behind it.
use ningen_shikkaku.Base.{
  ℕ, ◌≡◌, refl, Bool, true, false, Option, none, some, List, [], ◌∷◌, ◌++◌, map, arith, count_if,
  All, length, ◌∙◌, ap,
}
use ningen_shikkaku.Goodnight.Buffer.{SecretBuffer, wipe, IsZero}
use ningen_shikkaku.Goodnight.Buffer.Laws.{wipe_lem}
use ningen_shikkaku.Goodnight.Process.{Kernel, sigkill_pid}
use ningen_shikkaku.Kiroku.{Lifecycle, KillTarget}
use ningen_shikkaku.Kikka.Daemon.{
  Effect, signalled, zeroized, recorded, lethal, Daemon, emit, kill_registered, wipe_buffers,
  wipe_all, kill_self, dry_done, count_u32,
}

pub data Stage : Type 0 where
  watching striking wiped dead : Stage

-- `none` is an audit that has failed.
abbrev pub audit_one : Option Stage → Effect → Option Stage
audit_one none _ = none
audit_one (some watching) (signalled _ _) = some striking
audit_one (some striking) (signalled _ _) = some striking
audit_one (some wiped) (signalled _ _) = none
audit_one (some dead) (signalled _ _) = none
audit_one (some dead) (zeroized _) = some dead
audit_one (some _) (zeroized _) = some wiped
audit_one (some wiped) lethal = some dead
audit_one (some _) lethal = none
audit_one (some s) (recorded _) = some s

abbrev pub audit : Option Stage → List Effect → Option Stage
audit o [] = o
audit o (e ∷ es) = audit (audit_one o e) es

pub audit-append :
    (es fs : List Effect) (o : Option Stage) → audit o (es ++ fs) ≡ audit (audit o es) fs
audit-append [] fs o = refl
audit-append (e ∷ es) fs o = audit-append es fs (audit_one o e)

audit-recorded : (o : Option Stage) (e : Lifecycle) → audit_one o (recorded e) ≡ o
audit-recorded none e = refl
audit-recorded (some watching) e = refl
audit-recorded (some _) e = refl

-- What the auditor says of all that a daemon did.
abbrev pub verdict : Daemon → Option Stage
verdict d = audit (some watching) d.trace

abbrev pub is_kill : Effect → Bool
is_kill (signalled _ _) = true
is_kill lethal = true
is_kill _ = false

-- No process was killed.
abbrev pub IsBloodless : Daemon → Type 0
IsBloodless d = count_if is_kill d.trace ≡ 0

abbrev pub IsWiped : Daemon → Type 0
IsWiped d = All (λ (b : SecretBuffer). IsZero b.memory) d.buffers

-- A record says nothing to the auditor.
pub verdict-emit : (e : Lifecycle) (d : Daemon) → verdict (emit e d) ≡ verdict d
unfolding emit
verdict-emit e d =
    ground
      (arith, audit-append d.trace (recorded e ∷ []) (some watching), audit-recorded (verdict d) e)

pub verdict-wipe_buffers :
    (d : Daemon) → verdict (wipe_buffers d) ≡ audit_one (verdict d) (zeroized (length d.buffers))
unfolding wipe_buffers
verdict-wipe_buffers d = audit-append d.trace (zeroized (length d.buffers) ∷ []) (some watching)

pub verdict-wipe_all :
    (d : Daemon) → verdict (wipe_all d) ≡ audit_one (verdict d) (zeroized (length d.buffers))
unfolding wipe_all
verdict-wipe_all d =
    verdict-emit (Lifecycle.wipe d.trigger (count_u32 (length d.buffers))) (wipe_buffers d)
    ∙ verdict-wipe_buffers d

pub verdict-kill_self : (d : Daemon) → verdict (kill_self d) ≡ audit_one (verdict d) lethal
unfolding kill_self
verdict-kill_self d =
    let e = Lifecycle.kill d.trigger KillTarget.self_process 1 true in
    audit-append (emit e d).trace (lethal ∷ []) (some watching)
    ∙ ap (λ o. audit_one o lethal) (verdict-emit e d)

pub verdict-dry_done : (d : Daemon) → verdict (dry_done d) ≡ verdict d
unfolding dry_done
verdict-dry_done d =
    let e =
      Lifecycle.kill d.trigger KillTarget.registered (count_u32 (length d.registered)) false in
    verdict-emit (Lifecycle.kill d.trigger KillTarget.self_process 1 false) (emit e d)
    ∙ verdict-emit e d

pub verdict-kill_registered :
    (k : Kernel) (d : Daemon)
    → verdict (kill_registered k d)
      ≡ audit (verdict d) (map (λ pid. signalled pid (sigkill_pid k pid)) d.registered)
unfolding kill_registered
verdict-kill_registered k d =
    let es = map (λ pid. signalled pid (sigkill_pid k pid)) d.registered in
    verdict-emit
      (Lifecycle.kill d.trigger KillTarget.registered (count_u32 (length d.registered)) true)
      (record d { trace = d.trace ++ es })
    ∙ audit-append d.trace es (some watching)

signals_strike :
    (k : Kernel) (ps : List ℕ)
    → audit (some striking) (map (λ pid. signalled pid (sigkill_pid k pid)) ps) ≡ some striking
signals_strike k [] = refl
signals_strike k (p ∷ ps) = signals_strike k ps

pub signals_then_wipe :
    (k : Kernel) (ps : List ℕ) (n : ℕ)
    → audit_one
        (audit (some watching) (map (λ pid. signalled pid (sigkill_pid k pid)) ps))
        (zeroized n)
      ≡ some wiped
signals_then_wipe k [] n = refl
signals_then_wipe k (p ∷ ps) n = rw (signals_strike k ps)

-- The whole self-destruct is in order: registered processes, buffers, then the process itself.
pub verdict_destroy :
    (k : Kernel) (d : Daemon)
    → verdict d ≡ some watching
    → verdict (kill_self (wipe_all (kill_registered k d))) ≡ some dead
verdict_destroy k d h = rw (
  verdict-kill_self,
  verdict-wipe_all,
  verdict-kill_registered,
  h,
  signals_then_wipe k d.registered (length (kill_registered k d).buffers),
)

pub map_wipe-IsZero :
    (bs : List SecretBuffer) → All (λ (b : SecretBuffer). IsZero b.memory) (map wipe bs)
map_wipe-IsZero [] = tt
map_wipe-IsZero (b ∷ bs) = ((wipe_lem b).0, map_wipe-IsZero bs)
