-- ===== src/Kikka/EventLoop/Invariant.antt =====
-- The invariant of a daemon and its controller (rs/crates/kikka/src/lib.rs, src/panic.rs).
use ningen_shikkaku.Base.{
  ℕ, ◌≡◌, refl, sym, ap, ◌∙◌, Bool, true, false, Option, none, some, map, length,
}
use ningen_shikkaku.Goodnight.Buffer.{wipe}
use ningen_shikkaku.Goodnight.Process.{Kernel}
use ningen_shikkaku.Kiroku.{Reason}
use ningen_shikkaku.Kikka.Panic.{Controller}
use ningen_shikkaku.Kikka.Daemon.{Daemon, wipe_all, kill_self, kill_registered, dry_done, zeroized}
use ningen_shikkaku.Kikka.EventLoop.Audit.{
  watching, wiped, dead, audit_one, verdict, verdict-wipe_all, verdict-dry_done, verdict_destroy,
  IsWiped, map_wipe-IsZero,
}
use ningen_shikkaku.Kikka.EventLoop.Frames.{
  kills, Agrees, Dried, Destroyed, Dried_lem, Destroyed_lem,
}
use ningen_shikkaku.Kikka.EventLoop.Moves.{Pending, Moves, keeps, dries, destroys}

-- Where a daemon stands, with what its trace then looks like. Once anything has fired or ended,
-- every buffer is zero; until it has destroyed itself, nothing was signalled or killed.
pub data Standing (fired armed : Bool) (ended : Option Reason) (d : Daemon) : Type 0 where
  calm :
      fired ≡ false
      → ended ≡ none
      → verdict d ≡ some watching
      → kills d ≡ 0
      → Standing fired armed ended d
  closed :
      (r : Reason)
      → fired ≡ false
      → ended ≡ some r
      → verdict d ≡ some wiped
      → kills d ≡ 0
      → IsWiped d
      → Standing fired armed ended d
  stood_down :
      fired ≡ true → verdict d ≡ some wiped → kills d ≡ 0 → IsWiped d → Standing fired armed ended d
  destroyed :
      fired ≡ true → armed ≡ true → verdict d ≡ some dead → IsWiped d → Standing fired armed ended d

pub record IsSafe (c : Controller) (ended : Option Reason) (d : Daemon) : Type 0 where
  pub pending : Pending d.armed c.fired c.deadline
  pub standing : Standing c.fired d.armed ended d
  pub bloodless : d.armed ≡ false → kills d ≡ 0
  pub stops : d.stop ≡ true → c.fired ≡ true

-- A change that the audit does not see keeps the safety.
Standing-Agrees :
    {fired armed armed' : Bool} {ended : Option Reason} {d d' : Daemon}
    → (armed ≡ true → armed' ≡ true)
    → Agrees d d'
    → Standing fired armed ended d
    → Standing fired armed' ended d'
Standing-Agrees up a (calm f e v m) = calm f e (a.verdicts ∙ v) (a.counts ∙ m)
Standing-Agrees up a (closed r f e v m w) =
    closed r f e (a.verdicts ∙ v) (a.counts ∙ m) (rw a.buffers w)
Standing-Agrees up a (stood_down f v m w) =
    stood_down f (a.verdicts ∙ v) (a.counts ∙ m) (rw a.buffers w)
Standing-Agrees up a (destroyed f m v w) = destroyed f (up m) (a.verdicts ∙ v) (rw a.buffers w)

Pending-mono :
    {armed armed' : Bool} (fired : Bool) (o : Option ℕ)
    → (armed ≡ true → armed' ≡ true)
    → Pending armed fired o
    → Pending armed' fired o
Pending-mono fired none up p = p
Pending-mono fired (some _) up (a, f) = (up a, f)

pub Agrees-IsSafe :
    {c : Controller} {ended : Option Reason} {d d' : Daemon}
    → Agrees d d'
    → IsSafe c ended d
    → IsSafe c ended d'
Agrees-IsSafe {c} {d} {d'} a s = record {
  pending = Pending-mono c.fired c.deadline a.armed s.pending;
  standing = Standing-Agrees a.armed a s.standing;
  bloodless = λ e. a.counts ∙ s.bloodless (disarmed d.armed d'.armed a.armed e);
  stops = λ e. s.stops (sym a.stop ∙ e);
}
  where
    disarmed : (x y : Bool) → (x ≡ true → y ≡ true) → y ≡ false → x ≡ false
    disarmed true y up e = cc (up refl)
    disarmed false y up e = refl

pub IsWiped-of : (d d' : Daemon) → d'.buffers ≡ map wipe d.buffers → IsWiped d'
IsWiped-of d d' e = rw e (map_wipe-IsZero d.buffers)

pub unfired-calm :
    {fired armed : Bool} {d : Daemon}
    → fired ≡ false
    → Standing fired armed none d
    → verdict d ≡ some watching
unfired-calm f (calm _ _ v _) = v
unfired-calm f (closed r _ e _ _ _) = cc
unfired-calm f (stood_down g _ _ _) = cc
unfired-calm f (destroyed g _ _ _) = cc

dry-none :
    {armed : Bool} (fired : Bool) (o : Option ℕ) → Pending armed fired o → armed ≡ false → o ≡ none
dry-none fired none p e = refl
dry-none fired (some _) (a, _) e = cc

-- Every operation of the controller keeps the safety of a running daemon.
pub Moves-IsSafe :
    (k : Kernel) {c c' : Controller} {d d' : Daemon}
    → Moves k c d c' d'
    → IsSafe c none d
    → IsSafe c' none d'
Moves-IsSafe k {c} {c'} {d} {d'} (keeps f p e) s = rw e (record {
  pending = rw f p;
  standing = rw f s.standing;
  bloodless = s.bloodless;
  stops = λ t. f ∙ s.stops t;
})
Moves-IsSafe k {c} {c'} {d} {d'} (dries f a f' t e) s = record {
  pending = rw (t, dry-none c.fired c.deadline s.pending a) tt;
  standing =
      stood_down f'
        (rw e (
          verdict-dry_done (wipe_all d)
          ∙ verdict-wipe_all d
          ∙ ap (λ o. audit_one o (zeroized (length d.buffers))) (unfired-calm f s.standing)))
        (rw e (frame.counts ∙ s.bloodless a)) (IsWiped-of d d' (rw e frame.buffers));
  bloodless = λ _. rw e (frame.counts ∙ s.bloodless a);
  stops = λ _. f';
}
  where
    frame : Dried d (dry_done (wipe_all d))
    frame = Dried_lem d
Moves-IsSafe k {c} {c'} {d} {d'} (destroys f a f' t e) s = record {
  pending = rw t tt;
  standing =
      destroyed f' armed (rw e (verdict_destroy k d (unfired-calm f s.standing)))
        (IsWiped-of d d' (rw e frame.buffers));
  bloodless = λ h. cc (armed, h);
  stops = λ _. f';
}
  where
    frame : Destroyed d (kill_self (wipe_all (kill_registered k d)))
    frame = Destroyed_lem k d

    armed : d'.armed ≡ true
    armed = rw e (frame.armed ∙ a)
