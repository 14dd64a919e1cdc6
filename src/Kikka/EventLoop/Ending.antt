-- ===== src/Kikka/EventLoop/Ending.antt =====
-- The end of the loop and `cleanup` (rs/crates/kikka/src/lib.rs).
use ningen_shikkaku.Base.{
  ℕ, ◌+◌, ◌≡◌, refl, ap, ◌∙◌, Bool, true, false, Option, none, some, length, if◌then◌else◌,
}
use ningen_shikkaku.Kiroku.{Lifecycle, Reason}
use ningen_shikkaku.Kikka.Panic.{Controller}
use ningen_shikkaku.Kikka.Daemon.{Daemon, emit, wipe_buffers, count_u32, zeroized}
use ningen_shikkaku.Kikka.EventLoop.Audit.{
  Stage, audit_one, verdict, verdict-wipe_buffers, IsWiped, map_wipe-IsZero,
}
use ningen_shikkaku.Kikka.EventLoop.Frames.{kills-wipe_buffers, Agrees, emit-Agrees}
use ningen_shikkaku.Kikka.EventLoop.Invariant.{
  Standing, calm, closed, stood_down, destroyed, IsSafe, Agrees-IsSafe,
}
use ningen_shikkaku.Kikka.EventLoop.{Watchdog, leave}

pub Agrees-trans : {a b c : Daemon} → Agrees a b → Agrees b c → Agrees a c
Agrees-trans x y = record {
  buffers = y.buffers ∙ x.buffers;
  stop = y.stop ∙ x.stop;
  verdicts = y.verdicts ∙ x.verdicts;
  counts = y.counts ∙ x.counts;
  armed = λ e. y.armed (x.armed e);
}

wipe-Standing :
    (r : Reason) {fired armed : Bool} {d : Daemon}
    → Standing fired armed none d
    → Standing fired armed (some r) (wipe_buffers d)
wipe-Standing r {d} s = go s
  where
    zero : IsWiped (wipe_buffers d)
    zero = unfold wipe_buffers in map_wipe-IsZero d.buffers

    next :
        {o : Option Stage}
        → verdict d ≡ o
        → verdict (wipe_buffers d) ≡ audit_one o (zeroized (length d.buffers))
    next e = verdict-wipe_buffers d ∙ ap (λ o. audit_one o (zeroized (length d.buffers))) e

    go :
        {fired armed : Bool}
        → Standing fired armed none d
        → Standing fired armed (some r) (wipe_buffers d)
    go (calm f _ v m) = closed r f refl (next v) (kills-wipe_buffers d ∙ m) zero
    go (closed _ _ e _ _ _) = cc
    go (stood_down f v m _) = stood_down f (next v) (kills-wipe_buffers d ∙ m) zero
    go (destroyed f a v _) = destroyed f a (next v) zero

wipe-IsSafe :
    (r : Reason) {c : Controller} {d : Daemon}
    → IsSafe c none d
    → IsSafe c (some r) (wipe_buffers d)
unfolding wipe_buffers
wipe-IsSafe r {d} s = record {
  pending = s.pending;
  standing = wipe-Standing r s.standing;
  bloodless = λ e. kills-wipe_buffers d ∙ s.bloodless e;
  stops = s.stops;
}

socket-Agrees : {d d' : Daemon} → Agrees d d' → Agrees d (record d' { socket = false })
socket-Agrees a = record {
  buffers = a.buffers;
  stop = a.stop;
  verdicts = a.verdicts;
  counts = a.counts;
  armed = a.armed;
}

pub trigger-Agrees : (r : Reason) (d : Daemon) → Agrees d (record d { trigger = r })
trigger-Agrees r d = record {
  buffers = refl;
  stop = refl;
  verdicts = refl;
  counts = refl;
  armed = λ e. e;
}

pub clock-Agrees : (n : ℕ) (d : Daemon) → Agrees d (record d { now = d.now + n })
clock-Agrees n d = record {
  buffers = refl;
  stop = refl;
  verdicts = refl;
  counts = refl;
  armed = λ e. e;
}

-- The records of the clean-up, and the socket's removal.
closing-Agrees :
    (fired : Bool) (e1 e2 : Lifecycle) (d : Daemon)
    → Agrees d (record (emit e2 (if fired then d else emit e1 d)) { socket = false })
closing-Agrees true e1 e2 d = socket-Agrees (emit-Agrees e2 d)
closing-Agrees false e1 e2 d =
    socket-Agrees (Agrees-trans (emit-Agrees e1 d) (emit-Agrees e2 (emit e1 d)))

-- The end of the loop keeps the safety.
pub leave-IsSafe :
    (r : Reason) (w : Watchdog)
    → IsSafe w.controller none w.daemon
    → IsSafe (leave r w).controller (leave r w).ended (leave r w).daemon
unfolding leave
leave-IsSafe r w s =
    Agrees-IsSafe
      (closing-Agrees w.controller.fired (Lifecycle.wipe r (count_u32 (length w.daemon.buffers)))
        (Lifecycle.session_end r) (wipe_buffers w.daemon))
      (wipe-IsSafe r s)
