-- ===== src/Dazai/Loop/Whole.antt =====
-- `run_daemon` (rs/crates/dazai/src/main.rs) around `run_with_listener`
-- (rs/crates/kikka/src/lib.rs): what the exit of the process tells of its buffers and its kills.
use ningen_shikkaku.Base.{
  ℕ, ◌≡◌, refl, inl, inr, Bool, true, false, List, some, length, Bool-cases, Option-cases, subst,
  ◌∙◌, arith,
}
use ningen_shikkaku.Goodnight.Process.{Kernel}
use ningen_shikkaku.Kiroku.{Reason}
use ningen_shikkaku.Kikka.Daemon.{Daemon}
use ningen_shikkaku.Kikka.EventLoop.{Watchdog, start, run}
use ningen_shikkaku.Kikka.EventLoop as EventLoop
use ningen_shikkaku.Kikka.EventLoop.Audit.{watching, wiped, dead, verdict, IsWiped}
use ningen_shikkaku.Kikka.EventLoop.Fate.{
  Ending, serving, shut_down, dry_run, killed, run-start-Fate,
}
use ningen_shikkaku.Kikka.EventLoop.Frames.{kills}
use ningen_shikkaku.Kikka.EventLoop.Struck.Run.{Struck}
use ningen_shikkaku.Kikka.EventLoop.Buffers.{run-start-count}
use ningen_shikkaku.Dazai.{
  Exit, clean, sigkilled, Made, buffers, none_made, LoopEnd, finished, failed, lethal, Host,
  DaemonArgs, make_buffers, run_daemon,
}
use ningen_shikkaku.Dazai.Loop.{secrets, has_lethal, loop_end, grace_of, serve_start, serve}
use ningen_shikkaku.Dazai.Loop.Endings.{IsOver, IsAlive, has_lethal-IsOver, audit-IsAlive}
use ningen_shikkaku.Dazai.Loop.Reaching.{IsMade, Reached, run_daemon-Reached}

-- What an exit promises of the daemon's state; `S` is said of one that has destroyed itself.
abbrev pub Promise : (S : Type 0) → Daemon → Exit → Type 0
Promise S d clean = (length d.buffers ≡ 2) × (IsWiped d × (verdict d ≡ some wiped) × (kills d ≡ 0))
Promise S d sigkilled =
    (length d.buffers ≡ 2) × (IsWiped d × (d.armed ≡ true) × (verdict d ≡ some dead) × S)
Promise S d _ = Unit

dead_end :
    {S : Type 0} (w : Watchdog)
    → Ending S w
    → IsOver (verdict w.daemon)
    → IsWiped w.daemon × (w.daemon.armed ≡ true) × (verdict w.daemon ≡ some dead) × S
dead_end w (serving _ _ v _) over = elim (rw v at over) [ ]
dead_end w (shut_down _ _ _ v _ _) over = elim (rw v at over) [ ]
dead_end w (dry_run _ v _ _) over = elim (rw v at over) [ ]
dead_end w (killed _ a v h z) over = (z, a, v, h)

clean_end :
    {S : Type 0} {r : Reason} (w : Watchdog)
    → Ending S w
    → w.ended ≡ some r
    → IsAlive (verdict w.daemon)
    → IsWiped w.daemon × (verdict w.daemon ≡ some wiped) × (kills w.daemon ≡ 0)
clean_end w (serving _ e _ _) n alive = cc
clean_end w (shut_down _ _ _ v m z) n alive = (z, v, m)
clean_end w (dry_run _ v m z) n alive = (z, v, m)
clean_end w (killed _ _ v _ _) n alive = elim (rw v at alive) [ ]

-- What the end of the loop tells of the daemon in it.
abbrev Left : (S : Type 0) → Daemon → LoopEnd → Type 0
Left S d finished = IsWiped d × (verdict d ≡ some wiped) × (kills d ≡ 0)
Left S d lethal = IsWiped d × (d.armed ≡ true) × (verdict d ≡ some dead) × S
Left S d failed = Unit

loop_end-Left :
    {S : Type 0} (installs : Bool) (w : Watchdog) (l : LoopEnd)
    → Ending S w
    → loop_end installs w ≡ some l
    → Left S w.daemon l
unfolding loop_end
loop_end-Left installs w failed s e = tt
loop_end-Left false w finished s e = cc
loop_end-Left false w lethal s e = cc
loop_end-Left true w lethal s e = elim (Bool-cases (has_lethal w.daemon.trace)) [
  | inl h ↦ dead_end w s (has_lethal-IsOver w.daemon.trace (some watching) h)
  | inr h ↦ elim (Option-cases w.ended) [ inl n ↦ ground arith | inr (r, n) ↦ ground arith ]
]
loop_end-Left true w finished s e = elim (Bool-cases (has_lethal w.daemon.trace)) [
  | inl h ↦ ground arith
  | inr h ↦ elim (Option-cases w.ended) [
    | inl n ↦ ground arith
    | inr (r, n) ↦ clean_end {r = r} w s n (audit-IsAlive w.daemon.trace (some watching) h tt)
  ]
]

secrets-two : (m : Made) → IsMade m → length (secrets m) ≡ 2
unfolding secrets
secrets-two (buffers key work) made = refl
secrets-two (none_made e) made = elim made [ ]

kept :
    (S : Type 0) (d : Daemon) (l : LoopEnd) (m : Made) (x : Exit)
    → length d.buffers ≡ length (secrets m)
    → Left S d l
    → Reached l m x
    → Promise S d x
kept S d l m clean n left (e, made) = (n ∙ secrets-two m made, subst (Left S d) e left)
kept S d l m sigkilled n left (e, made) = (n ∙ secrets-two m made, subst (Left S d) e left)
kept S d l m _ n left r = tt

pub serve-Promise :
    (k : Kernel) (h : Host) (args : DaemonArgs) (installs armed : Bool) (now : ℕ)
    (actions : List EventLoop.Action)
    → loop_end installs (serve k h args armed now actions) ≡ some h.loop
    → Promise
        (Struck k (grace_of args.grace) actions (serve_start h args armed now))
        (serve k h args armed now actions).daemon
        (run_daemon h args).0
unfolding serve serve_start
serve-Promise k h args installs armed now actions e =
    let m = (make_buffers h.key_memory h.work_memory args.size).0 in
    let grace = grace_of args.grace in
    let w = serve k h args armed now actions in
    kept (Struck k grace actions (serve_start h args armed now)) w.daemon h.loop m
      (run_daemon h args).0 (run-start-count k grace now armed args.korg_sink (secrets m) actions)
      (loop_end-Left installs w h.loop
        (run-start-Fate k grace now armed args.korg_sink (secrets m) actions) e)
      (run_daemon-Reached h args)
