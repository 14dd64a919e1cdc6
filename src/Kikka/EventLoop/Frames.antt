-- ===== src/Kikka/EventLoop/Frames.antt =====
-- What the collaborators and the control verbs leave alone.
use ningen_shikkaku.Base.{
  ℕ, ◌≡◌, refl, true, Option, none, some, [], ◌∷◌, map, arith, count_if, count_if-append, length,
}
use ningen_shikkaku.Base.Text.{Bytes}
use ningen_shikkaku.Goodnight.Buffer.{wipe}
use ningen_shikkaku.Goodnight.Process.{Kernel}
use ningen_shikkaku.Kiroku.{Lifecycle, ArmVia}
use ningen_shikkaku.Kikka.Daemon.{
  recorded, zeroized, Daemon, emit, kill_registered, wipe_buffers, wipe_all, kill_self, dry_done,
}
use ningen_shikkaku.Kikka.Control.{
  register, unregister, arm, answer, process_control, parse_pid, verb_of, first_word_upper, Verb,
  register_verb, unregister_verb, arm_verb,
}
use ningen_shikkaku.Kikka.EventLoop.Audit.{is_kill, verdict, verdict-emit}

abbrev pub kills : Daemon → ℕ
kills d = count_if is_kill d.trace

pub kills-emit : (e : Lifecycle) (d : Daemon) → kills (emit e d) ≡ kills d
unfolding emit
kills-emit e d = ground (arith, count_if-append is_kill d.trace (recorded e ∷ []))

pub kills-wipe_buffers : (d : Daemon) → kills (wipe_buffers d) ≡ kills d
unfolding wipe_buffers
kills-wipe_buffers d =
    omega (arith, count_if-append is_kill d.trace (zeroized (length d.buffers) ∷ []))

-- Two daemons that agree but for the registry, the trigger, the sink, the socket and the clock,
-- and for records in the trace.
pub record Agrees (d d' : Daemon) : Type 0 where
  pub buffers : d'.buffers ≡ d.buffers
  pub stop : d'.stop ≡ d.stop
  pub verdicts : verdict d' ≡ verdict d
  pub counts : kills d' ≡ kills d
  pub armed : d.armed ≡ true → d'.armed ≡ true

pub Agrees-refl : (d : Daemon) → Agrees d d
Agrees-refl d = record {
  buffers = refl;
  stop = refl;
  verdicts = refl;
  counts = refl;
  armed = λ e. e;
}

pub emit-Agrees : (e : Lifecycle) (d : Daemon) → Agrees d (emit e d)
emit-Agrees e d = record {
  buffers = unfold emit in ground arith;
  stop = unfold emit in ground arith;
  verdicts = verdict-emit e d;
  counts = kills-emit e d;
  armed = unfold emit in ground arith;
}

register-Agrees : (k : Kernel) (o : Option ℕ) (d : Daemon) → Agrees d (register k o d).0
unfolding register
register-Agrees k none d = Agrees-refl d
register-Agrees k (some pid) d = ground arith

unregister-Agrees : (o : Option ℕ) (d : Daemon) → Agrees d (unregister o d).0
unfolding unregister
unregister-Agrees none d = Agrees-refl d
unregister-Agrees (some pid) d = ground arith

pub arm-Agrees : (d : Daemon) → Agrees d (arm d).0
unfolding arm
arm-Agrees d =
    let e = Lifecycle.arm ArmVia.control in
    let a = emit-Agrees e (record d { armed = true }) in
    ground (arith, a.buffers, a.stop, a.verdicts, a.counts, a.armed refl)

answer-Agrees :
    (k : Kernel) (grace : ℕ) (v : Verb) (line : Bytes) (d : Daemon)
    → Agrees d (answer k grace v line d).0
unfolding answer
answer-Agrees k grace register_verb line d = register-Agrees k (parse_pid line) d
answer-Agrees k grace unregister_verb line d = unregister-Agrees (parse_pid line) d
answer-Agrees k grace arm_verb line d = arm-Agrees d
answer-Agrees k grace _ line d = Agrees-refl d

pub process_control-Agrees :
    (k : Kernel) (grace : ℕ) (line : Bytes) (d : Daemon)
    → Agrees d (process_control k grace line d).0
unfolding process_control
process_control-Agrees k grace line d =
    answer-Agrees k grace (verb_of (first_word_upper line)) line d

-- After the wipe of a dry run and its end.
pub record Dried (d d' : Daemon) : Type 0 where
  pub armed : d'.armed ≡ d.armed
  pub buffers : d'.buffers ≡ map wipe d.buffers
  pub stop : d'.stop ≡ true
  pub counts : kills d' ≡ kills d

pub Dried_lem : (d : Daemon) → Dried d (dry_done (wipe_all d))
Dried_lem d = record {
  armed = unfold dry_done wipe_all wipe_buffers emit in ground arith;
  buffers = unfold dry_done wipe_all wipe_buffers emit in ground arith;
  stop = unfold dry_done in refl;
  counts = unfold dry_done wipe_all in simp (kills-emit, kills-wipe_buffers);
}

-- After the real self-destruct.
pub record Destroyed (d d' : Daemon) : Type 0 where
  pub armed : d'.armed ≡ d.armed
  pub buffers : d'.buffers ≡ map wipe d.buffers
  pub stop : d'.stop ≡ d.stop

pub Destroyed_lem :
    (k : Kernel) (d : Daemon) → Destroyed d (kill_self (wipe_all (kill_registered k d)))
unfolding kill_self wipe_all wipe_buffers kill_registered emit
Destroyed_lem k d = ground arith
