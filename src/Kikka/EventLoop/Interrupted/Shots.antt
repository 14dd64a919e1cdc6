-- ===== src/Kikka/EventLoop/Interrupted/Shots.antt =====
-- Which processes a daemon of rs/crates/kikka/src/lib.rs has signalled.
use ningen_shikkaku.Base.{
  ℕ, ◌≡◌, refl, ap, ◌∙◌, true, Option, none, some, List, [], ◌∷◌, ◌++◌, append-nil, map, length,
  arith,
}
use ningen_shikkaku.Base.Text.{Bytes}
use ningen_shikkaku.Goodnight.Process.{Kernel, sigkill_pid}
use ningen_shikkaku.Kiroku.{Lifecycle, KillTarget, ArmVia}
use ningen_shikkaku.Kikka.Control.{
  register, unregister, arm, answer, process_control, parse_pid, verb_of, first_word_upper, Verb,
  register_verb, unregister_verb, arm_verb,
}
use ningen_shikkaku.Kikka.Daemon.{
  Daemon, Effect, signalled, recorded, zeroized, lethal, kill_registered, wipe_all, wipe_buffers,
  kill_self, emit, count_u32,
}
use ningen_shikkaku.Kikka.EventLoop.Interrupted.{controls}

abbrev pub signalled_pids : List Effect → List ℕ
signalled_pids [] = []
signalled_pids (signalled pid sent ∷ es) = pid ∷ signalled_pids es
signalled_pids (_ ∷ es) = signalled_pids es

abbrev pub shots : Daemon → List ℕ
shots d = signalled_pids d.trace

signalled_pids-append :
    (es fs : List Effect) → signalled_pids (es ++ fs) ≡ signalled_pids es ++ signalled_pids fs
signalled_pids-append [] fs = refl
signalled_pids-append (signalled pid sent ∷ es) fs = ap (◌∷◌ pid) (signalled_pids-append es fs)
signalled_pids-append (zeroized n ∷ es) fs = signalled_pids-append es fs
signalled_pids-append (recorded e ∷ es) fs = signalled_pids-append es fs
signalled_pids-append (lethal ∷ es) fs = signalled_pids-append es fs

-- An effect at the end that is no signal.
shots-none :
    (es : List Effect) (e : Effect)
    → signalled_pids (e ∷ []) ≡ []
    → signalled_pids (es ++ e ∷ []) ≡ signalled_pids es
shots-none es e h =
    signalled_pids-append es (e ∷ [])
    ∙ ap (λ x. signalled_pids es ++ x) h
    ∙ append-nil (signalled_pids es)

pub shots-emit : (e : Lifecycle) (d : Daemon) → shots (emit e d) ≡ shots d
unfolding emit
shots-emit e d = ground (arith, shots-none d.trace (recorded e) refl)

pub shots-wipe_buffers : (d : Daemon) → shots (wipe_buffers d) ≡ shots d
unfolding wipe_buffers
shots-wipe_buffers d = shots-none d.trace (zeroized (length d.buffers)) refl

pub shots-wipe_all : (d : Daemon) → shots (wipe_all d) ≡ shots d
unfolding wipe_all
shots-wipe_all d =
    shots-emit (Lifecycle.wipe d.trigger (count_u32 (length d.buffers))) (wipe_buffers d)
    ∙ shots-wipe_buffers d

pub shots-kill_self : (d : Daemon) → shots (kill_self d) ≡ shots d
unfolding kill_self
shots-kill_self d =
    let e = Lifecycle.kill d.trigger KillTarget.self_process 1 true in
    shots-none (emit e d).trace lethal refl ∙ shots-emit e d

shots-map :
    (k : Kernel) (ps : List ℕ)
    → signalled_pids (map (λ pid. signalled pid (sigkill_pid k pid)) ps) ≡ ps
shots-map k [] = refl
shots-map k (p ∷ ps) = ap (◌∷◌ p) (shots-map k ps)

pub shots-kill_registered :
    (k : Kernel) (d : Daemon) → shots (kill_registered k d) ≡ shots d ++ d.registered
unfolding kill_registered
shots-kill_registered k d =
    let es = map (λ pid. signalled pid (sigkill_pid k pid)) d.registered in
    shots-emit
      (Lifecycle.kill d.trigger KillTarget.registered (count_u32 (length d.registered)) true)
      (record d { trace = d.trace ++ es })
    ∙ signalled_pids-append d.trace es
    ∙ ap (λ x. shots d ++ x) (shots-map k d.registered)

-- The self-destruct signals the registered processes, all of them, and no others.
pub destroy-shots :
    (k : Kernel) (d : Daemon)
    → shots (kill_self (wipe_all (kill_registered k d))) ≡ shots d ++ d.registered
destroy-shots k d =
    shots-kill_self (wipe_all (kill_registered k d))
    ∙ shots-wipe_all (kill_registered k d)
    ∙ shots-kill_registered k d

register-shots : (k : Kernel) (o : Option ℕ) (d : Daemon) → shots (register k o d).0 ≡ shots d
unfolding register
register-shots k none d = refl
register-shots k (some pid) d = ground arith

unregister-shots : (o : Option ℕ) (d : Daemon) → shots (unregister o d).0 ≡ shots d
unfolding unregister
unregister-shots none d = refl
unregister-shots (some pid) d = refl

pub arm-shots : (d : Daemon) → shots (arm d).0 ≡ shots d
unfolding arm
arm-shots d =
    let e = shots-emit (Lifecycle.arm ArmVia.control) (record d { armed = true }) in
    ground (arith, e)

answer-shots :
    (k : Kernel) (grace : ℕ) (v : Verb) (line : Bytes) (d : Daemon)
    → shots (answer k grace v line d).0 ≡ shots d
unfolding answer
answer-shots k grace register_verb line d = register-shots k (parse_pid line) d
answer-shots k grace unregister_verb line d = unregister-shots (parse_pid line) d
answer-shots k grace arm_verb line d = arm-shots d
answer-shots k grace _ line d = refl

-- Control clients signal nothing.
pub shots-controls :
    (k : Kernel) (grace : ℕ) (ls : List Bytes) (d : Daemon)
    → shots (controls k grace ls d) ≡ shots d
unfolding controls process_control
shots-controls k grace [] d = refl
shots-controls k grace (line ∷ rest) d =
    shots-controls k grace rest (process_control k grace line d).0
    ∙ answer-shots k grace (verb_of (first_word_upper line)) line d
