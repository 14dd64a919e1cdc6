-- ===== src/Rei/Server/Killing.antt =====
-- The agent's way to a real self-destruct: rs/crates/rei/src/lib.rs over rs/crates/kikka/src/lib.rs.
use ningen_shikkaku.Base.{
  ℕ, ◌≤◌, ◌≡◌, refl, ap, sym, subst, ◌++◌, ◌∙◌, Bool, true, false, none, some, length, arith, ◌==◌,
}
use ningen_shikkaku.Base.Text.{Bytes, codes, text_eq}
use ningen_shikkaku.Base.Words.{is_whitespace, split_whitespace, to_ascii_uppercase}
use ningen_shikkaku.Base.Utf8.{from_utf8_lossy}
use ningen_shikkaku.Goodnight.Process.{Kernel}
use ningen_shikkaku.Kiroku.{Reason}
use ningen_shikkaku.Kikka.Panic.{Controller, request_hard}
use ningen_shikkaku.Kikka.Daemon.{Daemon, emit, collaborators, kill_self, wipe_all, kill_registered}
use ningen_shikkaku.Kikka.Control
use ningen_shikkaku.Kikka.Control.{u32_max, process_control, answer, verb_of, first_word_upper, arm}
use ningen_shikkaku.Kikka.EventLoop.{
  Watchdog, Signal, event, signal, on_received, iterate, act, run,
}
use ningen_shikkaku.Kikka.EventLoop.Audit.{verdict, watching, dead}
use ningen_shikkaku.Kikka.EventLoop.Interrupted.Shots.{shots, arm-shots}
use ningen_shikkaku.Kikka.EventLoop.Liveness.{IsStruck, destroy-IsStruck}
use ningen_shikkaku.Kikka.EventLoop.Frames.{arm-Agrees}
use ningen_shikkaku.Kikka.EventLoop.Safety.{iterate_running}
use ningen_shikkaku.Rei.{DazaiClient, u64_max, read_daemon_pid, panic}
use ningen_shikkaku.Rei.RoundTrip.{served, status-served}
use ningen_shikkaku.Rei.Server.{trigger_json, dazai_hard_panic, dazai_arm, handle}
use ningen_shikkaku.Rei.Server.Agent.{use_tool}

-- A daemon in its loop, with nothing fired.
pub record IsIdle (w : Watchdog) : Type 0 where
  pub open_loop : w.ended ≡ none
  pub not_stopped : w.daemon.stop ≡ false
  pub unfired : w.controller.fired ≡ false
  pub calm : verdict w.daemon ≡ some watching

hard_request :
    (k : Kernel) (c : Controller) (d : Daemon)
    → c.fired ≡ false
    → d.armed ≡ true
    → (request_hard (collaborators k) "SIGUSR2 hard panic" c d).1
      ≡ kill_self (wipe_all (kill_registered k d))
unfolding request_hard
hard_request k c d f a = ground arith

hard_signal :
    (k : Kernel) (w : Watchdog)
    → IsIdle w
    → w.daemon.armed ≡ true
    → IsStruck true w.daemon (iterate k (event (signal Signal.sigusr2)) w).daemon
unfolding on_received
hard_signal k w i a =
    let d = record w.daemon { trigger = Reason.hard_panic_signal } in
    subst (IsStruck true w.daemon)
      (sym (
        ap (λ (x : Watchdog). x.daemon)
          (iterate_running k (event (signal Signal.sigusr2)) w i.open_loop i.not_stopped)
        ∙ hard_request k w.controller d i.unfired a))
      (destroy-IsStruck k true w.daemon d refl refl i.calm)

arm_request :
    (k : Kernel) (grace : ℕ) (d : Daemon)
    → process_control k grace (codes "ARM") d ≡ ((Control.arm d).0, (Control.arm d).1, true)
unfolding process_control answer verb_of text_eq first_word_upper to_ascii_uppercase
    split_whitespace is_whitespace from_utf8_lossy
arm_request k grace d = refl

arms : (d : Daemon) → (Control.arm d).0.armed ≡ true
unfolding Control.arm emit
arms d = ground arith

arm_kept : (d : Daemon) → (Control.arm d).0.registered ≡ d.registered
unfolding Control.arm emit
arm_kept d = ground arith

same_pid : (pid : ℕ) → (pid == pid) ≡ true
same_pid pid = ground arith

-- A hard panic on an armed idle daemon.
hard_panic_kills :
    (k : Kernel) (grace pid : ℕ) (c : DazaiClient) (w : Watchdog)
    → IsIdle w
    → w.daemon.armed ≡ true
    → grace ≤ u64_max
    → length w.daemon.registered ≤ u32_max
    → read_daemon_pid c.pidfile ≡ some pid
    → c.signal_fn pid Signal.sigusr2 ≡ true
    → let (out, w') = use_tool k grace pid c dazai_hard_panic w in
      (out ≡ trigger_json true) × IsStruck true w.daemon w'.daemon
unfolding use_tool handle panic act run
hard_panic_kills k grace pid c w i a g r p t =
    let c' = record c { exchange = served k grace w.daemon } in
    let (alive, same) = status-served k grace w.daemon c g r in
    rw (alive, p, same) (ap trigger_json t, rw (same_pid pid, t) (hard_signal k w i a))

arm_tool :
    (k : Kernel) (grace pid : ℕ) (c : DazaiClient) (w : Watchdog)
    → (use_tool k grace pid c dazai_arm w).1 ≡ record w { daemon = (Control.arm w.daemon).0 }
unfolding use_tool handle act run
arm_tool k grace pid c w =
    ap (λ (r : Daemon × Bytes × Bool). record w { daemon = r.0 }) (arm_request k grace w.daemon)

armed-IsIdle : (w : Watchdog) → IsIdle w → IsIdle (record w { daemon = (Control.arm w.daemon).0 })
armed-IsIdle w i =
    let a = arm-Agrees w.daemon in
    record {
      open_loop = i.open_loop;
      not_stopped = a.stop ∙ i.not_stopped;
      unfired = i.unfired;
      calm = a.verdicts ∙ i.calm;
    }

-- Whatever idle daemon an agent finds, in dry-run mode or not, with the pid file holding its pid and
-- a signal to it going through: where the agent arms the daemon and then asks for a hard panic, it
-- is told that the panic was triggered, and the daemon has signalled its registered processes, all
-- of them and no others, zeroized its buffers and called the lethal closure once, in this order.
pub arm_then_panic_kills :
    (k : Kernel) (grace pid : ℕ) (c : DazaiClient) (w : Watchdog)
    → IsIdle w
    → grace ≤ u64_max
    → length w.daemon.registered ≤ u32_max
    → read_daemon_pid c.pidfile ≡ some pid
    → c.signal_fn pid Signal.sigusr2 ≡ true
    → let w1 = (use_tool k grace pid c dazai_arm w).1 in
      let (out, w2) = use_tool k grace pid c dazai_hard_panic w1 in
      (out ≡ trigger_json true)
      × (verdict w2.daemon ≡ some dead)
      × (shots w2.daemon ≡ shots w.daemon ++ w.daemon.registered)
arm_then_panic_kills k grace pid c w i g r p t =
    let d = (Control.arm w.daemon).0 in
    let (out, (dies, hit)) =
      hard_panic_kills k grace pid c (record w { daemon = d }) (armed-IsIdle w i) (arms w.daemon) g
        (rw (arm_kept w.daemon) r) p t in
    rw (arm_tool k grace pid c w) (
      out,
      dies,
      hit
          ∙ ap (λ ps. shots d ++ ps) (arm_kept w.daemon)
          ∙ ap (λ ps. ps ++ w.daemon.registered) (arm-shots w.daemon),
    )
