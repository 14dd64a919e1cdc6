-- ===== src/Kikka/Daemon.antt =====
-- What the threads of the dazai daemon share, and the collaborators that `Watchdog::new` of
-- rs/crates/kikka/src/lib.rs builds over it.
-- `trace` lists, oldest first, what the process did that can be seen from outside: signals sent,
-- buffers zeroized, lifecycle records handed to an open sink, and calls of the lethal closure that
-- the host injects. Standard error is not modelled.
use ningen_shikkaku.Base.{
  ℕ, ◌-◌, ◌^◌, Bool, true, false, List, [], ◌∷◌, ◌++◌, map, length, min, if◌then◌else◌,
}
use ningen_shikkaku.Goodnight.Buffer.{SecretBuffer, wipe}
use ningen_shikkaku.Goodnight.Process.{Kernel, sigkill_pid}
use ningen_shikkaku.Kiroku.{Lifecycle, Reason, KillTarget}
use ningen_shikkaku.Kikka.Panic.{Collaborators}

pub data Effect : Type 0 where
  signalled : (pid : ℕ) (sent : Bool) → Effect
  zeroized : (buffers : ℕ) → Effect
  recorded : Lifecycle → Effect
  lethal : Effect

pub record Daemon : Type 0 where
  pub armed : Bool
  pub registered : List ℕ
  pub buffers : List SecretBuffer
  pub stop : Bool
  pub trigger : Reason
  pub sink : Bool
  pub socket : Bool
  pub now : ℕ
  pub trace : List Effect

pub does : Effect → Daemon → Daemon
does e d = record d { trace = d.trace ++ e ∷ [] }

-- `kiroku::emit`: through an optional sink.
unfoldable pub emit : Lifecycle → Daemon → Daemon
unfolding does
emit e d = if d.sink then does (recorded e) d else d

-- Saturating `usize` to `u32`.
unfoldable pub count_u32 : ℕ → ℕ
count_u32 n = min n (2 ^ 32 - 1)

signal_all : Kernel → List ℕ → List Effect
signal_all k = map (λ pid. signalled pid (sigkill_pid k pid))

unfoldable pub kill_registered : Kernel → Daemon → Daemon
unfolding emit signal_all
kill_registered k d =
    emit (Lifecycle.kill d.trigger KillTarget.registered (count_u32 (length d.registered)) true)
      (record d { trace = d.trace ++ signal_all k d.registered })

unfoldable pub wipe_buffers : Daemon → Daemon
unfolding does
wipe_buffers d = does (zeroized (length d.buffers)) (record d { buffers = map wipe d.buffers })

unfoldable pub wipe_all : Daemon → Daemon
unfolding wipe_buffers emit
wipe_all d = emit (Lifecycle.wipe d.trigger (count_u32 (length d.buffers))) (wipe_buffers d)

unfoldable pub kill_self : Daemon → Daemon
unfolding emit does
kill_self d = does lethal (emit (Lifecycle.kill d.trigger KillTarget.self_process 1 true) d)

unfoldable pub dry_done : Daemon → Daemon
unfolding emit
dry_done d =
    let would = count_u32 (length d.registered) in
    let d1 = emit (Lifecycle.kill d.trigger KillTarget.registered would false) d in
    let d2 = emit (Lifecycle.kill d.trigger KillTarget.self_process 1 false) d1 in
    record d2 { stop = true }

abbrev pub collaborators : Kernel → Collaborators Daemon
collaborators k = record {
  armed = λ d. d.armed;
  kill_registered = kill_registered k;
  wipe = wipe_all;
  kill = kill_self;
  dry_done = dry_done;
  clock = λ d. d.now;
  log = λ _ d. d;
}
