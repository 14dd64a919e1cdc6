-- ===== src/Dazai/Loop/Reaching.antt =====
-- rs/crates/dazai/src/main.rs, `run_daemon`: the exits that lie behind the event loop.
use ningen_shikkaku.Base.{
  ℕ, ◌≡◌, refl, sym, subst, Bool, true, false, List, [], ◌∷◌, Option, none, some, ◌==◌, branch,
}
use ningen_shikkaku.Base.Results.{Result, ok, err}
use ningen_shikkaku.Goodnight.Buffer as Buffer
use ningen_shikkaku.Goodnight.Buffer.{SecretBuffer, Memory, new, write}
use ningen_shikkaku.Kekkai.{Failure, apply}
use ningen_shikkaku.Sienna.{ChildProcess, Deed, no_child, spawn}
use ningen_shikkaku.Dazai.{
  mapped_buffer, freed_buffer, Action, Exit, clean, sigkilled, loop_failed, Run, scope, Made,
  buffers, none_made, PidfileWrite, pidfile_written, create_failed, pidfile_broken, LoopEnd,
  finished, failed, lethal, Host, DaemonArgs, work_written, work_made, key_written, key_made,
  make_buffers, deeds, run_loop, confine, write_pidfile, bind_listener, with_child, spawn_child,
  with_buffers, harden, open_sink, checked_timeout, check_timeout, run_daemon, key_text, work_text,
}

abbrev pub IsMade : Made → Type 0
IsMade (buffers key work) = Unit
IsMade (none_made e) = ⊥

-- What an exit tells: where the loop ended, and that there were buffers.
abbrev pub Reached : LoopEnd → Made → Exit → Type 0
Reached l m clean = (l ≡ finished) × IsMade m
Reached l m sigkilled = (l ≡ lethal) × IsMade m
Reached l m loop_failed = (l ≡ failed) × IsMade m
Reached l m _ = Unit

scope-exit : (drops : List Action) (r : Run) → (scope drops r).0 ≡ r.0
unfolding scope
scope-exit drops (sigkilled, done) = refl
scope-exit drops (_, done) = refl

module _ (m : Made) (made : IsMade m) where
  scope-Reached :
      (l : LoopEnd) (drops : List Action) (r : Run)
      → Reached l m r.0
      → Reached l m (scope drops r).0
  scope-Reached l drops r p = subst (Reached l m) (sym (scope-exit drops r)) p

  run_loop-Reached : (c : ChildProcess) (l : LoopEnd) → Reached l m (run_loop c l).0
  unfolding run_loop
  run_loop-Reached c finished = (refl, made)
  run_loop-Reached c failed = (refl, made)
  run_loop-Reached c lethal = (refl, made)

  bind_listener-Reached :
      (c : ChildProcess) (b : Bool) (p : PidfileWrite) (r : Result Failure (List ℕ)) (l : LoopEnd)
      → Reached l m (bind_listener c b p r l).0
  unfolding bind_listener write_pidfile confine
  bind_listener-Reached c false p r l = tt
  bind_listener-Reached c true create_failed r l = tt
  bind_listener-Reached c true pidfile_broken r l = tt
  bind_listener-Reached c true pidfile_written (err e) l = tt
  bind_listener-Reached c true pidfile_written (ok filter) l = run_loop-Reached c l

  with_child-Reached :
      (h : Host) (o : Option (ChildProcess × List Deed)) → Reached h.loop m (with_child h o).0
  unfolding with_child
  with_child-Reached h none = tt
  with_child-Reached h (some (c, done)) =
      scope-Reached h.loop (deeds c) (bind_listener c h.binds h.pidfile (apply h.seccomp) h.loop)
        (bind_listener-Reached c h.binds h.pidfile (apply h.seccomp) h.loop)

  spawn_child-Reached : (h : Host) (exec : Bool) → Reached h.loop m (spawn_child h exec).0
  unfolding spawn_child
  spawn_child-Reached h true = with_child-Reached h (spawn h.started)
  spawn_child-Reached h false = with_child-Reached h (some (no_child, []))

module _ (h : Host) (exec : Bool) where
  abbrev Passes : Made × List Action → Type 0
  Passes p = Reached h.loop p.0 (with_buffers h exec p).0

  buffers-Reached : (key work : SecretBuffer) (done : List Action) → Passes (buffers key work, done)
  unfolding with_buffers
  buffers-Reached key work done =
      scope-Reached (buffers key work) tt h.loop (freed_buffer ∷ freed_buffer ∷ [])
        (spawn_child h exec) (spawn_child-Reached (buffers key work) tt h exec)

  work_written-Reached :
      (key : SecretBuffer) (locked : Bool) (r : Buffer.Result SecretBuffer)
      → Passes (work_written key locked r)
  unfolding work_written with_buffers
  work_written-Reached key locked (Buffer.Result.ok work) =
      buffers-Reached key work (mapped_buffer key.locked ∷ mapped_buffer locked ∷ [])
  work_written-Reached key locked (Buffer.Result.err e) = tt

  work_made-Reached :
      (key : SecretBuffer) (r : Buffer.Result SecretBuffer) → Passes (work_made key r)
  unfolding work_made with_buffers
  work_made-Reached key (Buffer.Result.ok work) =
      work_written-Reached key work.locked (write work work_text)
  work_made-Reached key (Buffer.Result.err e) = tt

  key_written-Reached :
      (m : Memory) (size : ℕ) (locked : Bool) (r : Buffer.Result SecretBuffer)
      → Passes (key_written m size locked r)
  unfolding key_written with_buffers
  key_written-Reached m size locked (Buffer.Result.ok key) = work_made-Reached key (new m size)
  key_written-Reached m size locked (Buffer.Result.err e) = tt

  key_made-Reached :
      (m : Memory) (size : ℕ) (r : Buffer.Result SecretBuffer) → Passes (key_made m size r)
  unfolding key_made with_buffers
  key_made-Reached m size (Buffer.Result.ok key) =
      key_written-Reached m size key.locked (write key key_text)
  key_made-Reached m size (Buffer.Result.err e) = tt

module _ (h : Host) (args : DaemonArgs) where
  abbrev made : Made
  made = (make_buffers h.key_memory h.work_memory args.size).0

  abbrev Behind : Run → Type 0
  Behind r = Reached h.loop made r.0

  harden-Reached : Reached h.loop made (harden h args).0
  unfolding harden make_buffers
  harden-Reached = key_made-Reached h args.exec h.work_memory args.size (new h.key_memory 32)

  open_sink-Reached : Reached h.loop made (open_sink h args).0
  unfolding open_sink
  open_sink-Reached =
      branch Behind args.korg_sink (branch Behind h.sink_opens harden-Reached tt) harden-Reached

  check_timeout-Reached : (grace : Option ℕ) → Reached h.loop made (check_timeout h args grace).0
  unfolding check_timeout
  check_timeout-Reached none = tt
  check_timeout-Reached (some _) = branch Behind (checked_timeout args) open_sink-Reached tt

  pub run_daemon-Reached : Reached h.loop made (run_daemon h args).0
  unfolding run_daemon
  run_daemon-Reached = branch Behind (args.size == 0) tt (check_timeout-Reached args.grace)
