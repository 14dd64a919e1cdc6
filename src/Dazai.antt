-- ===== src/Dazai.antt =====
-- `run_daemon` of rs/crates/dazai/src/main.rs: the start of the daemon, its end, and what each way
-- out cleans up. What the system answers at each step, and how the event loop ends, are inputs; what
-- the process does is listed in order, with the drops of the locals that Rust makes on the way out.
pub mod Paths
pub mod Main
pub mod Monitor
pub mod Order
pub mod Client
pub mod Loop
pub mod Pidfile
use ningen_shikkaku.Base.{
  ℕ, Bool, true, false, List, [], ◌∷◌, ◌++◌, map, Option, none, some, ◌==◌, if◌then◌else◌,
}
use ningen_shikkaku.Base.Text.{Bytes, codes}
use ningen_shikkaku.Goodnight.Buffer.{Memory, SecretBuffer, new, write}
use ningen_shikkaku.Goodnight.Buffer as Buffer
use ningen_shikkaku.Goodnight.Limits.{
  Rlimit, Raised, try_raise_memlock_rlimit, set_process_undumpable,
}
use ningen_shikkaku.Base.Results.{Result, ok, err}
use ningen_shikkaku.Kekkai.{Seccomp, Failure, apply}
use ningen_shikkaku.Sienna.{ChildProcess, Deed, kill, no_child, spawn}

pub data Action : Type 0 where
  opened_sink : Action
  tried_memlock : Raised → Action
  tried_undumpable : (done : Bool) → Action
  -- a buffer that was mapped, and whether mlock(2) took it
  mapped_buffer : (locked : Bool) → Action
  freed_buffer : Action
  child : Deed → Action
  bound created_pidfile removed_pidfile looped killed_self : Action
  confined : (filter : List ℕ) → Action

-- How the process leaves `run_daemon`.
pub data Exit : Type 0 where
  clean sigkilled : Exit
  zero_size bad_grace bad_ping_timeout no_sink no_key no_work no_child_process no_socket
        no_pidfile :
      Exit
  no_seccomp loop_failed : Exit

abbrev pub Run : Type 0
Run = Exit × List Action

-- What happens first, before the rest of a run.
abbrev pub after : List Action → Run → Run
after done r = (r.0, done ++ r.1)

-- The drops at the end of a scope; a killed process makes none.
unfoldable pub scope : List Action → Run → Run
scope drops (sigkilled, done) = (sigkilled, done)
scope drops (exit, done) = (exit, done ++ drops)

pub data PidfileWrite : Type 0 where
  pidfile_written create_failed : PidfileWrite
  -- the file is there, but writing to it or its mode failed
  pidfile_broken : PidfileWrite

-- How `run_with_listener` ends: clean, with an error, or in the lethal closure.
pub data LoopEnd : Type 0 where
  finished failed lethal : LoopEnd

-- What the system answers.
pub record Host : Type 0 where
  pub sink_opens : Bool
  pub getrlimit : Option Rlimit
  pub setrlimit : Rlimit → Bool
  pub prctl : Bool
  pub key_memory : Memory
  pub work_memory : Memory
  pub started : Option ℕ
  pub binds : Bool
  pub pidfile : PidfileWrite
  pub seccomp : Seccomp
  pub loop : LoopEnd

-- The arguments, with the floating-point tests of the two durations: `grace` is what
-- `try_from_secs_f64` makes of it.
pub record DaemonArgs : Type 0 where
  pub size : ℕ
  pub grace : Option ℕ
  pub timeout_negative : Bool
  pub timeout_positive : Bool
  pub timeout : Option ℕ
  pub korg_sink : Bool
  pub exec : Bool

abbrev pub key_text : Bytes
key_text = codes "synthetic-key-material"

abbrev pub work_text : Bytes
work_text = codes "SYNTHETIC SECRET -- if readable after a wipe, zeroize failed.\n"

-- The exit, or the two buffers.
pub data Made : Type 0 where
  buffers : (key work : SecretBuffer) → Made
  none_made : Exit → Made

-- `key_locked` and `work_locked` are what `mlock` came to where the buffer was mapped; a buffer that
-- could not be locked is used all the same.
unfoldable pub work_written :
    SecretBuffer → (work_locked : Bool) → Buffer.Result SecretBuffer → Made × List Action
work_written key work_locked (Buffer.Result.err e) = (
  none_made no_work,
  mapped_buffer key.locked ∷ mapped_buffer work_locked ∷ freed_buffer ∷ freed_buffer ∷ [],
)
work_written key work_locked (Buffer.Result.ok work) =
    (buffers key work, mapped_buffer key.locked ∷ mapped_buffer work_locked ∷ [])

unfoldable pub work_made : SecretBuffer → Buffer.Result SecretBuffer → Made × List Action
work_made key (Buffer.Result.err e) =
    (none_made no_work, mapped_buffer key.locked ∷ freed_buffer ∷ [])
work_made key (Buffer.Result.ok work) = work_written key work.locked (write work work_text)

unfoldable pub key_written :
    Memory → ℕ → (key_locked : Bool) → Buffer.Result SecretBuffer → Made × List Action
key_written m size key_locked (Buffer.Result.err e) =
    (none_made no_key, mapped_buffer key_locked ∷ freed_buffer ∷ [])
key_written m size key_locked (Buffer.Result.ok key) = work_made key (new m size)

unfoldable pub key_made : Memory → ℕ → Buffer.Result SecretBuffer → Made × List Action
key_made m size (Buffer.Result.err e) = (none_made no_key, [])
key_made m size (Buffer.Result.ok key) = key_written m size key.locked (write key key_text)

unfoldable pub make_buffers : (key_memory work_memory : Memory) → (size : ℕ) → Made × List Action
make_buffers key_memory work_memory size = key_made work_memory size (new key_memory 32)

deeds : ChildProcess → List Action
deeds c = map child (kill c).1

-- The lethal closure: the child, the pidfile, then the process itself.
unfoldable pub lethal_closure : ChildProcess → List Action
unfolding deeds
lethal_closure c = deeds c ++ (removed_pidfile ∷ killed_self ∷ [])

unfoldable pub run_loop : ChildProcess → LoopEnd → Run
unfolding lethal_closure
run_loop c finished = (clean, looped ∷ removed_pidfile ∷ [])
run_loop c failed = (loop_failed, looped ∷ [])
run_loop c lethal = (sigkilled, looped ∷ lethal_closure c)

unfoldable pub confine : ChildProcess → Result Failure (List ℕ) → LoopEnd → Run
confine c (err e) loop = (no_seccomp, [])
confine c (ok filter) loop = after (confined filter ∷ []) (run_loop c loop)

unfoldable pub write_pidfile : ChildProcess → PidfileWrite → Result Failure (List ℕ) → LoopEnd → Run
write_pidfile c create_failed confining loop = (no_pidfile, [])
write_pidfile c pidfile_broken confining loop = (no_pidfile, created_pidfile ∷ [])
write_pidfile c pidfile_written confining loop =
    after (created_pidfile ∷ []) (confine c confining loop)

unfoldable pub bind_listener :
    ChildProcess → (binds : Bool) → PidfileWrite → Result Failure (List ℕ) → LoopEnd → Run
bind_listener c false pidfile confining loop = (no_socket, [])
bind_listener c true pidfile confining loop =
    after (bound ∷ []) (write_pidfile c pidfile confining loop)

-- Behind the spawn: the child is killed where its scope ends.
unfoldable pub with_child : Host → Option (ChildProcess × List Deed) → Run
unfolding deeds
with_child h none = (no_child_process, [])
with_child h (some (c, done)) =
    after (map child done)
      (scope (deeds c) (bind_listener c h.binds h.pidfile (apply h.seccomp) h.loop))

unfoldable pub spawn_child : Host → (exec : Bool) → Run
spawn_child h true = with_child h (spawn h.started)
spawn_child h false = with_child h (some (no_child, []))

-- Behind `make_buffers`: both buffers are freed last.
unfoldable pub with_buffers : Host → (exec : Bool) → Made × List Action → Run
with_buffers h exec (none_made e, done) = (e, done)
with_buffers h exec (buffers key work, done) =
    after done (scope (freed_buffer ∷ freed_buffer ∷ []) (spawn_child h exec))

harden : Host → DaemonArgs → Run
harden h args =
    after
      (tried_memlock (try_raise_memlock_rlimit h.getrlimit h.setrlimit)
        ∷ tried_undumpable (set_process_undumpable h.prctl)
        ∷ [])
      (with_buffers h args.exec (make_buffers h.key_memory h.work_memory args.size))

unfoldable pub open_sink : Host → DaemonArgs → Run
unfolding harden
open_sink h args =
    if args.korg_sink
    then (if h.sink_opens then after (opened_sink ∷ []) (harden h args) else (no_sink, []))
    else harden h args

-- The ping timeout is tried only where it is above 0.
unfoldable pub checked_timeout : DaemonArgs → Bool
checked_timeout args =
    if args.timeout_negative
    then false
    else if args.timeout_positive
    then elim args.timeout [ none ↦ false | some _ ↦ true ]
    else true

unfoldable pub check_timeout : Host → DaemonArgs → (grace : Option ℕ) → Run
check_timeout h args none = (bad_grace, [])
check_timeout h args (some _) =
    if checked_timeout args then open_sink h args else (bad_ping_timeout, [])

unfoldable pub run_daemon : Host → DaemonArgs → Run
run_daemon h args = if args.size == 0 then (zero_size, []) else check_timeout h args args.grace
