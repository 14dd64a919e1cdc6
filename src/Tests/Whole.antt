-- ===== src/Tests/Whole.antt =====
-- The daemon of rs/crates/dazai/src/main.rs with its event loop, on a hard panic while it is armed.
use ningen_shikkaku.Base.{◌≡◌, refl, true, false, none, some, List, [], ◌∷◌}
use ningen_shikkaku.Goodnight.Process.{Kernel, delivered}
use ningen_shikkaku.Kikka.Panic.{new}
use ningen_shikkaku.Kikka.EventLoop.{Action, receives, event, signal, Signal, connected}
use ningen_shikkaku.Base.Text.{text_eq}
use ningen_shikkaku.Base.Results.{ensure}
use ningen_shikkaku.Goodnight.Buffer as Buffer
use ningen_shikkaku.Goodnight.Buffer.{Memory}
use ningen_shikkaku.Goodnight.Limits.{set_process_undumpable, try_raise_memlock_rlimit}
use ningen_shikkaku.Kekkai.{add_core, add_runtime, allow_core, allow_runtime, apply, Seccomp}
use ningen_shikkaku.Sienna.{spawn, kill, no_child}
use ningen_shikkaku.Dazai.{
  Host, DaemonArgs, pidfile_written, lethal, sigkilled, run_daemon, check_timeout, checked_timeout,
  open_sink, with_buffers, make_buffers, key_made, key_written, work_made, work_written, scope,
  spawn_child, with_child, bind_listener, confine, lethal_closure, run_loop, write_pidfile,
}
use ningen_shikkaku.Kikka.EventLoop.Struck.Run.{Struck}

abbrev pub every_pid : Kernel
every_pid pid signum = delivered

-- Pages of 64 bytes, and a library that knows every name.
abbrev small_memory : Memory
small_memory = record { page_size = 64; mmap = λ _. true; mlock = λ _. true }

abbrev small_library : Seccomp
small_library = record {
  new_filter = true;
  from_name = λ _. some 1;
  add_rule = λ _ _. true;
  load = λ _. true;
}

abbrev pub killed_host : Host
killed_host = record {
  sink_opens = true;
  getrlimit = none;
  setrlimit = λ _. false;
  prctl = true;
  key_memory = small_memory;
  work_memory = small_memory;
  started = some 4242;
  binds = true;
  pidfile = pidfile_written;
  seccomp = small_library;
  loop = lethal;
}

abbrev pub arguments : DaemonArgs
arguments = record {
  size = 64;
  grace = some 5;
  timeout_negative = false;
  timeout_positive = false;
  timeout = none;
  korg_sink = true;
  exec = true;
}

abbrev hard_day : List Action
hard_day = receives (event (connected 1)) ∷ receives (event (signal Signal.sigusr2)) ∷ []

-- The run of that day ends in SIGKILL.
hard_day_exit : (run_daemon killed_host arguments).0 ≡ sigkilled
unfolding run_daemon check_timeout checked_timeout open_sink with_buffers make_buffers key_made
    Buffer.new key_written Buffer.write work_made work_written scope spawn_child with_child spawn
    bind_listener ensure confine lethal_closure run_loop write_pidfile Buffer.secure_wipe
    set_process_undumpable try_raise_memlock_rlimit add_core add_runtime allow_core allow_runtime
    apply kill no_child text_eq
hard_day_exit = refl
