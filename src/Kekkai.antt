-- ===== src/Kekkai.antt =====
-- rs/crates/kekkai/src/lib.rs with the `seccomp` feature: the allowlists and `apply`. libseccomp is
-- a parameter: how it resolves a name, which rules it takes into a filter, which filters it loads.
-- A filter is the list of the syscall numbers it allows; every other one kills the process.
pub mod Filter
use ningen_shikkaku.Base.{
  ℕ, suc, Bool, true, false, List, [], ◌∷◌, ◌++◌, Option, none, some, if◌then◌else◌,
}
use ningen_shikkaku.Base.Text.{Bytes, codes}
use ningen_shikkaku.Base.Results.{Result, ok, err, ◌>>=◌, ◌>>◌, ensure}

abbrev pub conceptual_allowlist : List Bytes
conceptual_allowlist =
    codes "read"
    ∷ codes "write"
    ∷ codes "close"
    ∷ codes "mmap"
    ∷ codes "mlock"
    ∷ codes "munlock"
    ∷ codes "madvise"
    ∷ codes "prctl"
    ∷ codes "socket"
    ∷ codes "bind"
    ∷ codes "accept"
    ∷ codes "kill"
    ∷ codes "exit_group"
    ∷ codes "futex"
    ∷ codes "sigprocmask"
    ∷ codes "rt_sigaction"
    ∷ []

abbrev pub runtime_required : List Bytes
runtime_required =
    codes "munmap"
    ∷ codes "mprotect"
    ∷ codes "brk"
    ∷ codes "clone"
    ∷ codes "clone3"
    ∷ codes "set_robust_list"
    ∷ codes "rseq"
    ∷ codes "rt_sigreturn"
    ∷ codes "rt_sigprocmask"
    ∷ codes "restart_syscall"
    ∷ codes "sched_yield"
    ∷ codes "nanosleep"
    ∷ codes "clock_nanosleep"
    ∷ codes "clock_gettime"
    ∷ codes "gettid"
    ∷ codes "getrandom"
    ∷ codes "pipe2"
    ∷ codes "poll"
    ∷ codes "ppoll"
    ∷ codes "epoll_create1"
    ∷ codes "epoll_ctl"
    ∷ codes "epoll_wait"
    ∷ codes "accept4"
    ∷ codes "recvfrom"
    ∷ codes "sendto"
    ∷ codes "getpid"
    ∷ codes "exit"
    ∷ codes "tgkill"
    ∷ codes "munlockall"
    ∷ codes "wait4"
    ∷ codes "waitid"
    ∷ codes "waitpid"
    ∷ codes "statx"
    ∷ codes "newfstatat"
    ∷ codes "fstatat"
    ∷ codes "unlink"
    ∷ codes "unlinkat"
    ∷ codes "faccessat"
    ∷ codes "faccessat2"
    ∷ codes "socketpair"
    ∷ codes "sigaltstack"
    ∷ codes "sched_getaffinity"
    ∷ codes "setsockopt"
    ∷ codes "fcntl"
    ∷ codes "fstat"
    ∷ codes "arch_prctl"
    ∷ []

pub data Failure : Type 0 where
  no_context load_failed : Failure
  unresolved not_allowed : (name : Bytes) → Failure

pub record Seccomp : Type 0 where
  pub new_filter : Bool
  pub from_name : Bytes → Option ℕ
  pub add_rule : (filter : List ℕ) → (syscall : ℕ) → Bool
  pub load : (filter : List ℕ) → Bool

-- One name of the core list must resolve and be added.
unfoldable pub allow_core : Seccomp → (name : Bytes) → Option ℕ → List ℕ → Result Failure (List ℕ)
allow_core s name none filter = err (unresolved name)
allow_core s name (some syscall) filter =
    if s.add_rule filter syscall then ok (filter ++ syscall ∷ []) else err (not_allowed name)

unfoldable pub add_core : Seccomp → List Bytes → List ℕ → Result Failure (List ℕ)
add_core s [] filter = ok filter
add_core s (name ∷ names) filter =
    allow_core s name (s.from_name name) filter >>= λ grown. add_core s names grown

-- One name of the runtime list is added if it can be.
unfoldable pub allow_runtime : Seccomp → Option ℕ → List ℕ → List ℕ
allow_runtime s none filter = filter
allow_runtime s (some syscall) filter =
    if s.add_rule filter syscall then filter ++ syscall ∷ [] else filter

unfoldable pub add_runtime : Seccomp → List Bytes → List ℕ → List ℕ
add_runtime s [] filter = filter
add_runtime s (name ∷ names) filter =
    add_runtime s names (allow_runtime s (s.from_name name) filter)

-- The filter that is in force afterwards.
unfoldable pub apply : Seccomp → Result Failure (List ℕ)
apply s = do
  ensure s.new_filter no_context
  core ← add_core s conceptual_allowlist []
  let filter = add_runtime s runtime_required core
  ensure (s.load filter) load_failed
  ok filter
