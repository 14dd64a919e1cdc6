-- ===== src/Goodnight/Limits.antt =====
-- `page_size`, `try_raise_memlock_rlimit` and `set_process_undumpable` of
-- rs/crates/goodnight/src/lib.rs, on Linux. What the kernel answers is an input.
use ningen_shikkaku.Base.{ℕ, ◌-◌, ◌^◌, Bool, Option, none, some, if◌then◌else◌}

-- `sysconf` is the answer where it is above 0.
unfoldable pub page_size : (sysconf : Option ℕ) → ℕ
page_size none = 4096
page_size (some size) = size

pub record Rlimit : Type 0 where
  pub rlim_cur : ℕ
  pub rlim_max : ℕ

-- `RLIM_INFINITY`
abbrev pub rlim_infinity : ℕ
rlim_infinity = 2 ^ 64 - 1

-- `Ok(true)`, `Ok(false)` and `Err`.
pub data Raised : Type 0 where
  raised refused unread : Raised

unfoldable pub try_raise_memlock_rlimit :
    (getrlimit : Option Rlimit) → (setrlimit : Rlimit → Bool) → Raised
try_raise_memlock_rlimit none setrlimit = unread
try_raise_memlock_rlimit (some lim) setrlimit =
    let unlimited : Rlimit = record lim { rlim_cur = rlim_infinity; rlim_max = rlim_infinity } in
    if setrlimit unlimited then raised else refused

-- Whether `prctl` answers 0.
unfoldable pub set_process_undumpable : (prctl : Bool) → Bool
set_process_undumpable prctl = prctl
