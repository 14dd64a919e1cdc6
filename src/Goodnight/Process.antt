-- ===== src/Goodnight/Process.antt =====
-- `pid_exists`, `send_signal`, `sigkill_pid` of rs/crates/goodnight/src/lib.rs.
-- The kernel's `kill(2)` is a parameter: for a pid and a signal it answers 0, EPERM or another
-- error number.
use ningen_shikkaku.Base.{
  ℕ, ◌-◌, ◌^◌, ◌≤◌, ◌<◌, ◌≡◌, Bool, true, false, ◌||◌, ◌==◌, ltb, if◌then◌else◌, arith,
}

pub data KillAnswer : Type 0 where
  delivered eperm other_error : KillAnswer

abbrev pub Kernel : Type 0
Kernel = ℕ → ℕ → KillAnswer

abbrev pub sigkill : ℕ
sigkill = 9

-- `i32::MAX as u32`
abbrev pub pid_max : ℕ
pid_max = 2 ^ 31 - 1

pub exists_answer : KillAnswer → Bool
exists_answer delivered = true
exists_answer eperm = true
exists_answer other_error = false

pub delivered_answer : KillAnswer → Bool
delivered_answer delivered = true
delivered_answer eperm = false
delivered_answer other_error = false

unfoldable pub pid_exists : Kernel → ℕ → Bool
unfolding exists_answer
pid_exists k pid = if pid == 0 || ltb pid_max pid then false else exists_answer (k pid 0)

unfoldable pub send_signal : Kernel → ℕ → ℕ → Bool
unfolding delivered_answer
send_signal k pid signum =
    if pid == 0 || ltb pid_max pid then false else delivered_answer (k pid signum)

unfoldable pub sigkill_pid : Kernel → ℕ → Bool
sigkill_pid k pid = send_signal k pid sigkill

abbrev pub IsPid : ℕ → Type 0
IsPid pid = (0 < pid) × (pid ≤ pid_max)

-- Only a positive `pid_t` passes, so a process group is never tested.
pub pid_exists-IsPid : (k : Kernel) (pid : ℕ) → pid_exists k pid ≡ true → IsPid pid
unfolding pid_exists
pid_exists-IsPid k pid h = ground arith

pub send_signal-IsPid : (k : Kernel) (pid signum : ℕ) → send_signal k pid signum ≡ true → IsPid pid
unfolding send_signal
send_signal-IsPid k pid signum h = ground arith
