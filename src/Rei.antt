-- ===== src/Rei.antt =====
-- `DazaiClient` of rs/crates/rei/src/lib.rs: the client of the daemon's control socket.
-- What tokio gives back for one request on a fresh connection is a parameter, as are the content
-- of the pid file and the sender of signals.
pub mod Wire
pub mod RoundTrip
pub mod Registration
pub mod Guard
pub mod Pidfile
pub mod Server
use ningen_shikkaku.Base.{
  ℕ, ◌^◌, ◌-◌, Bool, true, false, ◌||◌, Option, none, some, List, [], ◌∷◌, ◌++◌, ◌==◌,
  if◌then◌else◌,
}
use ningen_shikkaku.Base.Paths.{Files, with_extension}
use ningen_shikkaku.Base.Text.{Bytes, codes, text_eq, strip_prefix}
use ningen_shikkaku.Base.Words.{split_whitespace, trim}
use ningen_shikkaku.Base.Decimal.{show, parse_uint}
use ningen_shikkaku.Kikka.Control.{u32_max}
use ningen_shikkaku.Kikka.EventLoop.{Signal, sigusr1, sigusr2}

abbrev pub u64_max : ℕ
u64_max = 2 ^ 64 - 1

pub record StatusOut : Type 0 where
  pub alive : Bool
  pub armed : Bool
  pub grace_seconds : ℕ
  pub registered_pids : ℕ

abbrev pub dead : StatusOut
dead = record { alive = false; armed = false; grace_seconds = 0; registered_pids = 0 }

pub record ActionOut : Type 0 where
  pub ok : Bool
  pub message : Bytes

pub record ArmOut : Type 0 where
  pub armed : Bool
  pub message : Bytes

-- What the round trip gives: the line that was read, or the text of an error.
pub data Reply : Type 0 where
  answered : Bytes → Reply
  failed : (error : Bytes) → Reply

pub record DazaiClient : Type 0 where
  pub exchange : (sent : Bytes) → Reply
  pub pidfile : Option Bytes
  pub signal_fn : (pid : ℕ) → Signal → Bool

-- `DazaiClient::new`, over what each socket answers and the files there are.
unfoldable pub new_client :
    (connect : Bytes → Bytes → Reply)
    → Files
    → (signal_fn : ℕ → Signal → Bool) → (socket : Bytes) → DazaiClient
unfolding with_extension
new_client connect files signal_fn socket = record {
  exchange = connect socket;
  pidfile = files (with_extension (codes "pid") socket);
  signal_fn = signal_fn;
}

trimmed : Reply → Reply
trimmed (answered line) = answered (trim line)
trimmed (failed e) = failed e

unfoldable pub daemon_request : DazaiClient → Bytes → Reply
unfolding trimmed
daemon_request c msg = trimmed (c.exchange (msg ++ b'\n' ∷ []))

-- `parse().unwrap_or(0)`
or_zero : Option ℕ → ℕ
or_zero (some n) = n
or_zero none = 0

-- One token; the first prefix that fits decides.
unfoldable pub set_token : Bytes → StatusOut → StatusOut
unfolding or_zero
set_token tok out = elim (strip_prefix (codes "alive=") tok) [
  | some v ↦ record out { alive = text_eq v (codes "1") }
  | none ↦ elim (strip_prefix (codes "armed=") tok) [
    | some v ↦ record out { armed = text_eq v (codes "1") }
    | none ↦ elim (strip_prefix (codes "grace=") tok) [
      | some v ↦ record out { grace_seconds = or_zero (parse_uint u64_max v) }
      | none ↦ elim (strip_prefix (codes "registered=") tok) [
        | some v ↦ record out { registered_pids = or_zero (parse_uint u32_max v) }
        | none ↦ out
      ]
    ]
  ]
]

unfoldable pub set_tokens : List Bytes → StatusOut → StatusOut
set_tokens [] out = out
set_tokens (tok ∷ toks) out = set_tokens toks (set_token tok out)

unfoldable pub parse_status : Bytes → StatusOut
parse_status line = set_tokens (split_whitespace line) dead

status_of : Reply → StatusOut
status_of (answered line) = parse_status line
status_of (failed _) = dead

unfoldable pub status : DazaiClient → StatusOut
unfolding status_of daemon_request
status c = status_of (daemon_request c (codes "STATUS"))

or_no_reply : Bytes → Bytes
or_no_reply [] = codes "no reply"
or_no_reply line = line

unfoldable pub unreachable : Bytes → Bytes
unreachable e = codes "daemon unreachable: " ++ e

action_of : Reply → ActionOut
unfolding unreachable or_no_reply
action_of (answered line) = record { ok = text_eq line (codes "OK"); message = or_no_reply line }
action_of (failed e) = record { ok = false; message = unreachable e }

unfoldable pub action : DazaiClient → Bytes → ActionOut
unfolding action_of daemon_request
action c msg = action_of (daemon_request c msg)

unfoldable pub register_request : ℕ → Bytes
register_request pid = codes "REGISTER" ++ (0x20 ∷ (codes "pid=" ++ show pid))

unfoldable pub unregister_request : ℕ → Bytes
unregister_request pid = codes "UNREGISTER" ++ (0x20 ∷ (codes "pid=" ++ show pid))

unfoldable pub register : DazaiClient → ℕ → ActionOut
unfolding action
register c pid = action c (register_request pid)

unfoldable pub unregister : DazaiClient → ℕ → ActionOut
unfolding action
unregister c pid = action c (unregister_request pid)

arm_of : Reply → ArmOut
unfolding unreachable or_no_reply
arm_of (answered line) = record {
  armed = text_eq line (codes "OK") || text_eq line (codes "ALREADY_ARMED");
  message = or_no_reply line;
}
arm_of (failed e) = record { armed = false; message = unreachable e }

unfoldable pub arm : DazaiClient → ArmOut
unfolding arm_of daemon_request
arm c = arm_of (daemon_request c (codes "ARM"))

-- `lines().next()`; a carriage return at its end falls to the `trim` that follows.
unfoldable pub first_line : Bytes → Bytes
first_line [] = []
first_line (c ∷ s) = let rest = first_line s in if c == b'\n' then [] else c ∷ rest

unfoldable pub read_daemon_pid : Option Bytes → Option ℕ
unfolding first_line
read_daemon_pid none = none
read_daemon_pid (some []) = none
read_daemon_pid (some (c ∷ s)) = parse_uint u32_max (trim (first_line (c ∷ s)))

-- Whether the panic was delivered, and the signals that were sent.
unfoldable pub panic : DazaiClient → (hard : Bool) → Bool × List (ℕ × Signal)
panic c hard =
    if (status c).alive
    then elim (read_daemon_pid c.pidfile) [
      | none ↦ (false, [])
      | some pid ↦
          let signum = if hard then Signal.sigusr2 else Signal.sigusr1 in
          (c.signal_fn pid signum, (pid, signum) ∷ [])
    ]
    else (false, [])
