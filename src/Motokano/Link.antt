-- ===== src/Motokano/Link.antt =====
-- `DazaiLink` of rs/crates/motokano/src/dazai.rs: the registration with the daemon, and the monitor
-- thread. What the socket gives is an input; times are not modelled, so a read that times out is a
-- read that fails.
pub mod Registration
use ningen_shikkaku.Base.{
  ℕ, ◌+◌, Bool, true, false, not, Option, none, some, List, [], ◌∷◌, ◌++◌, if◌then◌else◌,
}
use ningen_shikkaku.Base.Text.{Bytes, codes, contains_text}
use ningen_shikkaku.Base.Utf8.{from_utf8_lossy}
use ningen_shikkaku.Base.Decimal.{show}
use ningen_shikkaku.Base.Results.{Result, ok, err}
use ningen_shikkaku.Kiroku.{Reason}

-- `has_stream` is whether the monitor's stream is still there to be taken.
pub record DazaiLink : Type 0 where
  pub own_pid : ℕ
  pub has_stream : Bool

pub data LinkError : Type 0 where
  not_connected not_sent no_reply refused : LinkError

abbrev pub register_line : ℕ → Bytes
register_line own_pid = codes "REGISTER pid=" ++ show own_pid

abbrev pub unregister_line : ℕ → Bytes
unregister_line own_pid = codes "UNREGISTER pid=" ++ show own_pid

-- What the read gives, no bytes at the end of the stream.
unfoldable pub on_reply : ℕ → Option Bytes → Result LinkError DazaiLink
on_reply own_pid none = err no_reply
on_reply own_pid (some bytes) =
    if contains_text (codes "OK") (from_utf8_lossy bytes)
    then ok (record { own_pid = own_pid; has_stream = true })
    else err refused

-- `exchange` is the other end: for what is written, what the read gives.
unfoldable pub connect :
    (connects sends : Bool) (exchange : Bytes → Option Bytes) (own_pid : ℕ)
    → Result LinkError DazaiLink
connect connects sends exchange own_pid =
    if not connects
    then err not_connected
    else if not sends
    then err not_sent
    else on_reply own_pid (exchange (register_line own_pid ++ b'\n' ∷ []))

-- Whether this call starts the thread.
unfoldable pub spawn_monitor : DazaiLink → DazaiLink × Bool
spawn_monitor l = (record l { has_stream = false }, l.has_stream)

-- One round of the monitor.
pub record Beat : Type 0 where
  pub sent : Bool
  pub reply : Option Bytes

unfoldable pub is_alive : Option Bytes → Bool
is_alive none = false
is_alive (some []) = false
is_alive (some (c ∷ s)) = true

-- Why the monitor calls `wipe_and_exit`, if it does, and how many PINGs it has tried to send.
unfoldable pub monitor : List Beat → Option Reason × ℕ
monitor [] = (none, 0)
monitor (b ∷ beats) =
    let rest = monitor beats in
    if b.sent
    then (if is_alive b.reply then (rest.0, rest.1 + 1) else (some Reason.daemon_lost, 1))
    else (some Reason.daemon_lost, 1)

-- What `unregister` writes, where it can connect.
unfoldable pub unregister : (connects : Bool) → DazaiLink → Option Bytes
unregister connects l = if connects then some (unregister_line l.own_pid ++ b'\n' ∷ []) else none
