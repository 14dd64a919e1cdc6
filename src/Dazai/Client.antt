-- ===== src/Dazai/Client.antt =====
-- `run_client` of rs/crates/dazai/src/main.rs: the handshake with the daemon, and the loop that holds
-- the heartbeat. What the socket gives is an input; times are not modelled, so a read that times
-- out is a read that fails.
pub mod Lifetime
use ningen_shikkaku.Base.{
  ℕ, ◌+◌, Bool, true, false, not, Option, none, some, List, [], ◌∷◌, if◌then◌else◌,
}
use ningen_shikkaku.Base.Text.{Bytes, codes, contains_text}
use ningen_shikkaku.Base.Utf8.{from_utf8_lossy}
use ningen_shikkaku.Base.Words.{trim}

-- How the client ends; `waiting` where the loop goes on.
pub data ClientEnd : Type 0 where
  no_connection no_hello no_timeout busy unexpected bad_interval closed waiting : ClientEnd

-- One round of the ping loop: whether PING was written, and what the read gave, no bytes at the end
-- of the stream.
pub record Round : Type 0 where
  pub sent : Bool
  pub reply : Option Bytes

-- `takes_timeout` and `retimes` are whether the read timeouts of the handshake and of the loop can be
-- set.
pub record Connection : Type 0 where
  pub connects : Bool
  pub takes_hello : Bool
  pub takes_timeout : Bool
  pub greeting : Option Bytes
  pub retimes : Bool
  pub rounds : List Round
  pub reads : List (Option Bytes)

unfoldable pub has_pong : Option Bytes → Bool
has_pong none = false
has_pong (some []) = false
has_pong (some (c ∷ s)) = contains_text (codes "PONG") (from_utf8_lossy (c ∷ s))

-- How the loop ends, and how many PINGs it has tried to send.
unfoldable pub ping_loop : List Round → ClientEnd × ℕ
ping_loop [] = (waiting, 0)
ping_loop (r ∷ rounds) =
    let rest = ping_loop rounds in
    if r.sent then (if has_pong r.reply then (rest.0, rest.1 + 1) else (closed, 1)) else (closed, 1)

-- Without an interval the client only reads until the stream ends.
unfoldable pub hold_loop : List (Option Bytes) → ClientEnd
hold_loop [] = waiting
hold_loop (none ∷ reads) = closed
hold_loop (some [] ∷ reads) = closed
hold_loop (some (c ∷ s) ∷ reads) = hold_loop reads

-- The greeting as text; a failed read is the empty text.
unfoldable pub greeting_text : Option Bytes → Bytes
greeting_text none = []
greeting_text (some bytes) = trim (from_utf8_lossy bytes)

-- Behind the handshake. `interval` is what `try_from_secs_f64` makes of an interval above 0.
unfoldable pub stay : (positive : Bool) → (interval : Option ℕ) → Connection → ClientEnd × ℕ
stay false interval c = if c.retimes then (hold_loop c.reads, 0) else (no_timeout, 0)
stay true none c = (bad_interval, 0)
stay true (some _) c = if c.retimes then ping_loop c.rounds else (no_timeout, 0)

unfoldable pub on_greeting :
    (reply : Bytes) → (positive : Bool) → (interval : Option ℕ) → Connection → ClientEnd × ℕ
on_greeting reply positive interval c =
    if contains_text (codes "BUSY") reply
    then (busy, 0)
    else if contains_text (codes "WELCOME") reply
    then stay positive interval c
    else (unexpected, 0)

unfoldable pub run_client : (positive : Bool) → (interval : Option ℕ) → Connection → ClientEnd × ℕ
run_client positive interval c =
    if not c.connects
    then (no_connection, 0)
    else if not c.takes_hello
    then (no_hello, 0)
    else if not c.takes_timeout
    then (no_timeout, 0)
    else on_greeting (greeting_text c.greeting) positive interval c
