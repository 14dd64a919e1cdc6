-- ===== src/Kikka/Heartbeat.antt =====
-- `read_line_bounded`, `handle_conn` and `handle_heartbeat` of rs/crates/kikka/src/lib.rs: a
-- connection as a state machine over what its reads give. Every connection has a thread of its
-- own, and they share the client lock, the source of generations, and the channel to the loop;
-- each access of one of these is one step. Failures of writing are dropped by the source.
pub mod Exclusion
pub mod Lines
pub mod Belief
pub mod Deadline
use ningen_shikkaku.Base.{
  ℕ, zero, suc, ◌+◌, Bool, true, false, Option, none, some, List, [], ◌∷◌, ◌++◌, length, ◌==◌, leb,
  if◌then◌else◌,
}
use ningen_shikkaku.Base.Text.{Bytes, codes, text_eq}
use ningen_shikkaku.Kikka.Control.{first_word_upper}
use ningen_shikkaku.Kikka.EventLoop.{Event, connected, heartbeat_lost, ping_timeout, cancels, quits}

abbrev pub max_line : ℕ
max_line = 8192

-- What `read_byte` gives.
pub data Read : Type 0 where
  byte : ℕ → Read
  eof timed_out broken : Read

-- What a bounded line read gives; `blocked` when nothing more comes.
pub data Line : Type 0 where
  line : Bytes → Line
  nothing error blocked : Line

ended_by_eof : Bytes → Line
ended_by_eof [] = nothing
ended_by_eof (c ∷ s) = line (c ∷ s)

-- The line read so far, and the reads to come.
unfoldable pub read_line : Bytes → List Read → Line × List Read
unfolding ended_by_eof
read_line buf [] = (blocked, [])
read_line buf (eof ∷ rs) = (ended_by_eof buf, rs)
read_line buf (byte c ∷ rs) =
    let grown = buf ++ c ∷ [] in
    let rest = read_line grown rs in
    if c == b'\n' then (line buf, rs) else if leb max_line (length grown) then (error, rs) else rest
read_line buf (_ ∷ rs) = (error, rs)

-- Where a connection stands behind its first line, HELLO: before the lock, before its generation,
-- before the loop is told, in its loop, before it frees the lock, before the loop is told of its
-- end, and over.
pub data Pc : Type 0 where
  hello swapped over : Pc
  numbered : (generation : ℕ) → Pc
  live : (generation : ℕ) (text : Bytes) (deadline : Option ℕ) → Pc
  ending ended : Event → Pc

pub record Lobby : Type 0 where
  pub active : Bool
  pub gen_source : ℕ
  pub sent : List Event

abbrev pub tell : Event → Lobby → Lobby
tell e b = record b { sent = b.sent ++ e ∷ [] }

later : Option ℕ → ℕ → Option ℕ
later none now = none
later (some t) now = some (now + t)

pub data Verb : Type 0 where
  hello_verb ping_verb cancel_verb quit_verb blank unknown : Verb

unfoldable pub verb_of : Bytes → Verb
verb_of w =
    if text_eq w (codes "HELLO")
    then hello_verb
    else if text_eq w (codes "PING")
    then ping_verb
    else if text_eq w (codes "CANCEL")
    then cancel_verb
    else if text_eq w (codes "QUIT")
    then quit_verb
    else if text_eq w []
    then blank
    else unknown

-- A connection's step gives the shared state, its new place, and what it writes.
abbrev pub Stepped : Type 0
Stepped = Lobby × Pc × Bytes

-- A whole line; every one but QUIT starts the ping deadline anew.
unfoldable pub on_verb : ℕ → Option ℕ → Verb → Lobby → Stepped
on_verb g deadline hello_verb b = (b, live g [] deadline, codes "WELCOME\n")
on_verb g deadline ping_verb b = (b, live g [] deadline, codes "PONG\n")
on_verb g deadline cancel_verb b = (tell cancels b, live g [] deadline, codes "CANCELLED\n")
on_verb g deadline quit_verb b = (b, ending quits, codes "BYE\n")
on_verb g deadline blank b = (b, live g [] deadline, [])
on_verb g deadline unknown b = (b, live g [] deadline, codes "ERR unknown-verb\n")

unfoldable pub on_read : Option ℕ → ℕ → Read → ℕ → Bytes → Option ℕ → Lobby → Stepped
unfolding on_verb later
on_read ping now eof g text dl b = (b, ending (heartbeat_lost g), [])
on_read ping now broken g text dl b = (b, ending (heartbeat_lost g), [])
on_read ping now timed_out g text dl b = (b, live g text dl, [])
on_read ping now (byte c) g text dl b =
    let grown = text ++ c ∷ [] in
    if c == b'\n'
    then on_verb g (later ping now) (verb_of (first_word_upper text)) b
    else if leb max_line (length grown)
    then (b, ending (heartbeat_lost g), [])
    else (b, live g grown dl, [])

abbrev is_over : Option ℕ → ℕ → Bool
is_over none now = false
is_over (some dl) now = leb dl now

-- `ping` is the missed-ping deadline, `now` the clock, and the read what the connection gives next.
unfoldable pub step : Option ℕ → ℕ → Read → Pc → Lobby → Stepped
unfolding on_read later
step ping now r hello b = (
  record b { active = true },
  (if b.active then over else swapped),
  (if b.active then codes "BUSY\n" else []),
)
step ping now r swapped b =
    (record b { gen_source = b.gen_source + 1 }, numbered (b.gen_source + 1), [])
step ping now r (numbered g) b =
    (tell (connected g) b, live g [] (later ping now), codes "WELCOME\n")
step ping now r (live g text dl) b =
    if is_over dl now then (b, ending (ping_timeout g), []) else on_read ping now r g text dl b
step ping now r (ending e) b = (record b { active = false }, ended e, [])
step ping now r (ended e) b = (tell e b, over, [])
step ping now r over b = (b, over, [])

pub data Role : Type 0 where
  heartbeat control dropped : Role

-- The first line of a connection decides what it is.
unfoldable pub role_of : Line → Role
role_of (line text) = if text_eq (first_word_upper text) (codes "HELLO") then heartbeat else control
role_of _ = dropped

-- All connections that have said HELLO.
pub record Lounge : Type 0 where
  pub lobby : Lobby
  pub connections : List Pc

unfoldable pub advance : ℕ → Option ℕ → ℕ → Read → List Pc → Lobby → Lobby × List Pc
unfolding step
advance i ping now r [] b = (b, [])
advance zero ping now r (p ∷ ps) b = let (b', p', _) = step ping now r p b in (b', p' ∷ ps)
advance (suc i) ping now r (p ∷ ps) b = let (b', ps') = advance i ping now r ps b in (b', p ∷ ps')

-- A new connection, or a step of the connection at an index.
pub data Move : Type 0 where
  arrives : Move
  proceeds : (index now : ℕ) → Read → Move

unfoldable pub move : Option ℕ → Move → Lounge → Lounge
move ping arrives l = record l { connections = hello ∷ l.connections }
move ping (proceeds i now r) l =
    let (b, ps) = advance i ping now r l.connections l.lobby in
    record { lobby = b; connections = ps }

unfoldable pub run : Option ℕ → List Move → Lounge → Lounge
run ping [] l = l
run ping (m ∷ ms) l = run ping ms (move ping m l)

abbrev pub empty : Lounge
empty = record { lobby = record { active = false; gen_source = 0; sent = [] }; connections = [] }
