-- ===== src/Kikka/Clients.antt =====
-- `handle_control` and `ControlGuard` of rs/crates/kikka/src/lib.rs: control connections, each on a
-- thread of its own, over the shared daemon and the count of connections in flight. A step is one
-- access of that count, one request, or one read of a line; `read_line_bounded` gives the line.
pub mod Bounds
use ningen_shikkaku.Base.{
  ℕ, zero, suc, ◌+◌, ◌-◌, Bool, true, false, List, [], ◌∷◌, leb, if◌then◌else◌,
}
use ningen_shikkaku.Base.Text.{Bytes, codes}
use ningen_shikkaku.Goodnight.Process.{Kernel}
use ningen_shikkaku.Kikka.Daemon.{Daemon}
use ningen_shikkaku.Kikka.Control.{process_control}
use ningen_shikkaku.Kikka.Heartbeat.{Line, line, blocked}

abbrev pub max_control : ℕ
max_control = 16

-- Before the count, with a line to answer, before its next line, before the guard is dropped, and
-- gone.
pub data Place : Type 0 where
  opening serving : (text : Bytes) → Place
  reading closing gone : Place

pub record Shared : Type 0 where
  pub daemon : Daemon
  pub in_flight : ℕ

abbrev next_place : Line → Place
next_place (line text) = serving text
next_place blocked = reading
next_place _ = closing

-- A step of one connection, with the line that comes next; it gives what is written.
unfoldable pub step : Kernel → ℕ → Line → Place → Shared → Shared × Place × Bytes
step k grace l (opening text) s = (
  record s { in_flight = s.in_flight + 1 },
  (if leb max_control s.in_flight then closing else serving text),
  (if leb max_control s.in_flight then codes "BUSY\n" else []),
)
step k grace l (serving text) s =
    let (d, reply, stays) = process_control k grace text s.daemon in
    (record s { daemon = d }, (if stays then reading else closing), reply)
step k grace l reading s = (s, next_place l, [])
step k grace l closing s = (record s { in_flight = s.in_flight - 1 }, gone, [])
step k grace l gone s = (s, gone, [])

unfoldable pub advance : ℕ → Kernel → ℕ → Line → List Place → Shared → Shared × List Place
unfolding step
advance i k grace l [] s = (s, [])
advance zero k grace l (p ∷ ps) s = let (s', p', _) = step k grace l p s in (s', p' ∷ ps)
advance (suc i) k grace l (p ∷ ps) s = let (s', ps') = advance i k grace l ps s in (s', p ∷ ps')

-- A new connection with its first line, or a step of the connection at an index.
pub data Move : Type 0 where
  arrives : (text : Bytes) → Move
  proceeds : (index : ℕ) → Line → Move

pub record Office : Type 0 where
  pub shared : Shared
  pub connections : List Place

unfoldable pub move : Kernel → ℕ → Move → Office → Office
move k grace (arrives text) o = record o { connections = opening text ∷ o.connections }
move k grace (proceeds i l) o =
    let (s, ps) = advance i k grace l o.connections o.shared in
    record { shared = s; connections = ps }

unfoldable pub run : Kernel → ℕ → List Move → Office → Office
run k grace [] o = o
run k grace (m ∷ ms) o = run k grace ms (move k grace m o)

abbrev pub opened : Daemon → Office
opened d = record { shared = record { daemon = d; in_flight = 0 }; connections = [] }
