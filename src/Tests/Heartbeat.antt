-- ===== src/Tests/Heartbeat.antt =====
-- Heartbeat connections of rs/crates/kikka/src/lib.rs at concrete inputs.
use ningen_shikkaku.Base.{◌+◌, ◌≤◌, ◌≡◌, refl, some, [], ◌∷◌, List, arith, count_if, if◌then◌else◌}
use ningen_shikkaku.Base.Text.{codes}
use ningen_shikkaku.Kikka.Heartbeat.{
  byte, eof, timed_out, read_line, Move, arrives, proceeds, run, empty,
}
use ningen_shikkaku.Kikka.Heartbeat.Lines.{read_line-IsBounded, IsBounded}
use ningen_shikkaku.Kikka.Heartbeat.Exclusion.{holds, is_connected, is_numbered, one_client}

-- Two connections race for the lock; the winner is lost, and the loser had been refused.
abbrev race : List Move
race =
    arrives
    ∷ arrives
    ∷ proceeds 0 0 timed_out
    ∷ proceeds 1 0 timed_out
    ∷ proceeds 0 0 timed_out
    ∷ proceeds 0 0 timed_out
    ∷ proceeds 0 1 eof
    ∷ proceeds 0 1 timed_out
    ∷ []

one_client_example :
    let l = run (some 5) race empty in
    (count_if holds l.connections ≤ 1)
    × (count_if holds l.connections ≡ (if l.lobby.active then 1 else 0))
    × (count_if is_connected l.lobby.sent + count_if is_numbered l.connections ≡ l.lobby.gen_source)
    × (count_if is_numbered l.connections ≤ 1)
one_client_example = one_client (some 5) race

read_line-IsBounded_example :
    IsBounded (read_line (codes "PI") (byte 78 ∷ byte 71 ∷ byte 10 ∷ [])).0
read_line-IsBounded_example =
    read_line-IsBounded (byte 78 ∷ byte 71 ∷ byte 10 ∷ []) (codes "PI") (refl, (refl, tt))
      (ground arith)
