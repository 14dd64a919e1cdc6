-- ===== src/Tests/Server.antt =====
-- The server of rs/crates/motokano/src/server.rs at concrete inputs.
use ningen_shikkaku.Base.{
  ◌+◌, ◌≤◌, ◌<◌, ◌≡◌, ◌⊎◌, refl, not, true, false, none, [], ◌∷◌, List, arith, count_if,
}
use ningen_shikkaku.Base.Text.{codes}
use ningen_shikkaku.Motokano.Counter.{calls}
use ningen_shikkaku.Motokano.Tools.{ToolDef, ToolKind, wipe_tools}
use ningen_shikkaku.Motokano.Server.{
  Server, Runner, Move, exhausts, wakes, disconnects, run, start, call_tool, list_tools,
}
use ningen_shikkaku.Motokano.Server.Calls.{is_success}
use ningen_shikkaku.Motokano.Server.Accounts.{reads, run-reads}
use ningen_shikkaku.Motokano.Server.Listing.{is_listed, is_unknown, list_tools-call_tool}
use ningen_shikkaku.Motokano.Server.Budget.{run-budget}
use ningen_shikkaku.Motokano.Server.Standing.{Standing}

abbrev pub one_tool : List ToolDef
one_tool =
    record {
      name = codes "key";
      description = [];
      kind = ToolKind.static (record { memory = 65 ∷ 66 ∷ []; len = 1; cap = 2; locked = true }) 1;
    }
    ∷ []

abbrev pub no_commands : Runner
no_commands program args = none

-- Three calls of a server that serves two, with the exit between them.
abbrev greedy : List Move
greedy =
    Move.calls (codes "key")
    ∷ Move.calls (codes "key")
    ∷ exhausts
    ∷ Move.calls (codes "key")
    ∷ disconnects
    ∷ wakes
    ∷ []

run-budget_example :
    let s = run no_commands greedy (start (calls 2) true false true one_tool) in
    (count_if is_success (s.1) ≤ 2)
    × (count_if is_success (s.1) + (s.0).counter.remaining ≡ 2)
    × (((s.0).closed ≡ true) ⊎ (0 < (s.0).counter.remaining))
run-budget_example = run-budget 2 true false true one_tool no_commands greedy (ground arith)

abbrev shut : Server
shut = record (start (calls 2) true false true one_tool) { closed = true }

run-reads_example :
    reads (run no_commands greedy (start (calls 2) true false true one_tool)).0
    ≡ count_if is_success (run no_commands greedy (start (calls 2) true false true one_tool)).1
run-reads_example = run-reads (calls 2) true false one_tool no_commands greedy

abbrev opened : Server
opened = record shut { closed = false }

list_tools-call_tool_example :
    (is_unknown (call_tool no_commands (codes "kay") opened).1
      ≡ not (is_listed (codes "kay") (list_tools opened)))
    × (list_tools (record opened { tools = wipe_tools opened.tools }) ≡ list_tools opened)
list_tools-call_tool_example = list_tools-call_tool no_commands (codes "kay") opened refl
