-- ===== src/Motokano/Server/Journal.antt =====
-- The lifecycle log of an MCP server: rs/crates/motokano/src/main.rs opens the sink, the server and
-- its exit (server.rs and lib.rs) make the records, and rs/crates/kiroku writes them.
use ningen_shikkaku.Base.{◌≤◌, ◌<◌, ◌≡◌, sym, subst, Bool, Option, some, List, map, length, All}
use ningen_shikkaku.Base.Text.{Bytes}
use ningen_shikkaku.Kiroku.{Component}
use ningen_shikkaku.Kiroku.Json.{Value}
use ningen_shikkaku.Kiroku.Contract.Text.{IsPrintable}
use ningen_shikkaku.Kiroku.Render.Bound.{IsInRange}
use ningen_shikkaku.Kiroku.Sink.{hex, Sink, open_sink}
use ningen_shikkaku.Kiroku.Sink.Journal.{Entry, journal, ReadsBack, Written, journal-Written}
use ningen_shikkaku.Motokano.Counter.{CounterMode}
use ningen_shikkaku.Motokano.Tools.{ToolDef}
use ningen_shikkaku.Motokano.Server.{Runner, Move, start, run}
use ningen_shikkaku.Motokano.Server.Records.{records, run-start-IsInRange}

-- Whatever calls and exits come to a server, in whatever order, its file grows by its records in
-- their order, each as the compact text of its own step's value with a line break, which the
-- validator accepts, or as a beginning of that line, counted as dropped modulo 2^64: for any clock
-- and any outcomes of the writes, given a sink opened with sixteen random bytes, a printable
-- producer of at most 64 bytes, and a JSON parser that reads the compact text of each record's
-- value back.
pub run-Written :
    (mode : CounterMode) (arm linked sink : Bool) (tools : List ToolDef) (r : Runner)
    (ms : List Move) (from_str : Bytes → Option Value) (producer file bytes : Bytes) (s : Sink)
    (xs : List Entry)
    → map (λ (x : Entry). x.event) xs
      ≡ records (run r ms (start mode arm linked sink tools)).0.trace
    → IsPrintable producer
    → length producer ≤ 64
    → length bytes ≡ 16
    → All (λ b. b < 256) bytes
    → open_sink (some file) (some bytes) Component.motokano ≡ some s
    → All (ReadsBack from_str producer Component.motokano (hex bytes)) xs
    → Written from_str producer Component.motokano (hex bytes) file xs (journal producer xs s)
run-Written mode arm linked sink tools r ms from_str producer file bytes s xs same hp hl hb hr
      opened back =
    journal-Written from_str producer file bytes Component.motokano s xs hp hl hb hr opened
      (subst (All IsInRange) (sym same) (run-start-IsInRange mode arm linked sink tools r ms)) back
