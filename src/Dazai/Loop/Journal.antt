-- ===== src/Dazai/Loop/Journal.antt =====
-- The lifecycle log of the dazai daemon: `run_daemon` (rs/crates/dazai/src/main.rs) opens the sink,
-- the loop (rs/crates/kikka/src/lib.rs) makes the records, and rs/crates/kiroku writes them.
use ningen_shikkaku.Base.{ℕ, ◌≤◌, ◌<◌, ◌≡◌, sym, subst, Bool, Option, some, List, map, length, All}
use ningen_shikkaku.Base.Text.{Bytes}
use ningen_shikkaku.Goodnight.Process.{Kernel}
use ningen_shikkaku.Kiroku.{Component}
use ningen_shikkaku.Kiroku.Json.{Value}
use ningen_shikkaku.Kiroku.Contract.Text.{IsPrintable}
use ningen_shikkaku.Kiroku.Render.Bound.{IsInRange}
use ningen_shikkaku.Kiroku.Sink.{hex, Sink, open_sink}
use ningen_shikkaku.Kiroku.Sink.Journal.{Entry, journal, ReadsBack, Written, journal-Written}
use ningen_shikkaku.Kikka.EventLoop.{Action}
use ningen_shikkaku.Kikka.EventLoop.Records.{records, run-start-IsInRange}
use ningen_shikkaku.Dazai.{Host, DaemonArgs, make_buffers}
use ningen_shikkaku.Dazai.Loop.{secrets, grace_of, serve_start, serve}

-- Whatever happens to a daemon, in whatever order, its file grows by its records in their order,
-- each as the compact text of its own step's value with a line break, which the validator accepts,
-- or as a beginning of that line, counted as dropped modulo 2^64: for any clock and any outcomes
-- of the writes, given a sink opened with sixteen random bytes, a printable producer of at most 64
-- bytes, and a JSON parser that reads the compact text of each record's value back.
pub serve-Written :
    (k : Kernel) (h : Host) (args : DaemonArgs) (armed : Bool) (now : ℕ) (actions : List Action)
    (from_str : Bytes → Option Value) (producer file bytes : Bytes) (s : Sink) (xs : List Entry)
    → map (λ (x : Entry). x.event) xs ≡ records (serve k h args armed now actions).daemon.trace
    → IsPrintable producer
    → length producer ≤ 64
    → length bytes ≡ 16
    → All (λ b. b < 256) bytes
    → open_sink (some file) (some bytes) Component.dazai ≡ some s
    → All (ReadsBack from_str producer Component.dazai (hex bytes)) xs
    → Written from_str producer Component.dazai (hex bytes) file xs (journal producer xs s)
unfolding serve serve_start
serve-Written k h args armed now actions from_str producer file bytes s xs same hp hl hb hr opened
      back =
    journal-Written from_str producer file bytes Component.dazai s xs hp hl hb hr opened
      (subst (All IsInRange) (sym same) (
        run-start-IsInRange k (grace_of args.grace) now armed args.korg_sink
          (secrets (make_buffers h.key_memory h.work_memory args.size).0) actions))
      back
