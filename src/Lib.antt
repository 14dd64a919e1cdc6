-- ===== src/Lib.antt =====
-- ningen-shikkaku: a daemon that destroys itself when its client is lost, and the servers around it,
-- modelled from rs/crates/.
--
-- The program. The daemon `dazai` (crate kikka) watches one heartbeat client. When that is lost, or a
-- signal asks for it, a panic controller decides: not armed, it wipes its secret buffers and stands
-- down; armed, it waits for a grace window, or not at all, and then kills the processes registered
-- with it, wipes its buffers and kills itself. Control clients register pids, arm it and ask for its
-- status over the same socket. `motokano` is a server that gives out secrets for a number of calls and
-- then wipes them and exits. `rei` lets an agent talk to the daemon. `goodnight` holds the locked
-- buffers and the signals, `kiroku` the lifecycle records of all of them.
--
-- Files.
--   Base: shared names, Boolean tests, lists over native numbers, texts as lists of numbers, UTF-8 in
--     both directions, words and trimming, decimal numbers, paths and files.
--   Goodnight/Buffer: `SecretBuffer`, `secure_wipe` (rs/crates/goodnight/src/lib.rs). The mapping is a
--     list of bytes; page size, mmap and mlock are a parameter; sizes are taken modulo 2 ^ 64.
--   Goodnight/Process: `pid_exists`, `send_signal`; kill(2) is a parameter.
--   Kiroku: the vocabulary of lifecycle records, and Kiroku/Render their bytes
--     (rs/crates/kiroku/src/lib.rs).
--   Kiroku/Json, Kiroku/Contract: the parsed value and `validate` (rs/crates/kiroku/src/contract.rs).
--     serde_json is a parameter. Kiroku/Render/Printing has the value that a record stands for and its
--     compact text; Contract/Records, what a record of the contract is, without the checks.
--   Kiroku/Sink: `Sink`, `now_unix_ms`, `random_session_id`; Sink/Journal, many records on one sink.
--   Kekkai: the allowlists and `apply` (rs/crates/kekkai/src/lib.rs), over libseccomp as a parameter.
--   Sienna: `ChildProcess` (rs/crates/sienna/src/lib.rs).
--   Dazai: `run_daemon` (rs/crates/dazai/src/main.rs) as the list of what the process does, given what
--     the system answers; Dazai/Monitor is a state machine that says which order is right. Dazai/Loop
--     puts the loop of Kikka/EventLoop in its place, with the buffers of `make_buffers`. Dazai/Client is
--     `run_client`, Dazai/Paths the default paths, Dazai/Main `run_mcp` and `main`.
--   Goodnight/Limits: the page size, the memory limit and the dump flag.
--   Kikka/Panic: `PanicController` (rs/crates/kikka/src/panic.rs) over a world that stands for what its
--     closures share; Policy has its contract as a phase machine.
--   Kikka/Daemon, Kikka/Control, Kikka/EventLoop: the shared state and the closures of
--     `Watchdog::new`, `process_control`, and `run_with_listener` with `cleanup`
--     (rs/crates/kikka/src/lib.rs). The loop is a step on what it receives; lines of control clients
--     and time come between its rounds, in any order. The lethal closure returns, as in the source's
--     tests, and what follows it is modelled. EventLoop/Struck follows which processes are signalled. EventLoop/Interrupted puts lines between the steps of one
--     self-destruct.
--   Kikka/Heartbeat: `read_line_bounded`, `handle_conn`, `handle_heartbeat`: one connection as a state
--     machine over what its reads give, with the client lock and the generations that they share.
--     Heartbeat/Belief puts them at the other end of the loop's channel; Heartbeat/Deadline follows one.
--   Kikka/Binding: `Watchdog::bind`, over what stands at the path.
--   Kikka/Clients: `handle_control` and `ControlGuard`, any number of them at once.
--   Motokano/Counter: `CallCounter` (rs/crates/motokano/src/counter.rs), sequentially, and with one step
--     for each access of an atomic variable by any number of threads.
--   Motokano/Tools: the registry and `parse_tool_spec` (rs/crates/motokano/src/tools.rs).
--   Motokano/Server: `call_tool` (server.rs), `wipe_and_exit` (lib.rs), and the exit in main.rs. Calls
--     come one after the other; the exit is two halves around its sleep, and everything else can
--     come between them.
--   Motokano/Link: `DazaiLink` (dazai.rs); Link/Registration connects it to the daemon's handler.
--   Motokano/Startup: `counter_mode` and `run` (main.rs) up to the serving.
--   Rei: `DazaiClient` (rs/crates/rei/src/lib.rs); Wire, RoundTrip and Registration connect it to the
--     daemon's own handler. Rei/Server is `DazaiServer`; Server/Agent lets an agent use its tools on a
--     daemon in its loop.
--   Tests: runs at concrete inputs.
--
-- Bounds. Time is a number of ticks, and no clock overflows. Generations do not wrap at 2 ^ 64. Counts
-- in records saturate at 2 ^ 32 - 1, numbers that are read stop at the range of their type. No model
-- runs on fuel: the loops of the source are runs over a list of what happens. The retry in
-- `decrement` goes back to its first step, so an interleaving can retry for ever.
--
-- Not modelled. Argument parsing (dazai, motokano); the
-- protocol libraries rmcp, tokio and serde; standard error.
pub mod Base
pub mod Goodnight
pub mod Kiroku
pub mod Kikka
pub mod Motokano
pub mod Rei
pub mod Kekkai
pub mod Sienna
pub mod Dazai
pub mod Tests
