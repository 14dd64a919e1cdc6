-- ===== src/Tests/Startup.antt =====
-- The start of a server (rs/crates/motokano/src/main.rs) and its link to the daemon (dazai.rs) at
-- concrete inputs.
use ningen_shikkaku.Base.{
  ◌+◌, ◌≤◌, ◌<◌, ◌≡◌, ◌⊎◌, ◌&&◌, refl, true, false, none, some, [], ◌∷◌, List, arith, count_if,
  if◌then◌else◌,
}
use ningen_shikkaku.Base.Text.{codes, text_eq}
use ningen_shikkaku.Base.Words.{trim}
use ningen_shikkaku.Base.Results.{ok, err}
use ningen_shikkaku.Goodnight.Process.{Kernel, delivered, pid_exists}
use ningen_shikkaku.Kiroku.{Reason}
use ningen_shikkaku.Kikka.Daemon.{Daemon}
use ningen_shikkaku.Kikka.Control.{contains, process_control}
use ningen_shikkaku.Motokano.Tools.{ToolDef, ToolKind}
use ningen_shikkaku.Motokano.Tools.Spec.{describe_default, parse_tool_spec, split_commas}
use ningen_shikkaku.Motokano.Server.{Server, Runner, Move, start, run}
use ningen_shikkaku.Motokano.Server.Calls.{is_success}
use ningen_shikkaku.Motokano.Link.{LinkError, register_line, connect}
use ningen_shikkaku.Motokano.Link.Registration.{daemon_end, connect-served}
use ningen_shikkaku.Motokano.Startup.{Cli, Host, counter_mode, launch, open_sink, parse_tools, link}
use ningen_shikkaku.Motokano.Startup.Oneshot.{launch-budget}

abbrev everyone : Kernel
everyone = λ _ _. delivered

abbrev daemon : Daemon
daemon = record {
  armed = false;
  registered = 7 ∷ [];
  buffers = [];
  stop = false;
  trigger = Reason.shutdown;
  sink = false;
  socket = true;
  now = 0;
  trace = [];
}

connect-served_example : connect true true (daemon_end everyone 5 daemon) 42 ≡ (
    if pid_exists everyone 42
      && contains 42 (process_control everyone 5 (register_line 42) daemon).0.registered
    then ok (record { own_pid = 42; has_stream = true })
    else err LinkError.refused)
connect-served_example = connect-served everyone 5 42 daemon (ground arith)

abbrev date_tool : List ToolDef
date_tool =
    record {
      name = codes "date";
      description = describe_default (codes "date") (codes "exec");
      kind = ToolKind.exec (codes "date -u");
    }
    ∷ []

abbrev arguments : Cli
arguments = record {
  calls = none;
  session = false;
  dazai_socket = false;
  arm = true;
  tool = codes "name=date,kind=exec,cmd=date -u" ∷ [];
  korg_sink = false;
}

abbrev host : Host
host = record {
  sink_opens = true;
  memory = record { page_size = 4096; mmap = λ _. true; mlock = λ _. true };
  own_pid = 42;
  connects = true;
  sends = true;
  exchange = λ _. none;
}

abbrev served : Server
served = start (counter_mode false none) true false false date_tool

launched : launch host arguments ≡ ok served
unfolding launch open_sink parse_tools link parse_tool_spec split_commas text_eq trim
launched = refl

abbrev clock : Runner
clock program args = some (codes "now")

abbrev twice : List Move
twice = Move.calls (codes "date") ∷ Move.calls (codes "date") ∷ []

launch-budget_example :
    let s = run clock twice served in
    (count_if is_success (s.1) ≤ 1)
    × (count_if is_success (s.1) + (s.0).counter.remaining ≡ 1)
    × (((s.0).closed ≡ true) ⊎ (0 < (s.0).counter.remaining))
launch-budget_example = launch-budget host arguments served clock twice launched refl (ground arith)
