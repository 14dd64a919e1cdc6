-- ===== src/Motokano/Startup.antt =====
-- `counter_mode` and `run` of rs/crates/motokano/src/main.rs up to the serving. The arguments come
-- parsed, and the system's answers are inputs.
pub mod Oneshot
use ningen_shikkaku.Base.{ℕ, Bool, true, false, Option, none, some, List, [], ◌∷◌, if◌then◌else◌}
use ningen_shikkaku.Base.Text.{Bytes}
use ningen_shikkaku.Base.Results.{Result, ok, err, ◌>>=◌, ◌>>◌}
use ningen_shikkaku.Goodnight.Buffer.{Memory}
use ningen_shikkaku.Motokano.Counter.{CounterMode}
use ningen_shikkaku.Motokano.Tools.{ToolDef}
use ningen_shikkaku.Motokano.Tools.Spec.{SpecError, Parsed, parse_tool_spec}
use ningen_shikkaku.Motokano.Link.{DazaiLink, LinkError, connect}
use ningen_shikkaku.Motokano.Server.{Server, start}

unfoldable pub counter_mode : (session : Bool) → (calls : Option ℕ) → CounterMode
counter_mode false none = CounterMode.calls 1
counter_mode false (some n) = CounterMode.calls n
counter_mode true none = CounterMode.session
counter_mode true (some n) = CounterMode.either n

pub record Cli : Type 0 where
  pub calls : Option ℕ
  pub session : Bool
  pub dazai_socket : Bool
  pub arm : Bool
  pub tool : List Bytes
  pub korg_sink : Bool

-- What the system answers: whether the sink opens, the memory, and the daemon's end of the socket.
pub record Host : Type 0 where
  pub sink_opens : Bool
  pub memory : Memory
  pub own_pid : ℕ
  pub connects : Bool
  pub sends : Bool
  pub exchange : Bytes → Option Bytes

pub data StartError : Type 0 where
  no_sink : StartError
  bad_tool : SpecError → StartError
  no_link : LinkError → StartError

abbrev parsed_tool : Parsed ToolDef → Result StartError ToolDef
parsed_tool (Parsed.parsed t) = ok t
parsed_tool (Parsed.refused e) = err (bad_tool e)

unfoldable pub parse_tools : Memory → List Bytes → Result StartError (List ToolDef)
parse_tools m [] = ok []
parse_tools m (spec ∷ specs) =
    parsed_tool (parse_tool_spec m spec) >>= λ t. parse_tools m specs >>= λ ts. ok (t ∷ ts)

unfoldable pub open_sink : (wanted opens : Bool) → Result StartError (Unit {0})
open_sink false opens = ok tt
open_sink true true = ok tt
open_sink true false = err no_sink

linked : Result LinkError DazaiLink → Result StartError (Unit {0})
linked (ok l) = ok tt
linked (err e) = err (no_link e)

unfoldable pub link : Host → (wanted : Bool) → Result StartError (Unit {0})
unfolding linked
link h false = ok tt
link h true = linked (connect h.connects h.sends h.exchange h.own_pid)

-- `run` up to the serving: the sink, the tools, the link, and then the first records.
unfoldable pub launch : Host → Cli → Result StartError Server
launch h cli = do
  open_sink cli.korg_sink h.sink_opens
  tools ← parse_tools h.memory cli.tool
  link h cli.dazai_socket
  ok (start (counter_mode cli.session cli.calls) cli.arm cli.dazai_socket cli.korg_sink tools)
