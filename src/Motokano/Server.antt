-- ===== src/Motokano/Server.antt =====
-- `call_tool` and `run_command` of rs/crates/motokano, `wipe_and_exit` of lib.rs, and what main.rs
-- does when the client goes. The client's calls come one after the other, as stdio gives them; the
-- threads that exit come between them, and between the two halves of an exit: what it does before
-- it sleeps, and what it does behind.
-- The runner of commands is a parameter: for a program and its arguments it gives what the command
-- wrote, or nothing when it could not be run. The texts of errors are not modelled.
pub mod Calls
pub mod Budget
pub mod Standing
pub mod Ending
pub mod Listing
pub mod Accounts
pub mod Records
pub mod Journal
use ningen_shikkaku.Base.{
  ℕ, Bool, true, false, Option, none, some, List, [], ◌∷◌, ◌++◌, if◌then◌else◌,
}
use ningen_shikkaku.Base.Text.{Bytes}
use ningen_shikkaku.Base.Utf8.{from_utf8_lossy}
use ningen_shikkaku.Base.Words.{split_whitespace}
use ningen_shikkaku.Kiroku.{Lifecycle, Reason, KillTarget, ReadKind, ArmVia}
use ningen_shikkaku.Motokano.Counter.{CallCounter, CounterMode, new, decrement, on_disconnect}
use ningen_shikkaku.Motokano.Tools.{
  ToolDef, Action, descriptors, lookup, describe, static_count, wipe_tools,
}

pub data Effect : Type 0 where
  recorded : Lifecycle → Effect
  unregistered zeroized sigkilled exited : Effect

-- The exit context, the counter, and where the exit stands. `spawned` says that a call has started
-- the thread that exits, `exiting` which reason won, and `ended` that the process is gone.
pub record Server : Type 0 where
  pub tools : List ToolDef
  pub counter : CallCounter
  pub closed : Bool
  pub arm : Bool
  pub linked : Bool
  pub sink : Bool
  pub spawned : Bool
  pub exiting : Option Reason
  pub ended : Bool
  pub trace : List Effect

abbrev pub Runner : Type 0
Runner = (program : Bytes) (args : List Bytes) → Option Bytes

pub data Answer : Type 0 where
  no_longer_serving unknown_tool command_failed : Answer
  success : (text : Bytes) → Answer

abbrev pub does : Effect → Server → Server
does e s = record s { trace = s.trace ++ e ∷ [] }

unfoldable pub emit : Lifecycle → Server → Server
emit e s = if s.sink then does (recorded e) s else s

lossy : Option Bytes → Option Bytes
lossy none = none
lossy (some out) = some (from_utf8_lossy out)

run_words : Runner → List Bytes → Option Bytes
unfolding lossy
run_words r [] = none
run_words r (program ∷ args) = lossy (r program args)

unfoldable pub run_command : Runner → Bytes → Option Bytes
unfolding run_words
run_command r cmd = run_words r (split_whitespace cmd)

unfoldable pub record_read : ℕ × ReadKind → Bool → Server → Server
unfolding emit
record_read d served s = emit (Lifecycle.read d.0 d.1 served) s

-- The refusal of a call, recorded when the tool is known.
unfoldable pub refuse : Option (ℕ × ReadKind) → Server → Server × Answer
unfolding record_read
refuse none s = (s, no_longer_serving)
refuse (some d) s = (record_read d false s, no_longer_serving)

-- What an action gives, or nothing when its command fails.
unfoldable pub output_of : Runner → Action → Option Bytes
unfolding run_command
output_of r (Action.static bytes) = some (from_utf8_lossy bytes)
output_of r (Action.exec cmd) = run_command r cmd

-- The end of a call that has its output: the record, the count, and the exit if it was the last.
unfoldable pub complete : ℕ × ReadKind → Bytes → Server → Server × Answer
unfolding record_read
complete d text s =
    let s1 = record_read d true s in
    let (c, last) = decrement s1.counter in
    let s2 = record s1 { counter = c } in
    (if last then record s2 { closed = true; spawned = true } else s2, success text)

unfoldable pub conclude : Option Bytes → ℕ × ReadKind → Server → Server × Answer
unfolding complete record_read
conclude none d s = (record_read d false s, command_failed)
conclude (some text) d s = complete d text s

unfoldable pub dispatch : Runner → Option (ℕ × ReadKind) → Option Action → Server → Server × Answer
unfolding conclude output_of
dispatch r (some d) (some a) s = conclude (output_of r a) d s
dispatch r _ _ s = (s, unknown_tool)

-- What a client is shown of the tools: names with descriptions. All of them take no arguments.
unfoldable pub list_tools : Server → List (Bytes × Bytes)
list_tools s = descriptors s.tools

unfoldable pub call_tool : Runner → Bytes → Server → Server × Answer
unfolding refuse dispatch
call_tool r name s =
    if s.closed
    then refuse (describe name s.tools) s
    else dispatch r (describe name s.tools) (lookup name s.tools) s

-- The best-effort UNREGISTER, of a server that is linked to a daemon.
unfoldable pub unregister : Server → Server
unregister s = if s.linked then does unregistered s else s

-- `wipe_and_exit` up to its sleep. A second caller parks for ever.
unfoldable pub begin_exit : Reason → Server → Server
unfolding unregister
begin_exit r s = elim s.exiting [
  | some _ ↦ s
  | none ↦ unregister (record s { exiting = some r; closed = true })
]

-- The wipe and its record.
unfoldable pub destroy : Reason → Server → Server
unfolding emit
destroy r s =
    let s1 = does zeroized (record s { tools = wipe_tools s.tools }) in
    emit (Lifecycle.wipe r (static_count s1.tools)) s1

-- The exit itself, recorded first.
unfoldable pub depart : Reason → Server → Server
unfolding emit
depart r s =
    if s.arm
    then record (does sigkilled (emit (Lifecycle.kill r KillTarget.self_process 1 true) s)) {
      ended = true;
    }
    else record (does exited (emit (Lifecycle.session_end r) s)) { ended = true }

-- `wipe_and_exit` behind its sleep.
unfoldable pub finish_exit : Server → Server
unfolding destroy depart
finish_exit s = elim s.exiting [ none ↦ s | some r ↦ depart r (destroy r s) ]

-- What can come next: a call of the client, the thread that a call has spawned, the death of the
-- daemon, the client's going, or the end of the sleep.
pub data Move : Type 0 where
  calls : (name : Bytes) → Move
  exhausts daemon_dies disconnects wakes : Move

unfoldable pub step : Runner → Move → Server → Server × List Answer
unfolding call_tool begin_exit finish_exit
step r (calls name) s = let (s', a) = call_tool r name s in (s', a ∷ [])
step r exhausts s = (if s.spawned then begin_exit Reason.calls_exhausted s else s, [])
step r daemon_dies s = (if s.linked then begin_exit Reason.daemon_lost s else s, [])
step r disconnects s =
    (begin_exit Reason.client_disconnect (record s { counter = (on_disconnect s.counter).0 }), [])
step r wakes s = (finish_exit s, [])

-- Nothing follows once the process is gone.
unfoldable pub live_step : Runner → Move → Server → Server × List Answer
unfolding step
live_step r m s = if s.ended then (s, []) else step r m s

unfoldable pub run : Runner → List Move → Server → Server × List Answer
run r [] s = (s, [])
run r (m ∷ ms) s =
    let (s1, as1) = live_step r m s in let (s2, as2) = run r ms s1 in (s2, as1 ++ as2)

-- The server as main.rs starts it.
unfoldable pub start : (mode : CounterMode) (arm linked sink : Bool) → List ToolDef → Server
unfolding emit
start mode arm linked sink tools =
    let s = emit (Lifecycle.session_start arm) (record {
      tools = tools;
      counter = new mode;
      closed = false;
      arm = arm;
      linked = linked;
      sink = sink;
      spawned = false;
      exiting = none;
      ended = false;
      trace = [];
    }) in
    if arm then emit (Lifecycle.arm ArmVia.startup) s else s
