-- ===== src/Motokano/Server/Records.antt =====
-- The lifecycle records that an MCP server makes (rs/crates/motokano/src/server.rs and lib.rs).
use ningen_shikkaku.Base.{
  ℕ, ◌≤◌, Bool, true, false, Option, none, some, List, [], ◌∷◌, All, All-append, arith, branch,
  Option-cases, inl, inr,
}
use ningen_shikkaku.Base.Text.{Bytes}
use ningen_shikkaku.Kiroku.{Lifecycle, KillTarget, Reason, ReadKind, ArmVia}
use ningen_shikkaku.Kiroku.Render.Bound.{IsInRange}
use ningen_shikkaku.Motokano.Counter.{CounterMode, new, on_disconnect, decrement}
use ningen_shikkaku.Motokano.Tools.{ToolDef, Action, describe, lookup, static_count, wipe_tools}
use ningen_shikkaku.Motokano.Server.{
  Effect, recorded, unregistered, zeroized, sigkilled, exited, Server, Runner, Answer, does, emit,
  refuse, record_read, output_of, complete, conclude, dispatch, call_tool, unregister, begin_exit,
  destroy, depart, finish_exit, Move, calls, exhausts, daemon_dies, disconnects, wakes, step,
  live_step, run, start,
}

abbrev pub records : List Effect → List Lifecycle
records [] = []
records (recorded e ∷ es) = e ∷ records es
records (_ ∷ es) = records es

-- A record is in the range of its fields.
abbrev IsSound : Effect → Type 0
IsSound (recorded e) = IsInRange e
IsSound _ = Unit

abbrev IsRecorded : Server → Type 0
IsRecorded s = All IsSound s.trace

-- A tool as it is described: its position as a `u32`.
abbrev IsNumbered : Option (ℕ × ReadKind) → Type 0
IsNumbered none = Unit
IsNumbered (some d) = d.0 ≤ 4294967295

does-IsRecorded : (e : Effect) (s : Server) → IsSound e → IsRecorded s → IsRecorded (does e s)
does-IsRecorded e s r h = All-append IsSound s.trace (e ∷ []) h (r, tt)

emit-IsRecorded : (e : Lifecycle) (s : Server) → IsInRange e → IsRecorded s → IsRecorded (emit e s)
unfolding emit
emit-IsRecorded e s r h = branch IsRecorded s.sink (does-IsRecorded (recorded e) s r h) h

describe-IsNumbered : (name : Bytes) (tools : List ToolDef) → IsNumbered (describe name tools)
unfolding describe
describe-IsNumbered name tools = ground arith

refuse-IsRecorded :
    (d : Option (ℕ × ReadKind)) (s : Server)
    → IsNumbered d
    → IsRecorded s
    → IsRecorded (refuse d s).0
unfolding refuse record_read
refuse-IsRecorded none s n h = h
refuse-IsRecorded (some d) s n h = emit-IsRecorded (Lifecycle.read d.0 d.1 false) s n h

complete-IsRecorded :
    (d : ℕ × ReadKind) (text : Bytes) (s : Server)
    → d.0 ≤ 4294967295
    → IsRecorded s
    → IsRecorded (complete d text s).0
unfolding complete record_read
complete-IsRecorded d text s n h =
    let s1 = emit (Lifecycle.read d.0 d.1 true) s in
    let h1 = emit-IsRecorded (Lifecycle.read d.0 d.1 true) s n h in
    branch IsRecorded (decrement s1.counter).1 h1 h1

conclude-IsRecorded :
    (o : Option Bytes) (d : ℕ × ReadKind) (s : Server)
    → d.0 ≤ 4294967295
    → IsRecorded s
    → IsRecorded (conclude o d s).0
unfolding conclude record_read
conclude-IsRecorded none d s n h = emit-IsRecorded (Lifecycle.read d.0 d.1 false) s n h
conclude-IsRecorded (some text) d s n h = complete-IsRecorded d text s n h

dispatch-IsRecorded :
    (r : Runner) (d : Option (ℕ × ReadKind)) (a : Option Action) (s : Server)
    → IsNumbered d
    → IsRecorded s
    → IsRecorded (dispatch r d a s).0
unfolding dispatch
dispatch-IsRecorded r (some d) (some a) s n h = conclude-IsRecorded (output_of r a) d s n h
dispatch-IsRecorded r (some d) none s n h = h
dispatch-IsRecorded r none a s n h = h

call_tool-IsRecorded :
    (r : Runner) (name : Bytes) (s : Server) → IsRecorded s → IsRecorded (call_tool r name s).0
unfolding call_tool
call_tool-IsRecorded r name s h =
    let n = describe-IsNumbered name s.tools in
    branch (λ (x : Server × Answer). IsRecorded x.0) s.closed
      (refuse-IsRecorded (describe name s.tools) s n h)
      (dispatch-IsRecorded r (describe name s.tools) (lookup name s.tools) s n h)

begin_exit-IsRecorded : (x : Reason) (s : Server) → IsRecorded s → IsRecorded (begin_exit x s)
unfolding begin_exit unregister
begin_exit-IsRecorded x s h = elim (Option-cases s.exiting) [
  | inr (r, e) ↦ rw e h
  | inl e ↦
      let s1 = record s { exiting = some x; closed = true } in
      rw e (branch IsRecorded s.linked (does-IsRecorded unregistered s1 tt h) h)
]

static_count-le : (tools : List ToolDef) → static_count tools ≤ 4294967295
unfolding static_count
static_count-le tools = omega arith

destroy-IsRecorded : (r : Reason) (s : Server) → IsRecorded s → IsRecorded (destroy r s)
unfolding destroy
destroy-IsRecorded r s h =
    let s1 = does zeroized (record s { tools = wipe_tools s.tools }) in
    emit-IsRecorded (Lifecycle.wipe r (static_count s1.tools)) s1 (static_count-le s1.tools)
      (does-IsRecorded zeroized (record s { tools = wipe_tools s.tools }) tt h)

depart-IsRecorded : (r : Reason) (s : Server) → IsRecorded s → IsRecorded (depart r s)
unfolding depart
depart-IsRecorded r s h =
    let e = Lifecycle.kill r KillTarget.self_process 1 true in
    branch IsRecorded s.arm
      (does-IsRecorded sigkilled (emit e s) tt (emit-IsRecorded e s (omega arith) h))
      (does-IsRecorded exited (emit (Lifecycle.session_end r) s) tt
        (emit-IsRecorded (Lifecycle.session_end r) s tt h))

finish_exit-IsRecorded : (s : Server) → IsRecorded s → IsRecorded (finish_exit s)
unfolding finish_exit
finish_exit-IsRecorded s h =
    elim s.exiting as (λ o. IsRecorded (elim o [ none ↦ s | some r ↦ depart r (destroy r s) ])) [
      | none ↦ h
      | some r ↦ depart-IsRecorded r (destroy r s) (destroy-IsRecorded r s h)
    ]

step-IsRecorded : (r : Runner) (m : Move) (s : Server) → IsRecorded s → IsRecorded (step r m s).0
unfolding step
step-IsRecorded r (calls name) s h = call_tool-IsRecorded r name s h
step-IsRecorded r exhausts s h =
    branch IsRecorded s.spawned (begin_exit-IsRecorded Reason.calls_exhausted s h) h
step-IsRecorded r daemon_dies s h =
    branch IsRecorded s.linked (begin_exit-IsRecorded Reason.daemon_lost s h) h
step-IsRecorded r disconnects s h =
    begin_exit-IsRecorded Reason.client_disconnect
      (record s { counter = (on_disconnect s.counter).0 }) h
step-IsRecorded r wakes s h = finish_exit-IsRecorded s h

run-IsRecorded :
    (r : Runner) (ms : List Move) (s : Server) → IsRecorded s → IsRecorded (run r ms s).0
unfolding run live_step
run-IsRecorded r [] s h = h
run-IsRecorded r (m ∷ ms) s h =
    run-IsRecorded r ms (live_step r m s).0
      (branch (λ (x : Server × List Answer). IsRecorded x.0) s.ended h (step-IsRecorded r m s h))

start-IsRecorded :
    (mode : CounterMode) (arm linked sink : Bool) (tools : List ToolDef)
    → IsRecorded (start mode arm linked sink tools)
unfolding start
start-IsRecorded mode arm linked sink tools =
    let s0 : Server = record {
      tools = tools;
      counter = new mode;
      closed = false;
      arm = arm;
      linked = linked;
      sink = sink;
      spawned = false;
      exiting = none;
      ended = false;
      trace = [];
    } in
    let s1 = emit (Lifecycle.session_start arm) s0 in
    let h = emit-IsRecorded (Lifecycle.session_start arm) s0 tt tt in
    branch IsRecorded arm (emit-IsRecorded (Lifecycle.arm ArmVia.startup) s1 tt h) h

records-IsInRange : (es : List Effect) → All IsSound es → All IsInRange (records es)
records-IsInRange [] h = tt
records-IsInRange (recorded e ∷ es) (h, hs) = (h, records-IsInRange es hs)
records-IsInRange (unregistered ∷ es) (h, hs) = records-IsInRange es hs
records-IsInRange (zeroized ∷ es) (h, hs) = records-IsInRange es hs
records-IsInRange (sigkilled ∷ es) (h, hs) = records-IsInRange es hs
records-IsInRange (exited ∷ es) (h, hs) = records-IsInRange es hs

-- Every record that a server makes is in the range of its fields.
pub run-start-IsInRange :
    (mode : CounterMode) (arm linked sink : Bool) (tools : List ToolDef) (r : Runner)
    (ms : List Move)
    → All IsInRange (records (run r ms (start mode arm linked sink tools)).0.trace)
run-start-IsInRange mode arm linked sink tools r ms =
    let s = start mode arm linked sink tools in
    records-IsInRange (run r ms s).0.trace
      (run-IsRecorded r ms s (start-IsRecorded mode arm linked sink tools))
