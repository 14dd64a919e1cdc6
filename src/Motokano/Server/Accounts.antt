-- ===== src/Motokano/Server/Accounts.antt =====
-- The records of reads of an MCP server (rs/crates/motokano/src/server.rs) against its answers.
use ningen_shikkaku.Base.{
  ℕ, ◌+◌, ◌≡◌, refl, sym, ap, ◌∙◌, subst, Bool, true, false, Option, none, some, List, [], ◌∷◌,
  count_if, count_if-append, arith, branch, if◌then◌else◌,
}
use ningen_shikkaku.Base.Text.{Bytes}
use ningen_shikkaku.Kiroku.{Lifecycle, KillTarget, Reason, ReadKind}
use ningen_shikkaku.Motokano.Counter.{CounterMode, on_disconnect, decrement}
use ningen_shikkaku.Motokano.Tools.{ToolDef, Action, describe, lookup, static_count, wipe_tools}
use ningen_shikkaku.Motokano.Server.{
  Effect, recorded, unregistered, zeroized, sigkilled, exited, Server, Runner, Answer, does, emit,
  refuse, record_read, output_of, complete, conclude, dispatch, call_tool, unregister, begin_exit,
  destroy, depart, finish_exit, Move, calls, exhausts, daemon_dies, disconnects, wakes, step,
  live_step, run, start,
}
use ningen_shikkaku.Motokano.Server.Calls.{is_success}

-- A record of a read that was served.
abbrev pub is_served : Effect → Bool
is_served (recorded (Lifecycle.read _ _ served)) = served
is_served _ = false

abbrev pub reads : Server → ℕ
reads s = count_if is_served s.trace

-- From a server to another, a read is on record for each success.
pub record Accounts (s s' : Server) (successes : ℕ) : Type 0 where
  pub sinks : s'.sink ≡ s.sink
  pub counted : s.sink ≡ true → reads s' ≡ reads s + successes

one : Effect → ℕ
one e = if is_served e then 1 else 0

does-reads : (e : Effect) (s : Server) → reads (does e s) ≡ reads s + one e
unfolding one
does-reads e s = omega (arith, count_if-append is_served s.trace (e ∷ []))

does-Accounts : (e : Effect) (s : Server) → one e ≡ 0 → Accounts s (does e s) 0
does-Accounts e s h = record { sinks = refl; counted = λ _. omega (arith, does-reads e s, h) }

emit_sunk : (e : Lifecycle) (s : Server) → s.sink ≡ true → emit e s ≡ does (recorded e) s
unfolding emit
emit_sunk e s t = ground (arith, t)

emit-Accounts :
    (e : Lifecycle) (n : ℕ) (s : Server) → one (recorded e) ≡ n → Accounts s (emit e s) n
emit-Accounts e n s h = record {
  sinks = unfold emit in branch (λ (s' : Server). s'.sink ≡ s.sink) s.sink refl refl;
  counted = λ t. ap reads (emit_sunk e s t) ∙ does-reads (recorded e) s ∙ ap (λ m. reads s + m) h;
}

chain : {a b c : Server} {m n : ℕ} → Accounts a b m → Accounts b c n → Accounts a c (m + n)
chain x y = record {
  sinks = y.sinks ∙ x.sinks;
  counted = λ e. omega (arith, x.counted e, y.counted (x.sinks ∙ e));
}

stay : (s : Server) → Accounts s s 0
stay s = record { sinks = refl; counted = λ _. omega arith }

-- The answers of a move, as successes.
abbrev Answered : Server → Server × List Answer → Type 0
Answered s x = Accounts s x.0 (count_if is_success x.1)

read-Accounts :
    (d : ℕ × ReadKind) (served : Bool) (n : ℕ) (s : Server)
    → (if served then 1 else 0) ≡ n
    → Accounts s (record_read d served s) n
unfolding record_read one
read-Accounts d served n s h = emit-Accounts (Lifecycle.read d.0 d.1 served) n s h

refuse-Answered :
    (d : Option (ℕ × ReadKind)) (s : Server) → let x = refuse d s in Answered s (x.0, x.1 ∷ [])
unfolding refuse
refuse-Answered none s = stay s
refuse-Answered (some d) s = read-Accounts d false 0 s refl

-- A change of neither the sink nor the trace.
unread :
    {a b : Server} {n : ℕ} (c : Server)
    → Accounts a b n
    → c.sink ≡ b.sink
    → c.trace ≡ b.trace
    → Accounts a c n
unread c x e t = record {
  sinks = e ∙ x.sinks;
  counted = λ on. ap (count_if is_served) t ∙ x.counted on;
}

complete-Answered :
    (d : ℕ × ReadKind) (text : Bytes) (s : Server)
    → let x = complete d text s in Answered s (x.0, x.1 ∷ [])
unfolding complete
complete-Answered d text s =
    let s1 = record_read d true s in
    let a = read-Accounts d true 1 s refl in
    let s2 = record s1 { counter = (decrement s1.counter).0 } in
    branch (λ (s' : Server). Accounts s s' 1) (decrement s1.counter).1
      (unread (record s2 { closed = true; spawned = true }) a refl refl) (unread s2 a refl refl)

conclude-Answered :
    (o : Option Bytes) (d : ℕ × ReadKind) (s : Server)
    → let x = conclude o d s in Answered s (x.0, x.1 ∷ [])
unfolding conclude
conclude-Answered none d s = read-Accounts d false 0 s refl
conclude-Answered (some text) d s = complete-Answered d text s

dispatch-Answered :
    (r : Runner) (d : Option (ℕ × ReadKind)) (a : Option Action) (s : Server)
    → let x = dispatch r d a s in Answered s (x.0, x.1 ∷ [])
unfolding dispatch
dispatch-Answered r (some d) (some a) s = conclude-Answered (output_of r a) d s
dispatch-Answered r (some d) none s = stay s
dispatch-Answered r none a s = stay s

call_tool-Answered :
    (r : Runner) (name : Bytes) (s : Server)
    → let x = call_tool r name s in Answered s (x.0, x.1 ∷ [])
unfolding call_tool
call_tool-Answered r name s =
    branch (λ (x : Server × Answer). Answered s (x.0, x.1 ∷ [])) s.closed
      (refuse-Answered (describe name s.tools) s)
      (dispatch-Answered r (describe name s.tools) (lookup name s.tools) s)

begin_exit-Accounts : (x : Reason) (s : Server) → Accounts s (begin_exit x s) 0
unfolding begin_exit unregister
begin_exit-Accounts x s =
    let s1 = record s { exiting = some x; closed = true } in
    let kept = unread s1 (stay s) refl refl in
    elim s.exiting as (λ o. Accounts s (elim o [ some _ ↦ s | none ↦ unregister s1 ]) 0) [
      | some _ ↦ stay s
      | none ↦
          branch (λ (s' : Server). Accounts s s' 0) s.linked
            (chain kept (does-Accounts unregistered s1 (unfold one in refl))) kept
    ]

destroy-Accounts : (r : Reason) (s : Server) → Accounts s (destroy r s) 0
unfolding destroy one
destroy-Accounts r s =
    let s0 = record s { tools = wipe_tools s.tools } in
    let s1 = does zeroized s0 in
    chain (chain (unread s0 (stay s) refl refl) (does-Accounts zeroized s0 refl))
      (emit-Accounts (Lifecycle.wipe r (static_count s1.tools)) 0 s1 refl)

-- A record and a deed, with which the process is gone.
ends-Accounts :
    (e : Lifecycle) (x : Effect) (s : Server)
    → one (recorded e) ≡ 0
    → one x ≡ 0
    → Accounts s (record (does x (emit e s)) { ended = true }) 0
ends-Accounts e x s h k =
    unread (record (does x (emit e s)) { ended = true })
      (chain (emit-Accounts e 0 s h) (does-Accounts x (emit e s) k)) refl refl

depart-Accounts : (r : Reason) (s : Server) → Accounts s (depart r s) 0
unfolding depart one
depart-Accounts r s =
    branch (λ (s' : Server). Accounts s s' 0) s.arm
      (ends-Accounts (Lifecycle.kill r KillTarget.self_process 1 true) sigkilled s refl refl)
      (ends-Accounts (Lifecycle.session_end r) exited s refl refl)

finish_exit-Accounts : (s : Server) → Accounts s (finish_exit s) 0
unfolding finish_exit
finish_exit-Accounts s =
    elim s.exiting as (λ o. Accounts s (elim o [ none ↦ s | some r ↦ depart r (destroy r s) ]) 0) [
      | none ↦ stay s
      | some r ↦ chain (destroy-Accounts r s) (depart-Accounts r (destroy r s))
    ]

step-Answered : (r : Runner) (m : Move) (s : Server) → Answered s (step r m s)
unfolding step
step-Answered r (calls name) s = call_tool-Answered r name s
step-Answered r exhausts s =
    branch (λ (s' : Server). Accounts s s' 0) s.spawned
      (begin_exit-Accounts Reason.calls_exhausted s) (stay s)
step-Answered r daemon_dies s =
    branch (λ (s' : Server). Accounts s s' 0) s.linked (begin_exit-Accounts Reason.daemon_lost s)
      (stay s)
step-Answered r disconnects s =
    let s1 = record s { counter = (on_disconnect s.counter).0 } in
    chain (unread s1 (stay s) refl refl) (begin_exit-Accounts Reason.client_disconnect s1)
step-Answered r wakes s = finish_exit-Accounts s

run-Answered : (r : Runner) (ms : List Move) (s : Server) → Answered s (run r ms s)
unfolding run live_step
run-Answered r [] s = stay s
run-Answered r (m ∷ ms) s =
    let x = live_step r m s in
    let a =
      branch (λ (x : Server × List Answer). Answered s x) s.ended (stay s) (step-Answered r m s) in
    subst (Accounts s (run r ms x.0).0) (sym (count_if-append is_success x.1 (run r ms x.0).1))
      (chain a (run-Answered r ms x.0))

start-Accounts :
    (mode : CounterMode) (arm linked : Bool) (tools : List ToolDef)
    → ((start mode arm linked true tools).sink ≡ true)
      × (reads (start mode arm linked true tools) ≡ 0)
unfolding start emit
start-Accounts mode arm linked tools = ground arith

-- A server with a sink has handed it, whatever calls and exits come and in whatever order, one
-- record of a served read for each call that it has served, and no other.
pub run-reads :
    (mode : CounterMode) (arm linked : Bool) (tools : List ToolDef) (r : Runner) (ms : List Move)
    → let (s, answers) = run r ms (start mode arm linked true tools) in
      reads s ≡ count_if is_success answers
run-reads mode arm linked tools r ms =
    let s = start mode arm linked true tools in
    let (on, zero_reads) = start-Accounts mode arm linked tools in
    let a = run-Answered r ms s in omega (arith, a.counted on, zero_reads)
