-- ===== src/Motokano/Server/Budget.antt =====
-- How many calls a server that counts calls can serve.
use ningen_shikkaku.Base.{
  ℕ, ◌+◌, ◌≤◌, ◌<◌, ◌≡◌, ap, sym, subst, ◌⊎◌, inl, inr, Bool, true, false, Option, none, some, List,
  [], ◌∷◌, if◌then◌else◌, arith, count_if, count_if-append, Bool-cases,
}
use ningen_shikkaku.Base.Text.{Bytes}
use ningen_shikkaku.Kiroku.{ReadKind, Reason, Lifecycle}
use ningen_shikkaku.Motokano.Counter.{CallCounter, calls, new, decrement}
use ningen_shikkaku.Motokano.Counter.Exactly.{disconnect-calls}
use ningen_shikkaku.Motokano.Tools.{ToolDef, Action, describe, lookup}
use ningen_shikkaku.Motokano.Server.Calls.{
  is_success, emit-counter, call_tool_closed, call_tool_open, live_step_ended, live_step_alive,
}
use ningen_shikkaku.Motokano.Server.{
  Server, Runner, Answer, emit, record_read, refuse, output_of, complete, conclude, dispatch,
  call_tool, begin_exit, finish_exit, Move, disconnects, exhausts, daemon_dies, wakes, step,
  live_step, run, start,
}

abbrev weight : Answer → ℕ
weight a = if is_success a then 1 else 0

-- A server that counts calls, and is closed when none is left.
record IsBudgeted (n : ℕ) (s : Server) : Type 0 where
  mode_is : s.counter.mode ≡ calls n
  closes : (s.closed ≡ true) ⊎ ((0 < s.counter.remaining) × (s.counter.fired ≡ false))

-- Some answers take their number off the budget and keep the server so.
record Spends (n : ℕ) (s s' : Server) (served : ℕ) : Type 0 where
  budgeted : IsBudgeted n s'
  spent : served + s'.counter.remaining ≡ s.counter.remaining

emit-Spends : (n : ℕ) (e : Lifecycle) (s : Server) → IsBudgeted n s → Spends n s (emit e s) 0
unfolding emit
emit-Spends n e s b = ground arith

-- A call of a counter with some budget left takes one off, and says so when it was the last.
decrement_last :
    (n : ℕ) (c : CallCounter)
    → c.mode ≡ calls n
    → 0 < c.remaining
    → c.fired ≡ false
    → let r = decrement c in
      (1 + (r.0).remaining ≡ c.remaining)
      × ((r.0).mode ≡ calls n)
      × ((r.1 ≡ true) ⊎ ((0 < (r.0).remaining) × ((r.0).fired ≡ false)))
unfolding decrement
decrement_last n c m h f = ground arith

complete-Spends :
    (n : ℕ) (d : ℕ × ReadKind) (text : Bytes) (s : Server)
    → IsBudgeted n s
    → s.closed ≡ false
    → Spends n s (complete d text s).0 1
unfolding complete
complete-Spends n d text s b o =
    let s1 = record_read d true s in
    let e = emit-counter (Lifecycle.read d.0 d.1 true) s in
    let h : IsBudgeted n s1 = (emit-Spends n (Lifecycle.read d.0 d.1 true) s b).budgeted in
    ground (arith, decrement_last n s1.counter, e)

conclude-Spends :
    (n : ℕ) (o : Option Bytes) (d : ℕ × ReadKind) (s : Server)
    → IsBudgeted n s
    → s.closed ≡ false
    → let r = conclude o d s in Spends n s (r.0) (weight (r.1))
unfolding conclude complete
conclude-Spends n none d s b o = emit-Spends n (Lifecycle.read d.0 d.1 false) s b
conclude-Spends n (some text) d s b o = complete-Spends n d text s b o

dispatch-Spends :
    (n : ℕ) (r : Runner) (d : Option (ℕ × ReadKind)) (a : Option Action) (s : Server)
    → IsBudgeted n s
    → s.closed ≡ false
    → let x = dispatch r d a s in Spends n s (x.0) (weight (x.1))
unfolding dispatch
dispatch-Spends n r (some d) (some a) s b o = conclude-Spends n (output_of r a) d s b o
dispatch-Spends n r (some d) none s b o = record { budgeted = b; spent = omega arith }
dispatch-Spends n r none a s b o = record { budgeted = b; spent = omega arith }

refuse-Spends :
    (n : ℕ) (d : Option (ℕ × ReadKind)) (s : Server)
    → IsBudgeted n s
    → let x = refuse d s in Spends n s (x.0) (weight (x.1))
unfolding refuse
refuse-Spends n none s b = record { budgeted = b; spent = omega arith }
refuse-Spends n (some d) s b = emit-Spends n (Lifecycle.read d.0 d.1 false) s b

call_tool-Spends :
    (n : ℕ) (r : Runner) (name : Bytes) (s : Server)
    → IsBudgeted n s
    → let x = call_tool r name s in Spends n s (x.0) (weight (x.1))
call_tool-Spends n r name s b = elim (Bool-cases s.closed) [
  | inl c ↦ fits (call_tool_closed r name s c) (refuse-Spends n (describe name s.tools) s b)
  | inr o ↦
      fits (call_tool_open r name s o)
        (dispatch-Spends n r (describe name s.tools) (lookup name s.tools) s b o)
]
  where
    fits :
        {x y : Server × Answer}
        → x ≡ y
        → Spends n s (y.0) (weight (y.1))
        → Spends n s (x.0) (weight (x.1))
    fits e = subst (λ z. Spends n s (z.0) (weight (z.1))) (sym e)

begin_exit-Spends :
    (n : ℕ) (x : Reason) (s : Server) → IsBudgeted n s → Spends n s (begin_exit x s) 0
unfolding begin_exit
begin_exit-Spends n x s b = ground arith

finish_exit-Spends : (n : ℕ) (s : Server) → IsBudgeted n s → Spends n s (finish_exit s) 0
unfolding finish_exit emit
finish_exit-Spends n s b = ground arith

step-Spends :
    (n : ℕ) (r : Runner) (m : Move) (s : Server)
    → IsBudgeted n s
    → let x = step r m s in Spends n s (x.0) (count_if is_success (x.1))
unfolding step
step-Spends n r (Move.calls name) s b =
    let p = call_tool-Spends n r name s b in
    record { budgeted = p.budgeted; spent = omega (arith, p.spent) }
step-Spends n r exhausts s b = ground (arith, begin_exit-Spends n Reason.calls_exhausted s b)
step-Spends n r daemon_dies s b = ground (arith, begin_exit-Spends n Reason.daemon_lost s b)
step-Spends n r disconnects s b =
    let e = disconnect-calls n s.counter b.mode_is in
    subst
      (λ (c : CallCounter).
        Spends n s (begin_exit Reason.client_disconnect (record s { counter = c })) 0)
      (sym (ap (λ p. p.0) e)) (begin_exit-Spends n Reason.client_disconnect s b)
step-Spends n r wakes s b = finish_exit-Spends n s b

live_step-Spends :
    (n : ℕ) (r : Runner) (m : Move) (s : Server)
    → IsBudgeted n s
    → let x = live_step r m s in Spends n s (x.0) (count_if is_success (x.1))
live_step-Spends n r m s b = elim (Bool-cases s.ended) [
  | inl e ↦ subst F (sym (live_step_ended r m s e)) (record { budgeted = b; spent = omega arith })
  | inr e ↦ subst F (sym (live_step_alive r m s e)) (step-Spends n r m s b)
]
  where
    F : Server × List Answer → Type 0
    F x = Spends n s (x.0) (count_if is_success (x.1))

run-Spends :
    (n : ℕ) (r : Runner) (ms : List Move) (s : Server)
    → IsBudgeted n s
    → let x = run r ms s in Spends n s (x.0) (count_if is_success (x.1))
unfolding run
run-Spends n r [] s b = record { budgeted = b; spent = omega arith }
run-Spends n r (m ∷ ms) s b =
    let (s1, as1) = live_step r m s in
    let p = live_step-Spends n r m s b in
    let q = run-Spends n r ms s1 p.budgeted in
    record {
      budgeted = q.budgeted;
      spent = omega (arith, p.spent, q.spent, count_if-append is_success as1 (run r ms s1).1);
    }

start-IsBudgeted :
    (n : ℕ) (arm linked sink : Bool) (tools : List ToolDef)
    → 0 < n
    → IsBudgeted n (start (calls n) arm linked sink tools)
      × ((start (calls n) arm linked sink tools).counter.remaining ≡ n)
unfolding start new emit
start-IsBudgeted n arm linked sink tools h = ground (arith, h)

-- A server with a budget of calls above zero serves no more calls than that, whatever calls and
-- exits come and in whatever order; what it has not served is what its counter still holds, and
-- it is closed or has some left.
pub run-budget :
    (n : ℕ) (arm linked sink : Bool) (tools : List ToolDef) (r : Runner) (ms : List Move)
    → 0 < n
    → let (s, answers) = run r ms (start (calls n) arm linked sink tools) in
      (count_if is_success answers ≤ n)
      × (count_if is_success answers + s.counter.remaining ≡ n)
      × ((s.closed ≡ true) ⊎ (0 < s.counter.remaining))
run-budget n arm linked sink tools r ms h =
    let (b, e) = start-IsBudgeted n arm linked sink tools h in
    let p = run-Spends n r ms (start (calls n) arm linked sink tools) b in
    (omega (arith, p.spent, e), omega (arith, p.spent, e), ground (arith, p.budgeted))
