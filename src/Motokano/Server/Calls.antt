-- ===== src/Motokano/Server/Calls.antt =====
-- `call_tool` (rs/crates/motokano/src/server.rs) while the server is closed or open.
use ningen_shikkaku.Base.{
  ℕ, ◌≡◌, refl, sym, subst, Bool, true, false, Option, none, some, List, [], ◌∷◌, arith, count_if,
  count_if-append, Bool-cases, inl, inr,
}
use ningen_shikkaku.Base.Text.{Bytes}
use ningen_shikkaku.Kiroku.{ReadKind, Reason, Lifecycle}
use ningen_shikkaku.Motokano.Counter.{on_disconnect}
use ningen_shikkaku.Motokano.Tools.{describe, lookup}
use ningen_shikkaku.Motokano.Server.{
  Server, Runner, Answer, success, emit, record_read, refuse, dispatch, call_tool, begin_exit,
  finish_exit, Move, disconnects, exhausts, daemon_dies, wakes, step, live_step, run,
}

abbrev pub is_success : Answer → Bool
is_success (success _) = true
is_success _ = false

pub emit-counter :
    (e : Lifecycle) (s : Server) → ((emit e s).counter ≡ s.counter) × ((emit e s).closed ≡ s.closed)
unfolding emit
emit-counter e s = ground arith

pub call_tool_closed :
    (r : Runner) (name : Bytes) (s : Server)
    → s.closed ≡ true
    → call_tool r name s ≡ refuse (describe name s.tools) s
unfolding call_tool
call_tool_closed r name s c = ground arith

pub call_tool_open :
    (r : Runner) (name : Bytes) (s : Server)
    → s.closed ≡ false
    → call_tool r name s ≡ dispatch r (describe name s.tools) (lookup name s.tools) s
unfolding call_tool
call_tool_open r name s c = ground arith

pub live_step_ended :
    (r : Runner) (m : Move) (s : Server) → s.ended ≡ true → live_step r m s ≡ (s, [])
unfolding live_step
live_step_ended r m s e = ground arith

pub live_step_alive :
    (r : Runner) (m : Move) (s : Server) → s.ended ≡ false → live_step r m s ≡ step r m s
unfolding live_step
live_step_alive r m s e = ground arith

-- Some answers none of which serves anything, behind which the server is still closed.
abbrev IsSilent : Server × List Answer → Type 0
IsSilent x = ((x.0).closed ≡ true) × (count_if is_success (x.1) ≡ 0)

refuse-IsSilent :
    (d : Option (ℕ × ReadKind)) (s : Server)
    → s.closed ≡ true
    → let x = refuse d s in IsSilent (x.0, x.1 ∷ [])
unfolding refuse record_read emit
refuse-IsSilent none s c = ground (arith, c)
refuse-IsSilent (some d) s c = ground (arith, c)

begin_exit-closed : (x : Reason) (s : Server) → s.closed ≡ true → (begin_exit x s).closed ≡ true
unfolding begin_exit
begin_exit-closed x s c = ground (arith, c)

finish_exit-closed : (s : Server) → s.closed ≡ true → (finish_exit s).closed ≡ true
unfolding finish_exit emit
finish_exit-closed s c = ground (arith, c)

step-IsSilent : (r : Runner) (m : Move) (s : Server) → s.closed ≡ true → IsSilent (step r m s)
unfolding step
step-IsSilent r (Move.calls name) s c =
    subst (λ (x : Server × Answer). IsSilent (x.0, x.1 ∷ [])) (sym (call_tool_closed r name s c))
      (refuse-IsSilent (describe name s.tools) s c)
step-IsSilent r exhausts s c = ground (arith, begin_exit-closed Reason.calls_exhausted s c)
step-IsSilent r daemon_dies s c = ground (arith, begin_exit-closed Reason.daemon_lost s c)
step-IsSilent r disconnects s c = (
  begin_exit-closed Reason.client_disconnect (record s { counter = (on_disconnect s.counter).0 }) c,
  refl,
)
step-IsSilent r wakes s c = (finish_exit-closed s c, refl)

live_step-IsSilent :
    (r : Runner) (m : Move) (s : Server) → s.closed ≡ true → IsSilent (live_step r m s)
live_step-IsSilent r m s c = elim (Bool-cases s.ended) [
  | inl e ↦ subst IsSilent (sym (live_step_ended r m s e)) (c, refl)
  | inr e ↦ subst IsSilent (sym (live_step_alive r m s e)) (step-IsSilent r m s c)
]

-- Once the server is closed no call is served any more, whatever comes: it stays closed, and every
-- answer is a refusal.
pub closed_silent :
    (r : Runner) (ms : List Move) (s : Server)
    → s.closed ≡ true
    → ((run r ms s).0.closed ≡ true) × (count_if is_success (run r ms s).1 ≡ 0)
unfolding run
closed_silent r [] s c = (c, refl)
closed_silent r (m ∷ ms) s c =
    let (s1, as1) = live_step r m s in
    let (c1, n1) = live_step-IsSilent r m s c in
    let (c2, n2) = closed_silent r ms s1 c1 in
    (c2, omega (arith, n1, n2, count_if-append is_success as1 (run r ms s1).1))
