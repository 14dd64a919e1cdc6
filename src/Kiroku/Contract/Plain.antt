-- ===== src/Kiroku/Contract/Plain.antt =====
-- The texts inside a record (rs/crates/kiroku/src/lib.rs, `render`): its own vocabulary is
-- printable ASCII.
use ningen_shikkaku.Base.{ℕ, List, [], ◌∷◌, ◌++◌, arith, All, All-append, Bool-cases, inl, inr}
use ningen_shikkaku.Base.Text.{Bytes}
use ningen_shikkaku.Kiroku.{
  Component, component_str, source_agent, ArmVia, arm_via_str, Reason, reason_str, KillTarget,
  kill_target_str, ReadKind, read_kind_str, Lifecycle, tool_name,
}
use ningen_shikkaku.Kiroku.Render.{
  own_args, result_of, Scalar, str, int, bool, Field, common_args, sort_fields, insert, text_le,
}
use ningen_shikkaku.Kiroku.Render.Printing.{
  value_of, members, args_map, result_map, record_value, body_of,
}
use ningen_shikkaku.Kiroku.Contract.Text.{IsPrintable, IsPlain, HasPlain, print-IsPrintable}

reason_str-IsPrintable : (r : Reason) → IsPrintable (reason_str r)
unfolding reason_str
reason_str-IsPrintable Reason.heartbeat_lost = omega arith
reason_str-IsPrintable Reason.ping_timeout = omega arith
reason_str-IsPrintable Reason.panic_signal = omega arith
reason_str-IsPrintable Reason.hard_panic_signal = omega arith
reason_str-IsPrintable Reason.shutdown = omega arith
reason_str-IsPrintable Reason.client_quit = omega arith
reason_str-IsPrintable Reason.calls_exhausted = omega arith
reason_str-IsPrintable Reason.client_disconnect = omega arith
reason_str-IsPrintable Reason.daemon_lost = omega arith

component_str-IsPrintable : (c : Component) → IsPrintable (component_str c)
unfolding component_str
component_str-IsPrintable Component.dazai = omega arith
component_str-IsPrintable Component.motokano = omega arith

arm_via_str-IsPrintable : (v : ArmVia) → IsPrintable (arm_via_str v)
unfolding arm_via_str
arm_via_str-IsPrintable ArmVia.startup = omega arith
arm_via_str-IsPrintable ArmVia.control = omega arith

kill_target_str-IsPrintable : (t : KillTarget) → IsPrintable (kill_target_str t)
unfolding kill_target_str
kill_target_str-IsPrintable KillTarget.registered = omega arith
kill_target_str-IsPrintable KillTarget.self_process = omega arith

read_kind_str-IsPrintable : (k : ReadKind) → IsPrintable (read_kind_str k)
unfolding read_kind_str
read_kind_str-IsPrintable ReadKind.static = omega arith
read_kind_str-IsPrintable ReadKind.exec = omega arith

source_agent-IsPrintable : (c : Component) → IsPrintable (source_agent c)
unfolding source_agent
source_agent-IsPrintable Component.dazai = omega arith
source_agent-IsPrintable Component.motokano = omega arith

tool_name-IsPrintable : (e : Lifecycle) → IsPrintable (tool_name e)
unfolding tool_name
tool_name-IsPrintable (Lifecycle.session_start _) = omega arith
tool_name-IsPrintable (Lifecycle.arm _) = omega arith
tool_name-IsPrintable (Lifecycle.read _ _ _) = omega arith
tool_name-IsPrintable (Lifecycle.wipe _ _) = omega arith
tool_name-IsPrintable (Lifecycle.kill _ _ _ _) = omega arith
tool_name-IsPrintable (Lifecycle.session_end _) = omega arith

abbrev ScalarIsPlain : Scalar → Type 0
ScalarIsPlain (str s) = IsPrintable s
ScalarIsPlain (int n) = Unit
ScalarIsPlain (bool b) = Unit

abbrev FieldIsPlain : Field → Type 0
FieldIsPlain f = IsPrintable f.0 × ScalarIsPlain f.1

insert-All :
    (f : Field) (gs : List Field)
    → FieldIsPlain f
    → All FieldIsPlain gs
    → All FieldIsPlain (insert f gs)
unfolding insert
insert-All f [] p h = (p, tt)
insert-All f (g ∷ gs) p h = elim (Bool-cases (text_le f.0 g.0)) [
  | inl e ↦ rw (e, insert) (p, h)
  | inr e ↦ rw (e, insert) (h.0, insert-All f gs p h.1)
]

sort_fields-All : (fs : List Field) → All FieldIsPlain fs → All FieldIsPlain (sort_fields fs)
unfolding sort_fields
sort_fields-All [] h = tt
sort_fields-All (f ∷ fs) h = insert-All f (sort_fields fs) h.0 (sort_fields-All fs h.1)

members-HasPlain : (fs : List Field) → All FieldIsPlain fs → HasPlain (members fs)
unfolding members HasPlain value_of
members-HasPlain [] h = tt
members-HasPlain ((k, str s) ∷ fs) h = (h.0.0, h.0.1, members-HasPlain fs h.1)
members-HasPlain ((k, int n) ∷ fs) h = (h.0.0, tt, members-HasPlain fs h.1)
members-HasPlain ((k, bool b) ∷ fs) h = (h.0.0, tt, members-HasPlain fs h.1)

own_args-All : (e : Lifecycle) → All FieldIsPlain (own_args e)
unfolding own_args
own_args-All (Lifecycle.session_start armed) = omega arith
own_args-All (Lifecycle.arm via) = ((omega arith, arm_via_str-IsPrintable via), tt)
own_args-All (Lifecycle.read tool kind served) =
    ((omega arith, tt), ((omega arith, read_kind_str-IsPrintable kind), tt))
own_args-All (Lifecycle.wipe reason buffers) =
    ((omega arith, reason_str-IsPrintable reason), ((omega arith, tt), tt))
own_args-All (Lifecycle.kill reason target count executed) = (
  (omega arith, reason_str-IsPrintable reason),
  ((omega arith, kill_target_str-IsPrintable target), ((omega arith, tt), tt)),
)
own_args-All (Lifecycle.session_end reason) = ((omega arith, reason_str-IsPrintable reason), tt)

common_args-All :
    (producer : Bytes) (c : Component) (session : Bytes) (ms : ℕ)
    → IsPrintable producer
    → IsPrintable session
    → All FieldIsPlain (common_args producer c session ms)
unfolding common_args
common_args-All producer c session ms p s = (
  (omega arith, component_str-IsPrintable c),
  ((omega arith, omega arith), ((omega arith, tt), ((omega arith, p), ((omega arith, s), tt)))),
)

result_map-HasPlain : (e : Lifecycle) → HasPlain (result_map e)
unfolding result_map HasPlain result_of members value_of
result_map-HasPlain (Lifecycle.session_start _) = (omega arith, tt, tt)
result_map-HasPlain (Lifecycle.arm _) = (omega arith, tt, tt)
result_map-HasPlain (Lifecycle.read _ _ _) = (omega arith, tt, tt)
result_map-HasPlain (Lifecycle.wipe _ _) = (omega arith, tt, tt)
result_map-HasPlain (Lifecycle.kill _ _ _ _) = (omega arith, tt, tt)
result_map-HasPlain (Lifecycle.session_end _) = (omega arith, tt, tt)

record_value-IsPlain :
    (producer : Bytes) (c : Component) (session : Bytes) (ms : ℕ) (e : Lifecycle)
    → IsPrintable producer
    → IsPrintable session
    → IsPlain (record_value producer c session ms e)
unfolding record_value args_map IsPlain
record_value-IsPlain producer c session ms e p s =
    let common = common_args producer c session ms in
    let all =
      All-append FieldIsPlain common (own_args e) (common_args-All producer c session ms p s)
        (own_args-All e) in
    let args =
      members-HasPlain (sort_fields (common ++ own_args e))
        (sort_fields-All (common ++ own_args e) all) in
    (
      omega arith,
      args,
      (
        omega arith,
        tt,
        (
          omega arith,
          omega arith,
          (
            omega arith,
            tt,
            (
              omega arith,
              result_map-HasPlain e,
              (
                omega arith,
                source_agent-IsPrintable c,
                (omega arith, tt, (omega arith, tool_name-IsPrintable e, tt)),
              ),
            ),
          ),
        ),
      ),
    )

pub body_of-IsPrintable :
    (producer : Bytes) (c : Component) (session : Bytes) (ms : ℕ) (e : Lifecycle)
    → IsPrintable producer
    → IsPrintable session
    → IsPrintable (body_of producer c session ms e)
body_of-IsPrintable producer c session ms e p s =
    print-IsPrintable (record_value producer c session ms e) []
      (record_value-IsPlain producer c session ms e p s) tt
