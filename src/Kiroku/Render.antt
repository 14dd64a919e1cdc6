-- ===== src/Kiroku/Render.antt =====
-- `Scalar`, `push_object` and `render` of rs/crates/kiroku/src/lib.rs: the bytes of one record. Its
-- texts are ASCII. The producer, which the build puts together, is a parameter.
pub mod Size
pub mod Bound
pub mod Printing
use ningen_shikkaku.Base.{ℕ, Bool, true, false, List, [], ◌∷◌, ◌++◌, ◌==◌, ltb, if◌then◌else◌}
use ningen_shikkaku.Base.Text.{Bytes, codes}
use ningen_shikkaku.Base.Decimal.{show}
use ningen_shikkaku.Kiroku.{
  Component, component_str, source_agent, arm_via_str, reason_str, kill_target_str, read_kind_str,
  Lifecycle, tool_name, contract_id,
}

pub data Scalar : Type 0 where
  str : Bytes → Scalar
  int : ℕ → Scalar
  bool : Bool → Scalar

abbrev pub Field : Type 0
Field = Bytes × Scalar

-- `str::cmp`, as whether the first is not above the second.
unfoldable pub text_le : Bytes → Bytes → Bool
text_le [] t = true
text_le (c ∷ s) [] = false
text_le (c ∷ s) (d ∷ t) = let rest = text_le s t in if c == d then rest else ltb c d

unfoldable pub insert : Field → List Field → List Field
insert f [] = f ∷ []
insert f (g ∷ gs) = let rest = g ∷ insert f gs in if text_le f.0 g.0 then f ∷ g ∷ gs else rest

-- `sort_by` on the keys; fields with one key keep their order.
unfoldable pub sort_fields : List Field → List Field
unfolding insert
sort_fields [] = []
sort_fields (f ∷ fs) = insert f (sort_fields fs)

unfoldable pub bool_text : Bool → Bytes
bool_text true = codes "true"
bool_text false = codes "false"

quoted : Bytes → Bytes
quoted s = b'"' ∷ (s ++ b'"' ∷ [])

scalar_text : Scalar → Bytes
unfolding quoted bool_text
scalar_text (str s) = quoted s
scalar_text (int n) = show n
scalar_text (bool b) = bool_text b

unfoldable pub field_text : Field → Bytes
unfolding scalar_text quoted
field_text f = quoted f.0 ++ (b':' ∷ scalar_text f.1)

-- The fields behind the first, each with a comma before it.
more_fields : List Field → Bytes
unfolding field_text
more_fields [] = []
more_fields (f ∷ fs) = b',' ∷ (field_text f ++ more_fields fs)

object_text : List Field → Bytes
unfolding more_fields
object_text [] = codes "{}"
object_text (f ∷ fs) = b'{' ∷ (field_text f ++ (more_fields fs ++ b'}' ∷ []))

unfoldable pub push_object : List Field → Bytes
unfolding object_text sort_fields
push_object fields = object_text (sort_fields fields)

-- The arguments that one step adds to those of every record.
unfoldable pub own_args : Lifecycle → List Field
own_args (Lifecycle.session_start armed) = (codes "armed", bool armed) ∷ []
own_args (Lifecycle.arm via) = (codes "via", str (arm_via_str via)) ∷ []
own_args (Lifecycle.read tool kind served) =
    (codes "tool", int tool) ∷ (codes "kind", str (read_kind_str kind)) ∷ []
own_args (Lifecycle.wipe reason buffers) =
    (codes "reason", str (reason_str reason)) ∷ (codes "buffers", int buffers) ∷ []
own_args (Lifecycle.kill reason target count executed) =
    (codes "reason", str (reason_str reason))
    ∷ (codes "target", str (kill_target_str target))
    ∷ (codes "count", int count)
    ∷ []
own_args (Lifecycle.session_end reason) = (codes "reason", str (reason_str reason)) ∷ []

unfoldable pub result_of : Lifecycle → Field
result_of (Lifecycle.read _ _ served) = (codes "served", bool served)
result_of (Lifecycle.kill _ _ _ executed) = (codes "executed", bool executed)
result_of _ = (codes "success", bool true)

unfoldable pub succeeded : Lifecycle → Bool
succeeded (Lifecycle.read _ _ served) = served
succeeded _ = true

unfoldable pub common_args : (producer : Bytes) → Component → (session : Bytes) → ℕ → List Field
common_args producer component session ms =
    (codes "component", str (component_str component))
    ∷ (codes "contract", str contract_id)
    ∷ (codes "observed_unix_ms", int ms)
    ∷ (codes "producer", str producer)
    ∷ (codes "session", str session)
    ∷ []

unfoldable pub render : (producer : Bytes) → Component → (session : Bytes) → ℕ → Lifecycle → Bytes
unfolding push_object common_args own_args result_of succeeded bool_text
render producer component session ms event =
    let name = codes ",\"tool_name\":\"" ++ (tool_name event ++ codes "\"}\n") in
    let success = codes "\",\"success\":" ++ (bool_text (succeeded event) ++ name) in
    let agent = codes ",\"source_agent\":\"" ++ (source_agent component ++ success) in
    let result =
      codes ",\"duration_ms\":0,\"event_type\":\"AgentToolCall\",\"payload_refs\":[],\"result\":"
      ++ (push_object (result_of event ∷ []) ++ agent) in
    codes "{\"args\":"
    ++ (push_object (common_args producer component session ms ++ own_args event) ++ result)
