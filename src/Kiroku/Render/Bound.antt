-- ===== src/Kiroku/Render/Bound.antt =====
-- `MAX_RECORD_BYTES` of rs/crates/kiroku/src/lib.rs: a record is one atomic write to a pipe.
use ningen_shikkaku.Base.{
  ℕ, ◌+◌, ◌-◌, ◌^◌, ◌≤◌, ◌<◌, true, [], ◌∷◌, ◌++◌, arith, length, length-append,
}
use ningen_shikkaku.Base.Text.{Bytes, codes}
use ningen_shikkaku.Base.Decimal.{show, length-show, pow10}
use ningen_shikkaku.Kiroku.{
  Component, component_str, source_agent, ArmVia, arm_via_str, Reason, reason_str, KillTarget,
  kill_target_str, ReadKind, read_kind_str, Lifecycle, tool_name, contract_id, max_record_bytes,
}
use ningen_shikkaku.Kiroku.Render.{
  bool_text, field_text, push_object, own_args, result_of, succeeded, common_args, render,
}
use ningen_shikkaku.Kiroku.Render.Size.{
  size, size-append, length-push_object, length-field_str, length-field_int, length-field_bool,
  length-bool_text,
}

abbrev pub u32_max : ℕ
u32_max = 2 ^ 32 - 1

-- The numbers of a step are `u32`.
abbrev pub IsInRange : Lifecycle → Type 0
IsInRange (Lifecycle.read tool _ _) = tool ≤ u32_max
IsInRange (Lifecycle.wipe _ buffers) = buffers ≤ u32_max
IsInRange (Lifecycle.kill _ _ count _) = count ≤ u32_max
IsInRange _ = Unit

length-show_u32 : (n : ℕ) → n ≤ u32_max → length (show n) ≤ 10
unfolding pow10
length-show_u32 n h = length-show 9 n (omega arith)

length-show_ms : (n : ℕ) → n < 2 ^ 53 → length (show n) ≤ 16
unfolding pow10
length-show_ms n h = length-show 15 n (omega arith)

length-reason_str : (r : Reason) → length (reason_str r) ≤ 17
unfolding reason_str
length-reason_str Reason.heartbeat_lost = ground arith
length-reason_str r = ground arith

length-kill_target_str : (t : KillTarget) → length (kill_target_str t) ≤ 10
unfolding kill_target_str
length-kill_target_str t = ground arith

length-read_kind_str : (k : ReadKind) → length (read_kind_str k) ≤ 6
unfolding read_kind_str
length-read_kind_str k = ground arith

length-arm_via_str : (v : ArmVia) → length (arm_via_str v) ≤ 7
unfolding arm_via_str
length-arm_via_str v = ground arith

length-component_str : (c : Component) → length (component_str c) ≤ 8
unfolding component_str
length-component_str c = ground arith

length-source_agent : (c : Component) → length (source_agent c) ≤ 12
unfolding source_agent
length-source_agent c = ground arith

length-tool_name : (e : Lifecycle) → length (tool_name e) ≤ 20
unfolding tool_name
length-tool_name e = ground arith

size-own_args : (e : Lifecycle) → IsInRange e → size (own_args e) ≤ 70
unfolding own_args
size-own_args (Lifecycle.session_start armed) h =
    omega (arith, length-field_bool (codes "armed") armed)
size-own_args (Lifecycle.arm via) h =
    omega (arith, length-field_str (codes "via") (arm_via_str via), length-arm_via_str via)
size-own_args (Lifecycle.read tool kind served) h = omega (
  arith,
  length-field_int (codes "tool") tool,
  length-show_u32 tool h,
  length-field_str (codes "kind") (read_kind_str kind),
  length-read_kind_str kind,
)
size-own_args (Lifecycle.wipe reason buffers) h = omega (
  arith,
  length-field_str (codes "reason") (reason_str reason),
  length-reason_str reason,
  length-field_int (codes "buffers") buffers,
  length-show_u32 buffers h,
)
size-own_args (Lifecycle.kill reason target count executed) h = omega (
  arith,
  length-field_str (codes "reason") (reason_str reason),
  length-reason_str reason,
  length-field_str (codes "target") (kill_target_str target),
  length-kill_target_str target,
  length-field_int (codes "count") count,
  length-show_u32 count h,
)
size-own_args (Lifecycle.session_end reason) h =
    omega (arith, length-field_str (codes "reason") (reason_str reason), length-reason_str reason)

size-common_args :
    (producer : Bytes) (c : Component) (session : Bytes) (ms : ℕ)
    → ms < 2 ^ 53
    → size (common_args producer c session ms) ≤ 123 + length producer + length session
unfolding common_args
size-common_args producer c session ms h = omega (
  arith,
  length-field_str (codes "component") (component_str c),
  length-component_str c,
  length-field_str (codes "contract") contract_id,
  length-field_int (codes "observed_unix_ms") ms,
  length-show_ms ms h,
  length-field_str (codes "producer") producer,
  length-field_str (codes "session") session,
)

length-result_of : (e : Lifecycle) → length (field_text (result_of e)) ≤ 16
unfolding result_of
length-result_of (Lifecycle.read t k served) =
    omega (arith, length-field_bool (codes "served") served)
length-result_of (Lifecycle.kill r t n executed) =
    omega (arith, length-field_bool (codes "executed") executed)
length-result_of (Lifecycle.session_start b) =
    omega (arith, length-field_bool (codes "success") true)
length-result_of (Lifecycle.arm v) = omega (arith, length-field_bool (codes "success") true)
length-result_of (Lifecycle.wipe r n) = omega (arith, length-field_bool (codes "success") true)
length-result_of (Lifecycle.session_end r) = omega (arith, length-field_bool (codes "success") true)

-- Bounds of two texts are one of both.
length-append_le : (a b : Bytes) (m n : ℕ) → length a ≤ m → length b ≤ n → length (a ++ b) ≤ m + n
length-append_le a b m n h k = omega (arith, length-append a b)

le_weaken : (x m n : ℕ) → x ≤ m → m ≤ n → x ≤ n
le_weaken x m n h k = omega arith

length-args :
    (producer : Bytes) (c : Component) (session : Bytes) (ms : ℕ) (e : Lifecycle)
    → length producer ≤ 64
    → length session ≤ 32
    → ms < 2 ^ 53
    → IsInRange e
    → length (push_object (common_args producer c session ms ++ own_args e)) ≤ 291
length-args producer c session ms e p s h r =
    let common = common_args producer c session ms in
    omega (
      arith,
      length-push_object (common ++ own_args e),
      size-append common (own_args e),
      size-common_args producer c session ms h,
      size-own_args e r,
    )

length-result : (e : Lifecycle) → length (push_object (result_of e ∷ [])) ≤ 19
length-result e = omega (arith, length-push_object (result_of e ∷ []), length-result_of e)

-- A record of a session of at most 32 characters, by a producer of at most 64, at a time below
-- 2 ^ 53 milliseconds and with counts that are `u32`, has at most 512 bytes.
pub length-render :
    (producer : Bytes) (c : Component) (session : Bytes) (ms : ℕ) (e : Lifecycle)
    → length producer ≤ 64
    → length session ≤ 32
    → ms < 2 ^ 53
    → IsInRange e
    → length (render producer c session ms e) ≤ max_record_bytes
unfolding render
length-render producer c session ms e p s h r =
    let args = push_object (common_args producer c session ms ++ own_args e) in
    let result = push_object (result_of e ∷ []) in
    let done = bool_text (succeeded e) in
    let u4 = codes "\"}\n" in
    let t4 = tool_name e ++ u4 in
    let u3 = codes ",\"tool_name\":\"" ++ t4 in
    let t3 = done ++ u3 in
    let u2 = codes "\",\"success\":" ++ t3 in
    let t2 = source_agent c ++ u2 in
    let u1 = codes ",\"source_agent\":\"" ++ t2 in
    let t1 = result ++ u1 in
    let filler =
      codes ",\"duration_ms\":0,\"event_type\":\"AgentToolCall\",\"payload_refs\":[],\"result\":" in
    let u0 = filler ++ t1 in
    let t0 = args ++ u0 in
    let b4 = length-append_le (tool_name e) u4 20 3 (length-tool_name e) (omega arith) in
    let c3 = length-append_le (codes ",\"tool_name\":\"") t4 14 23 (omega arith) b4 in
    let b3 = length-append_le done u3 5 37 (length-bool_text (succeeded e)) c3 in
    let c2 = length-append_le (codes "\",\"success\":") t3 12 42 (omega arith) b3 in
    let b2 = length-append_le (source_agent c) u2 12 54 (length-source_agent c) c2 in
    let c1 = length-append_le (codes ",\"source_agent\":\"") t2 17 66 (omega arith) b2 in
    let b1 = length-append_le result u1 19 83 (length-result e) c1 in
    let c0 = length-append_le filler t1 87 102 (omega arith) b1 in
    let b0 = length-append_le args u0 291 189 (length-args producer c session ms e p s h r) c0 in
    let whole = length-append_le (codes "{\"args\":") t0 8 480 (omega arith) b0 in
    le_weaken (length (codes "{\"args\":" ++ t0)) 488 512 whole (omega arith)
