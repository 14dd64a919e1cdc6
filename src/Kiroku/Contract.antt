-- ===== src/Kiroku/Contract.antt =====
-- rs/crates/kiroku/src/contract.rs, `validate`. The JSON parser and the producer's name, which the
-- build puts together, are parameters.
pub mod Text
pub mod Plain
pub mod Fields
pub mod Inversion
pub mod Soundness
pub mod Records
pub mod Reading
pub mod Steps
pub mod Lines
pub mod Acceptance
use mathlib.Core.Option
use ningen_shikkaku.Base.{
  ℕ, ◌-◌, ◌^◌, Bool, true, false, not, ◌&&◌, ◌||◌, List, [], ◌∷◌, ◌++◌, map, Option, none, some,
  ◌==◌, ltb, leb, length, if◌then◌else◌,
}
use ningen_shikkaku.Base.Text.{Bytes, codes, text_eq}
use ningen_shikkaku.Base.Results.{Result, ok, err, ◌>>=◌, ◌>>◌, ensure, ok_or}
use ningen_shikkaku.Kiroku.{
  Component, all_components, component_str, source_agent, all_arm_vias, arm_via_str, all_reasons,
  reason_str, all_kill_targets, kill_target_str, all_read_kinds, read_kind_str, contract_id,
  max_record_bytes,
}
use ningen_shikkaku.Kiroku.Render.{text_le}
use ningen_shikkaku.Kiroku.Json.{
  Value, Map, get, keys, as_str, as_u64, as_bool, as_object, is_empty_array, is_true,
}
use ningen_shikkaku.Kiroku.Checks.{
  Refusal, Check, top_keys, common_keys, max_safe_int, insert_text, sort_texts, texts_eq, in_vocab,
  exact_keys, and_then, str_in, int_le, boolean, names, all_bytes, strip_newline, is_hex, bool_eq,
  is_ascii, is_in_line, is_some_and, expected_agent, is_agent, tool_names, success_key,
}

-- The `match tool_name`: what one step asks of `args` and `result`, and the keys that it allows in
-- each.
unfoldable pub step_keys :
    (tool : Bytes) (args result : Map) (success : Bool) → Check (List Bytes × List Bytes)
step_keys tool args result success =
    let reasons = names all_reasons reason_str in
    let u32_max : ℕ = 2 ^ 32 - 1 in
    if text_eq tool (codes "ningen.session_start")
    then (boolean args (codes "armed") >>= λ _. ok (codes "armed" ∷ [], success_key))
    else if text_eq tool (codes "ningen.arm")
    then (str_in args (codes "via") (names all_arm_vias arm_via_str) >>= λ _.
        ok (codes "via" ∷ [], success_key))
    else if text_eq tool (codes "ningen.read")
    then (do
      int_le args (codes "tool") u32_max
      str_in args (codes "kind") (names all_read_kinds read_kind_str)
      served ← boolean result (codes "served")
      ensure (bool_eq served success) Refusal.read_mismatch
      ok (codes "tool" ∷ codes "kind" ∷ [], codes "served" ∷ []))
    else if text_eq tool (codes "ningen.wipe")
    then (do
      str_in args (codes "reason") reasons
      int_le args (codes "buffers") u32_max
      ok (codes "reason" ∷ codes "buffers" ∷ [], success_key))
    else if text_eq tool (codes "ningen.kill")
    then (do
      str_in args (codes "reason") reasons
      str_in args (codes "target") (names all_kill_targets kill_target_str)
      int_le args (codes "count") u32_max
      boolean result (codes "executed")
      ensure success Refusal.kill_failed
      ok (codes "reason" ∷ codes "target" ∷ codes "count" ∷ [], codes "executed" ∷ []))
    else if text_eq tool (codes "ningen.session_end")
    then (str_in args (codes "reason") reasons >>= λ _. ok (codes "reason" ∷ [], success_key))
    else err Refusal.unreachable

-- The checks of the parsed value.
unfoldable pub validate_value : (producer : Bytes) → Value → Check (Unit {0})
validate_value producer value = do
  top ← ok_or (as_object value) Refusal.not_object
  exact_keys top top_keys (codes "record")
  str_in top (codes "event_type") (codes "AgentToolCall" ∷ [])
  agent ← str_in top (codes "source_agent") (names all_components source_agent)
  tool ← str_in top (codes "tool_name") tool_names
  int_le top (codes "duration_ms") 0
  ensure (is_some_and (get top (codes "payload_refs")) is_empty_array) Refusal.payload_refs
  success ← boolean top (codes "success")
  args ← ok_or (and_then (get top (codes "args")) as_object) (Refusal.not_an_object (codes "args"))
  result ←
      ok_or (and_then (get top (codes "result")) as_object) (Refusal.not_an_object (codes "result"))
  component ← str_in args (codes "component") (names all_components component_str)
  ensure (is_agent (expected_agent all_components component) agent) Refusal.agent_mismatch
  str_in args (codes "contract") (contract_id ∷ [])
  str_in args (codes "producer") (producer ∷ [])
  int_le args (codes "observed_unix_ms") max_safe_int
  session ←
      ok_or (and_then (get args (codes "session")) as_str) (Refusal.not_string (codes "session"))
  ensure (length session == 32 && all_bytes is_hex session) Refusal.bad_session
  step ← step_keys tool args result success
  exact_keys args (common_keys ++ step.0) (codes "args")
  exact_keys result step.1 (codes "result")
  ensure
      (if texts_eq step.1 success_key
        then is_some_and (get result (codes "success")) is_true && success
        else true)
      Refusal.step_failed

unfoldable pub validate :
    (from_str : Bytes → Option Value) (producer : Bytes) → (line : Bytes) → Check (Unit {0})
validate from_str producer line = do
  ensure (leb (length line) max_record_bytes) Refusal.too_long
  ensure (all_bytes is_ascii line) Refusal.not_ascii
  body ← ok_or (strip_newline line) Refusal.not_terminated
  ensure (all_bytes is_in_line body) Refusal.line_break
  value ← ok_or (from_str body) Refusal.not_json
  validate_value producer value
