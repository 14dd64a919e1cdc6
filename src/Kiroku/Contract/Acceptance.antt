-- ===== src/Kiroku/Contract/Acceptance.antt =====
-- rs/crates/kiroku/src/contract.rs, `validate`, on the records that `render` of
-- rs/crates/kiroku/src/lib.rs writes.
use ningen_shikkaku.Base.{
  ℕ, ◌≤◌, ◌<◌, ◌^◌, ◌≡◌, refl, ap, ◌∙◌, Bool, true, ◌&&◌, [], ◌∷◌, arith, Option, some, length, leb,
  le→leb, ◌==◌,
}
use ningen_shikkaku.Base.Text.{Bytes, codes, text_eq, text_eq_refl}
use ningen_shikkaku.Base.Results.{ok, ensure, ok_or, >>=-ok}
use ningen_shikkaku.Kiroku.{
  Component, component_str, source_agent, all_components, Lifecycle, tool_name, contract_id,
  max_record_bytes,
}
use ningen_shikkaku.Kiroku.Render.{succeeded, render, text_le}
use ningen_shikkaku.Kiroku.Render.Bound.{IsInRange, length-render}
use ningen_shikkaku.Kiroku.Json.{Value, Map, get, keys, as_str, as_object, is_empty_array}
use ningen_shikkaku.Kiroku.Render.Printing.{
  args_map, record_of, record_value, body_of, render-eq-print,
}
use ningen_shikkaku.Kiroku.Checks.{
  Refusal, in_vocab, exact_keys, and_then, all_bytes, strip_newline, is_hex, is_ascii, is_agent,
  expected_agent, is_some_and, insert_text, texts_eq, sort_texts,
}
use ningen_shikkaku.Kiroku.Contract.{validate_value, validate}
use ningen_shikkaku.Kiroku.Contract.Text.{
  IsPrintable, strip_newline-append, is_ascii-line, is_in_line-printable,
}
use ningen_shikkaku.Kiroku.Contract.Plain.{body_of-IsPrintable}
use ningen_shikkaku.Kiroku.Contract.Fields.{
  own_keys, result_key, component-in_vocab, agent-in_vocab, tool-in_vocab, expected_agent-component,
  get-component, get-contract, get-producer, get-ms, get-session, exact_keys-args,
  exact_keys-result,
}
use ningen_shikkaku.Kiroku.Contract.Steps.{
  str_in-ok, int_le-ok, boolean-ok, step_keys-record, step-succeeds,
}

-- Thirty-two digits or letters up to `f`.
abbrev pub IsSession : Bytes → Type 0
IsSession s = (length s ≡ 32) × (all_bytes is_hex s ≡ true)

contains_self : (s : Bytes) → in_vocab (s ∷ []) s ≡ true
unfolding in_vocab
contains_self s = rw (text_eq_refl s) refl

agent-matches :
    (c : Component)
    → ensure
        (is_agent (expected_agent all_components (component_str c)) (source_agent c))
        Refusal.agent_mismatch
      ≡ ok tt
unfolding ensure is_agent
agent-matches c = rw (expected_agent-component c, text_eq_refl (source_agent c)) refl

session-read :
    (m : Map) (session : Bytes)
    → get m (codes "session") ≡ some (Value.string session)
    → ok_or (and_then (get m (codes "session")) as_str) (Refusal.not_string (codes "session"))
      ≡ ok session
unfolding ok_or and_then as_str
session-read m session g = rw g refl

session-passes :
    (session : Bytes)
    → IsSession session
    → ensure (length session == 32 && all_bytes is_hex session) Refusal.bad_session ≡ ok tt
unfolding ensure
session-passes session h = ground (arith, h)

pub validate_value-record :
    (producer : Bytes) (c : Component) (session : Bytes) (ms : ℕ) (e : Lifecycle)
    → IsSession session
    → ms < 2 ^ 53
    → IsInRange e
    → validate_value producer (record_value producer c session ms e) ≡ ok tt
unfolding validate_value record_value record_of as_object ok_or exact_keys sort_texts insert_text
    texts_eq keys text_le text_eq get in_vocab ensure is_some_and is_empty_array and_then as_str
validate_value-record producer c session ms e hs hm he =
    let args = args_map producer c session ms e in
    let by_agent = >>=-ok (codes "AgentToolCall") _ (str_in-ok _ _ _ _ refl refl) in
    by_agent (
      >>=-ok (source_agent c) _ (str_in-ok _ _ _ _ refl (agent-in_vocab c)) (
        >>=-ok (tool_name e) _ (str_in-ok _ _ _ _ refl (tool-in_vocab e)) (
          >>=-ok 0 _ (int_le-ok _ _ 0 _ refl (omega arith)) (
            >>=-ok (succeeded e) _ (boolean-ok _ _ _ refl) (
              >>=-ok (component_str c) _
                (str_in-ok args _ _ _ (get-component producer c session ms e)
                  (component-in_vocab c))
                (>>=-ok tt _ (agent-matches c) (
                  >>=-ok contract_id _
                    (str_in-ok args _ _ _ (get-contract producer c session ms e) refl)
                    (>>=-ok producer _
                      (str_in-ok args _ _ _ (get-producer producer c session ms e)
                        (contains_self producer))
                      (>>=-ok ms _
                        (int_le-ok args _ ms _ (get-ms producer c session ms e) (omega arith))
                        (>>=-ok session _
                          (session-read args session (get-session producer c session ms e))
                          (>>=-ok tt _ (session-passes session hs) (
                            >>=-ok (own_keys e, result_key e) _
                              (step_keys-record producer c session ms e he)
                              (>>=-ok tt _ (exact_keys-args producer c session ms e)
                                (>>=-ok tt _ (exact_keys-result e) (step-succeeds e)))))))))))))))

ensured : {b : Bool} (e : Refusal) → b ≡ true → ensure b e ≡ ok tt
unfolding ensure
ensured e h = rw h refl

found : {A : Type 0} {o : Option A} {a : A} (e : Refusal) → o ≡ some a → ok_or o e ≡ ok a
unfolding ok_or
found e h = rw h refl

length-passes :
    (producer : Bytes) (c : Component) (session : Bytes) (ms : ℕ) (e : Lifecycle)
    → length producer ≤ 64
    → IsSession session
    → ms < 2 ^ 53
    → IsInRange e
    → ensure (leb (length (render producer c session ms e)) max_record_bytes) Refusal.too_long
      ≡ ok tt
length-passes producer c session ms e hl hs hm he =
    ensured _ (le→leb _ _ (length-render producer c session ms e hl (omega (arith, hs.0)) hm he))

session-IsPrintable : (s : Bytes) → all_bytes is_hex s ≡ true → IsPrintable s
unfolding all_bytes is_hex
session-IsPrintable [] h = tt
session-IsPrintable (c ∷ s) h = (ground arith, session-IsPrintable s (ground arith))

-- The validator accepts whatever the writer writes: a record of an in-range step, by a printable
-- producer of at most 64 bytes, with a session of 32 hexadecimal digits and a time below 2 ^ 53
-- milliseconds, passes every check, given a JSON parser that reads the compact text of its value
-- back.
pub validate-render :
    (from_str : Bytes → Option Value) (producer : Bytes) (c : Component) (session : Bytes) (ms : ℕ)
    (e : Lifecycle)
    → IsPrintable producer
    → length producer ≤ 64
    → IsSession session
    → ms < 2 ^ 53
    → IsInRange e
    → from_str (body_of producer c session ms e) ≡ some (record_value producer c session ms e)
    → validate from_str producer (render producer c session ms e) ≡ ok tt
unfolding validate
validate-render from_str producer c session ms e hp hl hs hm he parsed =
    let body = body_of producer c session ms e in
    let printable =
      body_of-IsPrintable producer c session ms e hp (session-IsPrintable session hs.1) in
    let text = render-eq-print producer c session ms e in
    >>=-ok tt _ (length-passes producer c session ms e hl hs hm he) (
      >>=-ok tt _
        (ap (λ t. ensure (all_bytes is_ascii t) Refusal.not_ascii) text
          ∙ ensured _ (is_ascii-line body printable))
        (>>=-ok body _
          (ap (λ t. ok_or (strip_newline t) Refusal.not_terminated) text
            ∙ found _ (strip_newline-append body))
          (>>=-ok tt _ (ensured _ (is_in_line-printable body printable)) (
            >>=-ok (record_value producer c session ms e) _ (found _ parsed)
              (validate_value-record producer c session ms e hs hm he)))))
