-- ===== src/Kiroku/Contract/Reading.antt =====
-- rs/crates/kiroku/src/contract.rs, `validate` on a parsed value, read backwards as a whole.
use ningen_shikkaku.Base.{
  ℕ, ◌≡◌, sym, ap, ◌∙◌, subst, Bool, true, ◌&&◌, List, [], ◌∷◌, ◌++◌, some, arith, if◌then◌else◌,
  length, ◌==◌,
}
use ningen_shikkaku.Base.Text.{Bytes, codes, text_eq}
use ningen_shikkaku.Base.Results.{ok, ensure, ok_or, >>=-take, ensure-inv}
use ningen_shikkaku.Kiroku.{
  Component, component_str, source_agent, all_components, Lifecycle, contract_id,
}
use ningen_shikkaku.Kiroku.Render.{result_of, succeeded, common_args}
use ningen_shikkaku.Kiroku.Json.{Value, Map, get, as_object, as_str, is_true}
use ningen_shikkaku.Kiroku.Render.Printing.{value_of}
use ningen_shikkaku.Kiroku.Checks.{
  Refusal, top_keys, common_keys, max_safe_int, names, texts_eq, exact_keys, and_then, str_in,
  int_le, boolean, is_some_and, is_agent, expected_agent, all_bytes, is_hex, success_key,
  tool_names,
}
use ningen_shikkaku.Kiroku.Contract.{step_keys, validate_value}
use ningen_shikkaku.Kiroku.Contract.Fields.{own_keys, result_key}
use ningen_shikkaku.Kiroku.Contract.Acceptance.{IsSession}
use ningen_shikkaku.Kiroku.Contract.Inversion.{
  get-string, str_in-inv, int_le-inv, boolean-inv, succeeds-inv, empty_array-inv, get-object,
  value-object, in_vocab-names,
}
use ningen_shikkaku.Kiroku.Contract.Soundness.{Has, Agrees, step_keys-Found}
use ningen_shikkaku.Kiroku.Contract.Records.{
  HasKeys, IsRecord, exact_keys-HasKeys, constant-at, retext, zero-at, agent-eq,
}

-- The last check, and what the arms have checked, fix the result.
result-fits :
    (result : Map) (success : Bool) (e : Lifecycle)
    → Agrees e result success
    → (if texts_eq (result_key e) success_key
        then is_some_and (get result (codes "success")) is_true && success
        else true)
      ≡ true
    → Has result (result_of e) × (success ≡ succeeded e)
unfolding result_of succeeded texts_eq text_eq value_of
result-fits result success (Lifecycle.session_start _) a h = succeeds-inv _ success h
result-fits result success (Lifecycle.arm _) a h = succeeds-inv _ success h
result-fits result success (Lifecycle.read _ _ served) a h = (a.0, sym a.1)
result-fits result success (Lifecycle.wipe _ _) a h = succeeds-inv _ success h
result-fits result success (Lifecycle.kill _ _ _ executed) a h = a
result-fits result success (Lifecycle.session_end _) a h = succeeds-inv _ success h

-- The checks of the keys and of the result, once the allowed keys are those of the step.
keys-fit :
    (args result : Map) (success : Bool) (allowed : List Bytes × List Bytes) (e : Lifecycle)
    (u w : Unit {0})
    → allowed ≡ (own_keys e, result_key e)
    → Agrees e result success
    → exact_keys args (common_keys ++ allowed.0) (codes "args") ≡ ok u
    → exact_keys result allowed.1 (codes "result") ≡ ok w
    → ensure
        (if texts_eq allowed.1 success_key
          then is_some_and (get result (codes "success")) is_true && success
          else true)
        Refusal.step_failed
      ≡ ok tt
    → HasKeys args (common_keys ++ own_keys e)
      × HasKeys result (result_key e)
      × Has result (result_of e)
      × (success ≡ succeeded e)
keys-fit args result success allowed e u w eq agrees a r last =
    let passes = λ (k : List Bytes).
      (if texts_eq k success_key
        then is_some_and (get result (codes "success")) is_true && success
        else true)
      ≡ true in
    let fits =
      result-fits result success e agrees
        (subst passes (ap (λ p. p.1) eq) (ensure-inv _ _ tt last)) in
    (
      subst (λ k. HasKeys args (common_keys ++ k)) (ap (λ p. p.0) eq)
          (exact_keys-HasKeys args _ _ u a),
      subst (HasKeys result) (ap (λ p. p.1) eq) (exact_keys-HasKeys result _ _ w r),
      fits.0,
      fits.1,
    )

IsSession-holds : (s : Bytes) → (length s == 32 && all_bytes is_hex s) ≡ true → IsSession s
IsSession-holds s h = ground arith

take : {A : Type 0} {P : A → Type 0} {G : Type 0} → (a : A) × P a → ((a : A) → P a → G) → G
take (a, p) go = go a p

-- Whatever the validator accepts is a record: of a component of the vocabulary, with a session of 32
-- hexadecimal digits, a safe time and an in-range step, holding each field that the writer gives
-- that step, and with no other key at the top, in `args` or in `result`.
pub validate_value-IsRecord :
    (producer : Bytes) (v : Value)
    → validate_value producer v ≡ ok tt
    → (c : Component) × (session : Bytes) × (ms : ℕ) × (e : Lifecycle) × IsRecord producer v c
        session ms e
unfolding validate_value value_of common_args
validate_value-IsRecord producer v h =
    >>=-take (ok_or (as_object v) Refusal.not_object) _ h λ top p0 h0.
      >>=-take (exact_keys top top_keys (codes "record")) _ h0 λ u1 p1 h1.
        >>=-take (str_in top (codes "event_type") (codes "AgentToolCall" ∷ [])) _ h1 λ kind p2 h2.
          >>=-take (str_in top (codes "source_agent") (names all_components source_agent)) _ h2
            λ agent p3 h3. >>=-take (str_in top (codes "tool_name") tool_names) _ h3 λ tool p4 h4.
              >>=-take (int_le top (codes "duration_ms") 0) _ h4 λ zero_ms p5 h5.
                >>=-take (ensure _ Refusal.payload_refs) _ h5 λ u6 p6 h6.
                  >>=-take (boolean top (codes "success")) _ h6 λ success p7 h7.
                    >>=-take (ok_or (and_then (get top (codes "args")) as_object) _) _ h7
                      λ args p8 h8.
                        >>=-take (ok_or (and_then (get top (codes "result")) as_object) _) _ h8
                          λ result p9 h9.
                            >>=-take
                              (str_in args (codes "component") (names all_components component_str))
                              _ h9
                              λ name q0 k0.
                                >>=-take (ensure _ Refusal.agent_mismatch) _ k0 λ u11 q1 k1.
                                  >>=-take (str_in args (codes "contract") (contract_id ∷ [])) _ k1
                                    λ contract q2 k2.
                                      >>=-take (str_in args (codes "producer") (producer ∷ [])) _ k2
                                        λ by q3 k3.
                                          >>=-take
                                            (int_le args (codes "observed_unix_ms") max_safe_int) _
                                            k3
                                            λ ms q4 k4.
                                              >>=-take
                                                (ok_or
                                                  (and_then (get args (codes "session")) as_str) _)
                                                _ k4
                                                λ session q5 k5.
                                                  >>=-take (ensure _ Refusal.bad_session) _ k5
                                                    λ u16 q6 k6.
                                                      >>=-take (step_keys tool args result success)
                                                        _ k6
                                                        λ allowed q7 k7.
                                                          >>=-take
                                                            (exact_keys args
                                                            (common_keys ++ allowed.0)
                                                            (codes "args"))
                                                            _ k7
                                                            λ u18 q8 k8.
                                                            >>=-take
                                                            (exact_keys result allowed.1
                                                            (codes "result"))
                                                            _ k8
                                                            λ u19 q9 k9.
                                                            take
                                                            (step_keys-Found tool args result
                                                            success allowed q7)
                                                            λ e step.
                                                            take
                                                            (in_vocab-names all_components
                                                            component_str name
                                                            (str_in-inv args (codes "component") _
                                                            name q0).1)
                                                            λ c named.
                                                            let (
                                                            args_keys, result_keys, holds, succeeds,
                                                            ) =
                                                            keys-fit args result success allowed e
                                                            u18 u19 step.keys_allowed step.agrees q8
                                                            q9 k9 in
                                                            let is_agent_of = agent-eq c agent (
                                                            subst
                                                            (λ x.
                                                            is_agent
                                                            (expected_agent all_components x) agent
                                                            ≡ true)
                                                            (sym named) (ensure-inv _ _ u11 q1)) in
                                                            (
                                                            c,
                                                            session,
                                                            ms,
                                                            e,
                                                            record {
                                                            top = top;
                                                            args = args;
                                                            result = result;
                                                            is_object = value-object v _ top p0;
                                                            top_allowed =
                                                            exact_keys-HasKeys top _ _ u1 p1;
                                                            args_allowed = args_keys;
                                                            result_allowed = result_keys;
                                                            args_at = get-object top _ _ args p8;
                                                            result_at =
                                                            get-object top _ _ result p9;
                                                            agent_at =
                                                            retext (str_in-inv top _ _ agent p3).0
                                                            (sym is_agent_of);
                                                            tool_at =
                                                            retext (str_in-inv top _ _ tool p4).0
                                                            step.named;
                                                            kind_at = constant-at top _ _ kind p2;
                                                            duration_at = zero-at top _ zero_ms p5;
                                                            refs_at =
                                                            empty_array-inv _
                                                            (ensure-inv _ _ u6 p6);
                                                            success_at =
                                                            boolean-inv top _ success p7
                                                            ∙ ap (λ b. some (Value.bool b))
                                                            succeeds;
                                                            common_at = (
                                                            retext (str_in-inv args _ _ name q0).0
                                                            (sym named),
                                                            (
                                                            constant-at args _ _ contract q2,
                                                            (
                                                            (int_le-inv args _ _ ms q4).0,
                                                            (
                                                            constant-at args _ _ by q3,
                                                            (get-string args _ session _ q5, tt),
                                                            ),
                                                            ),
                                                            ),
                                                            );
                                                            own_at = step.own;
                                                            result_holds = holds;
                                                            session_is_hex =
                                                            IsSession-holds session
                                                            (ensure-inv _ _ u16 q6);
                                                            ms_is_safe =
                                                            (int_le-inv args _ _ ms q4).1;
                                                            in_range = step.in_range;
                                                            },
                                                            )
