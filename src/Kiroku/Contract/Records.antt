-- ===== src/Kiroku/Contract/Records.antt =====
-- rs/crates/kiroku/src/contract.rs, `validate`: the records that it accepts.
use ningen_shikkaku.Base.{
  ℕ, ◌≤◌, ◌≡◌, refl, sym, ap, ◌∙◌, true, List, [], ◌∷◌, ◌++◌, Option, some, All, arith,
}
use ningen_shikkaku.Base.Text.{Bytes, codes, text_eq, text_eq_iff}
use ningen_shikkaku.Base.Results.{ok, ensure-inv}
use ningen_shikkaku.Kiroku.{
  Component, component_str, source_agent, all_components, Lifecycle, tool_name,
}
use ningen_shikkaku.Kiroku.Render.{str, int, bool, result_of, succeeded, common_args, own_args}
use ningen_shikkaku.Kiroku.Render.Bound.{IsInRange}
use ningen_shikkaku.Kiroku.Json.{Value, Items, Map, get, keys}
use ningen_shikkaku.Kiroku.Render.Printing.{value_of}
use ningen_shikkaku.Kiroku.Checks.{
  top_keys, common_keys, max_safe_int, in_vocab, texts_eq, sort_texts, exact_keys, str_in, int_le,
  is_agent, expected_agent,
}
use ningen_shikkaku.Kiroku.Contract.Fields.{own_keys, result_key}
use ningen_shikkaku.Kiroku.Contract.Acceptance.{IsSession}
use ningen_shikkaku.Kiroku.Contract.Inversion.{str_in-inv, int_le-inv}
use ningen_shikkaku.Kiroku.Contract.Soundness.{Has}

-- The map's keys are the given ones, each as often, in some order.
abbrev pub HasKeys : Map → List Bytes → Type 0
HasKeys m want = sort_texts (keys m) ≡ sort_texts want

texts_eq-eq : (a b : List Bytes) → texts_eq a b ≡ true → a ≡ b
unfolding texts_eq
texts_eq-eq (s ∷ a) (t ∷ b) h = ground (arith, text_eq_iff s t, texts_eq-eq a b)
texts_eq-eq [] [] h = refl
texts_eq-eq _ _ h = cc

pub exact_keys-HasKeys :
    (m : Map) (want : List Bytes) (what : Bytes) (u : Unit {0})
    → exact_keys m want what ≡ ok u
    → HasKeys m want
unfolding exact_keys
exact_keys-HasKeys m want what u h = texts_eq-eq _ _ (ensure-inv _ _ u h)

-- The value is a record of `producer` for the step `e` of the component `c`: nothing is missing from
-- it, and it has no key besides.
pub record IsRecord (producer : Bytes) (v : Value) (c : Component) (session : Bytes) (ms : ℕ)
    (e : Lifecycle) : Type 0 where
  pub top : Map
  pub args : Map
  pub result : Map
  pub is_object : v ≡ Value.object top
  pub top_allowed : HasKeys top top_keys
  pub args_allowed : HasKeys args (common_keys ++ own_keys e)
  pub result_allowed : HasKeys result (result_key e)
  pub args_at : get top (codes "args") ≡ some (Value.object args)
  pub result_at : get top (codes "result") ≡ some (Value.object result)
  pub agent_at : Has top (codes "source_agent", str (source_agent c))
  pub tool_at : Has top (codes "tool_name", str (tool_name e))
  pub kind_at : Has top (codes "event_type", str (codes "AgentToolCall"))
  pub duration_at : Has top (codes "duration_ms", int 0)
  pub refs_at : get top (codes "payload_refs") ≡ some (Value.array Items.nil)
  pub success_at : Has top (codes "success", bool (succeeded e))
  pub common_at : All (Has args) (common_args producer c session ms)
  pub own_at : All (Has args) (own_args e)
  pub result_holds : Has result (result_of e)
  pub session_is_hex : IsSession session
  pub ms_is_safe : ms ≤ max_safe_int
  pub in_range : IsInRange e

self-in_vocab : (s t : Bytes) → in_vocab (s ∷ []) t ≡ true → s ≡ t
unfolding in_vocab
self-in_vocab s t h = (text_eq_iff s t).0 (ground arith)

-- A single word of a vocabulary is that word.
pub constant-at : (m : Map) (key s t : Bytes) → str_in m key (s ∷ []) ≡ ok t → Has m (key, str s)
unfolding value_of
constant-at m key s t h =
    let (g, known) = str_in-inv m key (s ∷ []) t h in
    g ∙ ap (λ x. some (Value.string x)) (sym (self-in_vocab s t known))

pub retext :
    {o : Option Value} {s t : Bytes} → o ≡ some (Value.string s) → s ≡ t → o ≡ some (Value.string t)
retext g e = g ∙ ap (λ x. some (Value.string x)) e

pub zero-at : (m : Map) (key : Bytes) (n : ℕ) → int_le m key 0 ≡ ok n → Has m (key, int 0)
unfolding value_of
zero-at m key n h =
    let (g, le) = int_le-inv m key 0 n h in
    let zero_eq : n ≡ 0 = omega arith in g ∙ ap (λ k. some (Value.number k)) zero_eq

-- The agent that goes with the component is the record's.
pub agent-eq :
    (c : Component) (agent : Bytes)
    → is_agent (expected_agent all_components (component_str c)) agent ≡ true
    → source_agent c ≡ agent
unfolding is_agent expected_agent component_str text_eq
agent-eq Component.dazai agent h = (text_eq_iff _ agent).0 h
agent-eq Component.motokano agent h = (text_eq_iff _ agent).0 h
