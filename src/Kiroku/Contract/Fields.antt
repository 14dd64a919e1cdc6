-- ===== src/Kiroku/Contract/Fields.antt =====
-- The fields of a record's `args` (rs/crates/kiroku/src/lib.rs), as `validate` of
-- rs/crates/kiroku/src/contract.rs looks them up.
use ningen_shikkaku.Base.{ℕ, ◌≡◌, refl, true, List, [], ◌∷◌, ◌++◌, map, some}
use ningen_shikkaku.Base.Text.{Bytes, codes, text_eq}
use ningen_shikkaku.Base.Results.{ok, ensure}
use ningen_shikkaku.Kiroku.{
  Component, component_str, source_agent, all_components, Lifecycle, tool_name, contract_id,
}
use ningen_shikkaku.Kiroku.Render.{
  Field, result_of, common_args, own_args, sort_fields, insert, text_le,
}
use ningen_shikkaku.Kiroku.Json.{Value, get, keys}
use ningen_shikkaku.Kiroku.Render.Printing.{members, value_of, args_map, result_map}
use ningen_shikkaku.Kiroku.Checks.{
  exact_keys, sort_texts, insert_text, texts_eq, common_keys, names, in_vocab, expected_agent,
  tool_names,
}

abbrev pub own_keys : Lifecycle → List Bytes
own_keys e = map (λ (f : Field). f.0) (own_args e)

abbrev pub result_key : Lifecycle → List Bytes
result_key e = (result_of e).0 ∷ []

pub component-in_vocab :
    (c : Component) → in_vocab (names all_components component_str) (component_str c) ≡ true
unfolding in_vocab names component_str text_eq
component-in_vocab Component.dazai = refl
component-in_vocab Component.motokano = refl

pub agent-in_vocab :
    (c : Component) → in_vocab (names all_components source_agent) (source_agent c) ≡ true
unfolding in_vocab names source_agent text_eq
agent-in_vocab Component.dazai = refl
agent-in_vocab Component.motokano = refl

pub tool-in_vocab : (e : Lifecycle) → in_vocab tool_names (tool_name e) ≡ true
unfolding in_vocab tool_name text_eq
tool-in_vocab (Lifecycle.session_start _) = refl
tool-in_vocab _ = refl

pub expected_agent-component :
    (c : Component) → expected_agent all_components (component_str c) ≡ some (source_agent c)
unfolding expected_agent component_str text_eq
expected_agent-component Component.dazai = refl
expected_agent-component Component.motokano = refl

module _ (producer : Bytes) (c : Component) (session : Bytes) (ms : ℕ) where
  pub get-component :
      (e : Lifecycle)
      → get (args_map producer c session ms e) (codes "component")
        ≡ some (Value.string (component_str c))
  unfolding get args_map members value_of sort_fields insert text_le common_args own_args text_eq
  get-component (Lifecycle.session_start _) = refl
  get-component _ = refl

  pub get-contract :
      (e : Lifecycle)
      → get (args_map producer c session ms e) (codes "contract") ≡ some (Value.string contract_id)
  unfolding get args_map members value_of sort_fields insert text_le common_args own_args text_eq
  get-contract (Lifecycle.session_start _) = refl
  get-contract _ = refl

  pub get-producer :
      (e : Lifecycle)
      → get (args_map producer c session ms e) (codes "producer") ≡ some (Value.string producer)
  unfolding get args_map members value_of sort_fields insert text_le common_args own_args text_eq
  get-producer (Lifecycle.session_start _) = refl
  get-producer _ = refl

  pub get-ms :
      (e : Lifecycle)
      → get (args_map producer c session ms e) (codes "observed_unix_ms") ≡ some (Value.number ms)
  unfolding get args_map members value_of sort_fields insert text_le common_args own_args text_eq
  get-ms (Lifecycle.session_start _) = refl
  get-ms _ = refl

  pub get-session :
      (e : Lifecycle)
      → get (args_map producer c session ms e) (codes "session") ≡ some (Value.string session)
  unfolding get args_map members value_of sort_fields insert text_le common_args own_args text_eq
  get-session (Lifecycle.session_start _) = refl
  get-session _ = refl

  pub exact_keys-args :
      (e : Lifecycle)
      → exact_keys (args_map producer c session ms e) (common_keys ++ own_keys e) (codes "args")
        ≡ ok tt
  unfolding exact_keys sort_texts insert_text texts_eq ensure keys args_map members sort_fields
      insert text_le common_args own_args text_eq
  exact_keys-args (Lifecycle.session_start _) = refl
  exact_keys-args _ = refl

pub exact_keys-result :
    (e : Lifecycle) → exact_keys (result_map e) (result_key e) (codes "result") ≡ ok tt
unfolding exact_keys sort_texts insert_text texts_eq ensure keys result_map members result_of
    text_eq
exact_keys-result (Lifecycle.session_start _) = refl
exact_keys-result _ = refl
