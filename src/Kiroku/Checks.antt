-- ===== src/Kiroku/Checks.antt =====
-- rs/crates/kiroku/src/contract.rs: the messages, constants and helpers of `validate`, and the tests
-- that it makes in passing.
use mathlib.Core.Option
use ningen_shikkaku.Base.{
  ℕ, ◌-◌, ◌^◌, Bool, true, false, not, ◌&&◌, ◌||◌, List, [], ◌∷◌, map, Option, none, some, ◌==◌,
  ltb, leb, if◌then◌else◌,
}
use ningen_shikkaku.Base.Text.{Bytes, codes, text_eq}
use ningen_shikkaku.Base.Results.{Result, ok, ◌>>=◌, ◌>>◌, ensure, ok_or}
use ningen_shikkaku.Kiroku.{Component, component_str, source_agent}
use ningen_shikkaku.Kiroku.Render.{text_le}
use ningen_shikkaku.Kiroku.Json.{Value, Map, get, keys, as_str, as_u64, as_bool}

-- The messages of the validator, each as a constructor.
pub data Refusal : Type 0 where
  too_long not_ascii not_terminated line_break not_json not_object : Refusal
  wrong_keys not_string not_in_vocabulary not_integer too_big not_boolean not_an_object :
      (what : Bytes) → Refusal
  payload_refs agent_mismatch bad_session read_mismatch kill_failed step_failed unreachable :
      Refusal

abbrev pub Check : Type 0 → Type 0
Check A = Result Refusal A

abbrev pub top_keys : List Bytes
top_keys =
    codes "args"
    ∷ codes "duration_ms"
    ∷ codes "event_type"
    ∷ codes "payload_refs"
    ∷ codes "result"
    ∷ codes "source_agent"
    ∷ codes "success"
    ∷ codes "tool_name"
    ∷ []

abbrev pub common_keys : List Bytes
common_keys =
    codes "component"
    ∷ codes "contract"
    ∷ codes "observed_unix_ms"
    ∷ codes "producer"
    ∷ codes "session"
    ∷ []

abbrev pub max_safe_int : ℕ
max_safe_int = 2 ^ 53 - 1

unfoldable pub insert_text : Bytes → List Bytes → List Bytes
insert_text s [] = s ∷ []
insert_text s (t ∷ ts) = let rest = t ∷ insert_text s ts in if text_le s t then s ∷ t ∷ ts else rest

-- `sort_unstable` on texts.
unfoldable pub sort_texts : List Bytes → List Bytes
sort_texts [] = []
sort_texts (s ∷ ss) = insert_text s (sort_texts ss)

-- `==` on slices of texts.
unfoldable pub texts_eq : List Bytes → List Bytes → Bool
texts_eq [] [] = true
texts_eq (s ∷ ss) (t ∷ ts) = text_eq s t && texts_eq ss ts
texts_eq _ _ = false

unfoldable pub in_vocab : List Bytes → Bytes → Bool
in_vocab [] s = false
in_vocab (t ∷ ts) s = text_eq t s || in_vocab ts s

unfoldable pub exact_keys : Map → List Bytes → (what : Bytes) → Check (Unit {0})
exact_keys obj want what =
    ensure (texts_eq (sort_texts (keys obj)) (sort_texts want)) (Refusal.wrong_keys what)

-- `obj.get(key).and_then(access)`.
unfoldable pub and_then : {A : Type 0} → Option Value → (Value → Option A) → Option A
and_then none access = none
and_then (some v) access = access v

unfoldable pub str_in : Map → Bytes → (vocab : List Bytes) → Check Bytes
str_in obj key vocab = do
  s ← ok_or (and_then (get obj key) as_str) (Refusal.not_string key)
  ensure (in_vocab vocab s) (Refusal.not_in_vocabulary key)
  ok s

unfoldable pub int_le : Map → Bytes → (max : ℕ) → Check ℕ
int_le obj key max = do
  n ← ok_or (and_then (get obj key) as_u64) (Refusal.not_integer key)
  ensure (leb n max) (Refusal.too_big key)
  ok n

unfoldable pub boolean : Map → Bytes → Check Bool
boolean obj key = ok_or (and_then (get obj key) as_bool) (Refusal.not_boolean key)

unfoldable pub names : {A : Type 0} → List A → (A → Bytes) → List Bytes
names all f = map f all

unfoldable pub all_bytes : (ℕ → Bool) → Bytes → Bool
all_bytes test [] = true
all_bytes test (c ∷ s) = test c && all_bytes test s

unfoldable pub strip_newline : Bytes → Option Bytes
strip_newline [] = none
strip_newline (c ∷ []) = if c == b'\n' then some [] else none
strip_newline (c ∷ d ∷ s) = Option.map (λ t. c ∷ t) (strip_newline (d ∷ s))

unfoldable pub is_hex : ℕ → Bool
is_hex c = (leb b'0' c && leb c b'9') || (leb b'a' c && leb c b'f')

unfoldable pub bool_eq : Bool → Bool → Bool
bool_eq a b = if a then b else not b

unfoldable pub is_ascii : ℕ → Bool
is_ascii c = ltb c 128

unfoldable pub is_in_line : ℕ → Bool
is_in_line c = not (c == b'\n' || c == b'\r')

unfoldable pub is_some_and : Option Value → (Value → Bool) → Bool
is_some_and none test = false
is_some_and (some v) test = test v

-- `Component::ALL.iter().find(..).map(..)`: the agent of the component with that name.
unfoldable pub expected_agent : List Component → (name : Bytes) → Option Bytes
expected_agent [] name = none
expected_agent (c ∷ cs) name =
    if text_eq (component_str c) name then some (source_agent c) else expected_agent cs name

-- `== Some(source_agent)`.
unfoldable pub is_agent : Option Bytes → Bytes → Bool
is_agent none agent = false
is_agent (some a) agent = text_eq a agent

abbrev pub tool_names : List Bytes
tool_names =
    codes "ningen.session_start"
    ∷ codes "ningen.arm"
    ∷ codes "ningen.read"
    ∷ codes "ningen.wipe"
    ∷ codes "ningen.kill"
    ∷ codes "ningen.session_end"
    ∷ []

abbrev pub success_key : List Bytes
success_key = codes "success" ∷ []
