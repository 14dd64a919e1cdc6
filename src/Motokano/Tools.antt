-- ===== src/Motokano/Tools.antt =====
-- The tool registry of rs/crates/motokano/src/tools.rs. A text is a list of code points; the value
-- of a static tool is stored as its UTF-8 bytes.
pub mod Registry
pub mod Spec
pub mod Parsing
use ningen_shikkaku.Base.{
  ℕ, ◌+◌, ◌-◌, ◌^◌, Bool, true, false, Option, none, some, List, [], ◌∷◌, ◌++◌, map, ◌==◌, max, min,
  if◌then◌else◌, length, take, count_if,
}
use ningen_shikkaku.Base.Text.{Bytes, codes, text_eq}
use ningen_shikkaku.Base.Utf8.{as_bytes}
use ningen_shikkaku.Base.Words.{trim}
use ningen_shikkaku.Goodnight.Buffer.{
  SecretBuffer, Memory, Error, Result, ok, err, new, write, as_slice, wipe,
}
use ningen_shikkaku.Kiroku.{ReadKind}

pub data ToolKind : Type 0 where
  static : (buf : SecretBuffer) (len : ℕ) → ToolKind
  exec : (cmd : Bytes) → ToolKind

pub record ToolDef : Type 0 where
  pub name : Bytes
  pub description : Bytes
  pub kind : ToolKind

pub data Action : Type 0 where
  static : Bytes → Action
  exec : Bytes → Action

unfoldable pub descriptors : List ToolDef → List (Bytes × Bytes)
descriptors tools = map (λ (t : ToolDef). (t.name, t.description)) tools

-- `find`
unfoldable pub find : Bytes → List ToolDef → Option ToolDef
find name [] = none
find name (t ∷ ts) = let rest = find name ts in if text_eq t.name name then some t else rest

later : Option ℕ → Option ℕ
later none = none
later (some n) = some (n + 1)

-- `position`
unfoldable pub position : Bytes → List ToolDef → Option ℕ
unfolding later
position name [] = none
position name (t ∷ ts) =
    let rest = later (position name ts) in if text_eq t.name name then some 0 else rest

abbrev pub action_of : ToolKind → Action
action_of (ToolKind.static buf len) = Action.static (take len (as_slice buf))
action_of (ToolKind.exec cmd) = Action.exec cmd

unfoldable pub lookup : Bytes → List ToolDef → Option Action
unfolding find
lookup name tools = elim (find name tools) [ none ↦ none | some t ↦ some (action_of t.kind) ]

abbrev pub kind_of : ToolKind → ReadKind
kind_of (ToolKind.static _ _) = ReadKind.static
kind_of (ToolKind.exec _) = ReadKind.exec

-- `u32::try_from(_).unwrap_or(u32::MAX)`
abbrev pub to_u32 : ℕ → ℕ
to_u32 n = min n (2 ^ 32 - 1)

unfoldable pub describe : Bytes → List ToolDef → Option (ℕ × ReadKind)
unfolding position find
describe name tools = elim (position name tools) [
  | none ↦ none
  | some index ↦ elim (find name tools) [
    | none ↦ none
    | some t ↦ some (to_u32 index, kind_of t.kind)
  ]
]

abbrev pub is_static : ToolDef → Bool
is_static t = elim t.kind [ ToolKind.static _ _ ↦ true | ToolKind.exec _ ↦ false ]

unfoldable pub static_count : List ToolDef → ℕ
static_count tools = to_u32 (count_if is_static tools)

abbrev pub wipe_kind : ToolKind → ToolKind
wipe_kind (ToolKind.static buf len) = ToolKind.static (wipe buf) len
wipe_kind (ToolKind.exec cmd) = ToolKind.exec cmd

unfoldable pub wipe_tools : List ToolDef → List ToolDef
wipe_tools [] = []
wipe_tools (t ∷ ts) = record t { kind = wipe_kind t.kind } ∷ wipe_tools ts
