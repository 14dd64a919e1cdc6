-- ===== src/Motokano/Tools/Spec.antt =====
-- `parse_tool_spec` of rs/crates/motokano/src/tools.rs: what a `--tool` option says.
use ningen_shikkaku.Base.{
  ℕ, Option, none, some, List, [], ◌∷◌, ◌++◌, ◌==◌, max, if◌then◌else◌, length,
}
use ningen_shikkaku.Base.Text.{Bytes, codes, text_eq}
use ningen_shikkaku.Base.Utf8.{as_bytes}
use ningen_shikkaku.Base.Words.{trim}
use ningen_shikkaku.Goodnight.Buffer.{SecretBuffer, Memory, Error, Result, ok, err, new, write}
use ningen_shikkaku.Motokano.Tools.{ToolKind, ToolDef}

-- Why a `--tool` spec is refused.
pub data SpecError : Type 0 where
  bad_segment unknown_key unknown_kind : Bytes → SpecError
  missing_name missing_kind missing_value missing_cmd : SpecError
  no_buffer : Error → SpecError

pub data Parsed {ℓ} (A : Type ℓ) : Type ℓ where
  parsed : A → Parsed A
  refused : SpecError → Parsed A

pub record Draft : Type 0 where
  pub name : Option Bytes
  pub kind : Option Bytes
  pub value : Option Bytes
  pub cmd : Option Bytes
  pub description : Option Bytes

abbrev pub blank : Draft
blank = record { name = none; kind = none; value = none; cmd = none; description = none }

-- Puts a character in front of the first segment.
unfoldable pub grow : ℕ → List Bytes → List Bytes
grow c [] = (c ∷ []) ∷ []
grow c (seg ∷ segs) = (c ∷ seg) ∷ segs

-- `split(',')`
unfoldable pub split_commas : Bytes → List Bytes
unfolding grow
split_commas [] = [] ∷ []
split_commas (c ∷ s) = let rest = split_commas s in if c == b',' then [] ∷ rest else grow c rest

unfoldable pub front : ℕ → Option (Bytes × Bytes) → Option (Bytes × Bytes)
front c none = none
front c (some (k, v)) = some (c ∷ k, v)

-- `split_once('=')`
unfoldable pub split_once : Bytes → Option (Bytes × Bytes)
unfolding front
split_once [] = none
split_once (c ∷ s) = let rest = front c (split_once s) in if c == b'=' then some ([], s) else rest

unfoldable pub set_key : Bytes → Bytes → Draft → Parsed Draft
set_key key val d =
    if text_eq key (codes "name")
    then parsed (record d { name = some val })
    else if text_eq key (codes "kind")
    then parsed (record d { kind = some val })
    else if text_eq key (codes "value")
    then parsed (record d { value = some val })
    else if text_eq key (codes "cmd")
    then parsed (record d { cmd = some val })
    else if text_eq key (codes "desc")
    then parsed (record d { description = some val })
    else if text_eq key (codes "description")
    then parsed (record d { description = some val })
    else refused (SpecError.unknown_key key)

unfoldable pub set_segment : Bytes → Draft → Parsed Draft
unfolding split_once set_key
set_segment seg d = elim (split_once seg) [
  | none ↦ refused (SpecError.bad_segment seg)
  | some (key, val) ↦ set_key (trim key) val d
]

unfoldable pub read_segments : List Bytes → Draft → Parsed Draft
unfolding set_segment
read_segments [] d = parsed d
read_segments (seg ∷ segs) d = elim (set_segment seg d) [
  | refused e ↦ refused e
  | parsed d' ↦ read_segments segs d'
]

-- What `?` makes of the new buffer before the value goes in.
unfoldable pub write_into : Bytes → Result SecretBuffer → Result SecretBuffer
write_into value (err e) = err e
write_into value (ok buf) = write buf value

-- The locked buffer of a value; an empty value still gets one byte.
unfoldable pub store : Memory → Bytes → Result SecretBuffer
unfolding write_into
store m value = write_into value (new m (max (length value) 1))

unfoldable pub hold : ℕ → Result SecretBuffer → Parsed ToolKind
hold len (err e) = refused (SpecError.no_buffer e)
hold len (ok buf) = parsed (ToolKind.static buf len)

unfoldable pub static_kind : Memory → Option Bytes → Parsed ToolKind
unfolding store hold
static_kind m none = refused SpecError.missing_value
static_kind m (some value) = hold (length (as_bytes value)) (store m (as_bytes value))

exec_kind : Option Bytes → Parsed ToolKind
exec_kind none = refused SpecError.missing_cmd
exec_kind (some cmd) = parsed (ToolKind.exec cmd)

unfoldable pub make_kind : Memory → Bytes → Draft → Parsed ToolKind
unfolding static_kind exec_kind
make_kind m kind d =
    if text_eq kind (codes "static")
    then static_kind m d.value
    else if text_eq kind (codes "exec")
    then exec_kind d.cmd
    else refused (SpecError.unknown_kind kind)

abbrev or_default : Bytes → Option Bytes → Bytes
or_default d none = d
or_default d (some s) = s

unfoldable pub describe_default : Bytes → Bytes → Bytes
describe_default name kind = codes "motokano " ++ kind ++ codes " tool " ++ name

-- The tool behind its kind.
unfoldable pub finish_tool : (name description : Bytes) → Parsed ToolKind → Parsed ToolDef
finish_tool name description (refused e) = refused e
finish_tool name description (parsed k) =
    parsed (record { name = name; description = description; kind = k })

unfoldable pub make_tool : Memory → Bytes → Bytes → Draft → Parsed ToolDef
unfolding make_kind finish_tool
make_tool m name kind d =
    finish_tool name (or_default (describe_default name kind) d.description) (make_kind m kind d)

unfoldable pub finish : Memory → Draft → Parsed ToolDef
unfolding make_tool
finish m d = elim d.name [
  | none ↦ refused SpecError.missing_name
  | some name ↦ elim d.kind [
    | none ↦ refused SpecError.missing_kind
    | some kind ↦ make_tool m name kind d
  ]
]

unfoldable pub finish_read : Memory → Parsed Draft → Parsed ToolDef
unfolding finish
finish_read m (refused e) = refused e
finish_read m (parsed d) = finish m d

unfoldable pub parse_tool_spec : Memory → Bytes → Parsed ToolDef
unfolding read_segments finish_read
parse_tool_spec m spec = finish_read m (read_segments (split_commas spec) blank)
