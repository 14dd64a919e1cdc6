-- ===== src/Motokano/Server/Listing.antt =====
-- `list_tools` against `call_tool` (rs/crates/motokano/src/server.rs).
use ningen_shikkaku.Base.{
  ℕ, ◌≡◌, refl, ap, ◌∙◌, Bool, true, false, not, Option, none, some, List, [], ◌∷◌, if◌then◌else◌,
  Bool-cases, Option-cases, inl, inr, arith,
}
use ningen_shikkaku.Base.Text.{Bytes, text_eq}
use ningen_shikkaku.Kiroku.{ReadKind}
use ningen_shikkaku.Motokano.Tools.{
  ToolDef, Action, descriptors, find, position, lookup, describe, wipe_tools,
}
use ningen_shikkaku.Motokano.Server.{
  Server, Runner, Answer, unknown_tool, list_tools, output_of, conclude, complete, dispatch,
  call_tool,
}

-- Whether a name is in the list that a client is shown.
abbrev pub is_listed : Bytes → List (Bytes × Bytes) → Bool
is_listed name [] = false
is_listed name ((n, d) ∷ rest) = if text_eq n name then true else is_listed name rest

abbrev pub is_unknown : Answer → Bool
is_unknown unknown_tool = true
is_unknown _ = false

abbrev is_some {ℓ} : {A : Type ℓ} → Option A → Bool
is_some none = false
is_some (some _) = true

find-listed :
    (name : Bytes) (ts : List ToolDef) → is_some (find name ts) ≡ is_listed name (descriptors ts)
unfolding find descriptors
find-listed name [] = refl
find-listed name (t ∷ ts) = elim (Bool-cases (text_eq t.name name)) [
  | inl e ↦ rw e refl
  | inr e ↦ rw e (find-listed name ts)
]

position-listed :
    (name : Bytes) (ts : List ToolDef)
    → is_some (position name ts) ≡ is_listed name (descriptors ts)
unfolding position descriptors
position-listed name [] = refl
position-listed name (t ∷ ts) = elim (Bool-cases (text_eq t.name name)) [
  | inl e ↦ rw e refl
  | inr e ↦
      let rest = position-listed name ts in
      rw e (elim (Option-cases (position name ts)) [
        | inl n ↦ rw n (rw n at rest)
        | inr (i, n) ↦ rw n (rw n at rest)
      ])
]

conclude-known :
    (o : Option Bytes) (d : ℕ × ReadKind) (s : Server) → is_unknown (conclude o d s).1 ≡ false
unfolding conclude complete
conclude-known none d s = refl
conclude-known (some text) d s = refl

lookup-listed :
    (name : Bytes) (ts : List ToolDef) → is_some (lookup name ts) ≡ is_listed name (descriptors ts)
unfolding lookup
lookup-listed name ts =
    let f = find-listed name ts in
    elim (Option-cases (find name ts)) [
      | inl n ↦ rw (n, lookup) (rw n at f)
      | inr (t, n) ↦ rw (n, lookup) (rw n at f)
    ]

describe-listed :
    (name : Bytes) (ts : List ToolDef)
    → is_some (describe name ts) ≡ is_listed name (descriptors ts)
unfolding describe
describe-listed name ts =
    let p = position-listed name ts in
    elim (Option-cases (position name ts)) [
      | inl m ↦ rw (m, describe) (rw m at p)
      | inr (i, m) ↦
          let f = find-listed name ts in
          elim (Option-cases (find name ts)) [
            | inl n ↦ rw (m, n, describe) (rw n at f)
            | inr (t, n) ↦ rw (m, n, describe) (rw n at f)
          ]
    ]

dispatch-listed :
    (r : Runner) (d : Option (ℕ × ReadKind)) (a : Option Action) (listed : Bool) (s : Server)
    → is_some d ≡ listed
    → is_some a ≡ listed
    → is_unknown (dispatch r d a s).1 ≡ not listed
unfolding dispatch
dispatch-listed r none a listed s e f = ap not e
dispatch-listed r (some d) none listed s e f = ap not f
dispatch-listed r (some d) (some a) listed s e f = conclude-known (output_of r a) d s ∙ ap not e

descriptors-wipe_tools : (ts : List ToolDef) → descriptors (wipe_tools ts) ≡ descriptors ts
unfolding descriptors wipe_tools
descriptors-wipe_tools [] = refl
descriptors-wipe_tools (t ∷ ts) = ap (◌∷◌ (t.name, t.description)) (descriptors-wipe_tools ts)

open_call :
    (r : Runner) (name : Bytes) (s : Server)
    → s.closed ≡ false
    → call_tool r name s ≡ dispatch r (describe name s.tools) (lookup name s.tools) s
unfolding call_tool
open_call r name s e = ground arith

-- A server that is open refuses a call for an unknown tool exactly when the name is not in the list
-- that it shows, whatever the command runner gives; and the list is the same after a wipe.
pub list_tools-call_tool :
    (r : Runner) (name : Bytes) (s : Server)
    → s.closed ≡ false
    → (is_unknown (call_tool r name s).1 ≡ not (is_listed name (list_tools s)))
      × (list_tools (record s { tools = wipe_tools s.tools }) ≡ list_tools s)
unfolding list_tools
list_tools-call_tool r name s e = (
  ap (λ o. is_unknown o.1) (open_call r name s e)
      ∙ dispatch-listed r (describe name s.tools) (lookup name s.tools)
          (is_listed name (descriptors s.tools)) s (describe-listed name s.tools)
          (lookup-listed name s.tools),
  descriptors-wipe_tools s.tools,
)
