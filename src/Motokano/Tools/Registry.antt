-- ===== src/Motokano/Tools/Registry.antt =====
-- What a registry says of a name before and after the wipe.
use ningen_shikkaku.Base.{
  ℕ, zero, suc, ◌≡◌, refl, ap, ◌∙◌, Option, none, some, List, [], ◌∷◌, length, take, replicate, All,
  if◌then◌else◌, Bool-cases, inl, inr,
}
use ningen_shikkaku.Base.Text.{Bytes, text_eq}
use ningen_shikkaku.Goodnight.Buffer.{as_slice, wipe, secure_wipe, IsZero}
use ningen_shikkaku.Goodnight.Buffer.Laws.{secure_wipe-replicate, wipe_lem}
use ningen_shikkaku.Motokano.Tools.{
  ToolKind, ToolDef, Action, find, action_of, lookup, wipe_kind, wipe_tools,
}

-- An action with the value of a static tool put out.
abbrev pub erased : Action → Action
erased (Action.static bs) = Action.static (replicate (length bs) 0)
erased (Action.exec cmd) = Action.exec cmd

abbrev pub erased_option : Option Action → Option Action
erased_option none = none
erased_option (some a) = some (erased a)

take-secure_wipe : (n : ℕ) (bs : Bytes) → take n (secure_wipe bs) ≡ secure_wipe (take n bs)
unfolding secure_wipe
take-secure_wipe zero bs = refl
take-secure_wipe (suc n) [] = refl
take-secure_wipe (suc n) (b ∷ bs) = ap (◌∷◌ 0) (take-secure_wipe n bs)

action_of-wipe_kind : (k : ToolKind) → action_of (wipe_kind k) ≡ erased (action_of k)
unfolding as_slice wipe
action_of-wipe_kind (ToolKind.exec cmd) = refl
action_of-wipe_kind (ToolKind.static b len) = ap Action.static (
    ap (take len) (take-secure_wipe b.len b.memory)
    ∙ take-secure_wipe len (take b.len b.memory)
    ∙ secure_wipe-replicate (take len (take b.len b.memory)))

pub lookup-cons :
    (name : Bytes) (t : ToolDef) (ts : List ToolDef)
    → lookup name (t ∷ ts)
      ≡ (if text_eq t.name name then some (action_of t.kind) else lookup name ts)
unfolding lookup find
lookup-cons name t ts = elim (Bool-cases (text_eq t.name name)) [
  | inl e ↦ rw (e, lookup, find) refl
  | inr e ↦ rw (e, lookup, find) refl
]

-- After a wipe every tool is found as before, with zeros in place of the value of a static tool.
pub lookup-wipe_tools :
    (name : Bytes) (ts : List ToolDef)
    → lookup name (wipe_tools ts) ≡ erased_option (lookup name ts)
unfolding wipe_tools
lookup-wipe_tools name [] = unfold lookup in refl
lookup-wipe_tools name (t ∷ ts) =
    let t' = record t { kind = wipe_kind t.kind } in
    elim (Bool-cases (text_eq t.name name)) [
      | inl e ↦
          rw
            (
              lookup-cons name t' (wipe_tools ts),
              lookup-cons name t ts,
              e,
              action_of-wipe_kind t.kind,
            )
            refl
      | inr e ↦
          rw (lookup-cons name t' (wipe_tools ts), lookup-cons name t ts, e)
            (lookup-wipe_tools name ts)
    ]

-- Every byte of a tool's buffer is zero.
abbrev pub IsErased : ToolDef → Type 0
IsErased t = elim t.kind [ ToolKind.static buf _ ↦ IsZero buf.memory | ToolKind.exec _ ↦ Unit ]

pub wipe_tools-IsErased : (ts : List ToolDef) → All IsErased (wipe_tools ts)
unfolding wipe_tools
wipe_tools-IsErased [] = tt
wipe_tools-IsErased (t ∷ ts) = (erased_kind t.kind, wipe_tools-IsErased ts)
  where
    erased_kind : (k : ToolKind) → IsErased (record t { kind = wipe_kind k })
    erased_kind (ToolKind.static b len) = (wipe_lem b).0
    erased_kind (ToolKind.exec cmd) = tt
