-- ===== src/Motokano/Server/Standing.antt =====
-- Where a server stands on its exit path (rs/crates/motokano/src/lib.rs).
use ningen_shikkaku.Base.{
  ℕ, ◌≡◌, refl, ap, sym, subst, ◌∙◌, Bool, true, false, Option, none, some, List, [], ◌∷◌, ◌++◌,
  arith, Bool-cases, inl, inr, append-nil, if◌then◌else◌, All,
}
use ningen_shikkaku.Base.Text.{Bytes}
use ningen_shikkaku.Kiroku.{ReadKind, Reason, Lifecycle}
use ningen_shikkaku.Motokano.Tools.{Action, describe, lookup}
use ningen_shikkaku.Motokano.Tools.Registry.{IsErased}
use ningen_shikkaku.Motokano.Server.Calls.{call_tool_closed, call_tool_open}
use ningen_shikkaku.Motokano.Server.{
  Effect, recorded, unregistered, zeroized, sigkilled, exited, Server, Runner, Answer, emit,
  record_read, refuse, output_of, complete, conclude, dispatch, call_tool, unregister, begin_exit,
}

-- What a trace holds besides records.
abbrev pub deeds : List Effect → List Effect
deeds [] = []
deeds (recorded _ ∷ es) = deeds es
deeds (e ∷ es) = e ∷ deeds es

pub deeds-append : (es fs : List Effect) → deeds (es ++ fs) ≡ deeds es ++ deeds fs
deeds-append [] fs = refl
deeds-append (recorded _ ∷ es) fs = deeds-append es fs
deeds-append (e ∷ es) fs = ap (◌∷◌ e) (deeds-append es fs)

-- How a process leaves the daemon, and how it goes.
abbrev pub farewell : Bool → List Effect
farewell linked = if linked then unregistered ∷ [] else []

abbrev pub last_deed : Bool → Effect
last_deed arm = if arm then sigkilled else exited

-- Where a server stands, by what its trace then holds besides records.
pub data Standing (s : Server) : Type 0 where
  serving : s.exiting ≡ none → s.ended ≡ false → deeds s.trace ≡ [] → Standing s
  leaving :
      (r : Reason)
      → s.exiting ≡ some r
      → s.ended ≡ false
      → s.closed ≡ true
      → deeds s.trace ≡ farewell s.linked
      → Standing s
  gone :
      (r : Reason)
      → s.exiting ≡ some r
      → s.ended ≡ true
      → s.closed ≡ true
      → deeds s.trace ≡ farewell s.linked ++ zeroized ∷ last_deed s.arm ∷ []
      → All IsErased s.tools
      → Standing s

-- Two servers that differ in what no exit looks at.
pub record Alike (s s' : Server) : Type 0 where
  pub exits : s'.exiting ≡ s.exiting
  pub ends : s'.ended ≡ s.ended
  pub links : s'.linked ≡ s.linked
  pub arms : s'.arm ≡ s.arm
  pub wipes : s'.tools ≡ s.tools
  pub traces : deeds s'.trace ≡ deeds s.trace
  pub closes : s.closed ≡ true → s'.closed ≡ true

pub Alike-Standing : {s s' : Server} → Alike s s' → Standing s → Standing s'
Alike-Standing a (serving x e t) = serving (a.exits ∙ x) (a.ends ∙ e) (a.traces ∙ t)
Alike-Standing {s} {s'} a (leaving r x e c t) =
    leaving r (a.exits ∙ x) (a.ends ∙ e) (a.closes c) (a.traces ∙ t ∙ ap farewell (sym a.links))
Alike-Standing {s} {s'} a (gone r x e c t w) =
    gone r (a.exits ∙ x) (a.ends ∙ e) (a.closes c) (a.traces ∙ t ∙ ground (arith, a.links, a.arms))
      (subst (All IsErased) (sym a.wipes) w)

deeds-recorded : (es : List Effect) (e : Lifecycle) → deeds (es ++ recorded e ∷ []) ≡ deeds es
deeds-recorded es e = deeds-append es (recorded e ∷ []) ∙ append-nil (deeds es)

pub emit-Alike : (e : Lifecycle) (s : Server) → Alike s (emit e s)
unfolding emit
emit-Alike e s = ground (arith, deeds-recorded s.trace e)

complete-Alike : (d : ℕ × ReadKind) (text : Bytes) (s : Server) → Alike s (complete d text s).0
unfolding complete record_read
complete-Alike d text s = let a = emit-Alike (Lifecycle.read d.0 d.1 true) s in ground (arith, a)

conclude-Alike : (o : Option Bytes) (d : ℕ × ReadKind) (s : Server) → Alike s (conclude o d s).0
unfolding conclude record_read
conclude-Alike none d s = emit-Alike (Lifecycle.read d.0 d.1 false) s
conclude-Alike (some text) d s = complete-Alike d text s

Alike-refl : (s : Server) → Alike s s
Alike-refl s = ground arith

dispatch-Alike :
    (r : Runner) (d : Option (ℕ × ReadKind)) (a : Option Action) (s : Server)
    → Alike s (dispatch r d a s).0
unfolding dispatch
dispatch-Alike r (some d) (some a) s = conclude-Alike (output_of r a) d s
dispatch-Alike r (some d) none s = Alike-refl s
dispatch-Alike r none a s = Alike-refl s

refuse-Alike : (d : Option (ℕ × ReadKind)) (s : Server) → Alike s (refuse d s).0
unfolding refuse record_read
refuse-Alike none s = Alike-refl s
refuse-Alike (some d) s = emit-Alike (Lifecycle.read d.0 d.1 false) s

pub call_tool-Alike : (r : Runner) (name : Bytes) (s : Server) → Alike s (call_tool r name s).0
call_tool-Alike r name s = elim (Bool-cases s.closed) [
  | inl c ↦
      subst (λ (x : Server × Answer). Alike s (x.0)) (sym (call_tool_closed r name s c))
        (refuse-Alike (describe name s.tools) s)
  | inr c ↦
      subst (λ (x : Server × Answer). Alike s (x.0)) (sym (call_tool_open r name s c))
        (dispatch-Alike r (describe name s.tools) (lookup name s.tools) s)
]

begin_exit_again : (x r : Reason) (s : Server) → s.exiting ≡ some r → begin_exit x s ≡ s
unfolding begin_exit
begin_exit_again x r s e = ground arith

begin_exit_first :
    (x : Reason) (s : Server)
    → s.exiting ≡ none
    → begin_exit x s ≡ unregister (record s { exiting = some x; closed = true })
unfolding begin_exit
begin_exit_first x s e = ground arith

unregister-deeds :
    (s : Server) → deeds s.trace ≡ [] → deeds (unregister s).trace ≡ farewell (unregister s).linked
unfolding unregister
unregister-deeds s t = ground (arith, deeds-append s.trace (unregistered ∷ []))

unregister-keeps :
    (s : Server)
    → ((unregister s).exiting ≡ s.exiting)
      × ((unregister s).ended ≡ s.ended)
      × ((unregister s).closed ≡ s.closed)
unfolding unregister
unregister-keeps s = ground arith

pub begin_exit-Standing : (x : Reason) (s : Server) → Standing s → Standing (begin_exit x s)
begin_exit-Standing x s (serving e f t) =
    let s1 = record s { exiting = some x; closed = true } in
    let (k, l, m) = unregister-keeps s1 in
    subst Standing (sym (begin_exit_first x s e)) (leaving x k (l ∙ f) m (unregister-deeds s1 t))
begin_exit-Standing x s (leaving r e f c t) =
    subst Standing (sym (begin_exit_again x r s e)) (leaving r e f c t)
begin_exit-Standing x s (gone r e f c t w) =
    subst Standing (sym (begin_exit_again x r s e)) (gone r e f c t w)
