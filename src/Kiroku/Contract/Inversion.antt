-- ===== src/Kiroku/Contract/Inversion.antt =====
-- What a check of rs/crates/kiroku/src/contract.rs that passes has seen: `str_in`, `int_le`,
-- `boolean` and the arms of `match tool_name`, read backwards.
use ningen_shikkaku.Base.{
  ℕ, ◌≤◌, ◌≡◌, refl, sym, ap, ◌∙◌, subst, Bool, true, ◌&&◌, List, [], ◌∷◌, Option, none, some, leb,
  leb→le, Bool-cases, inl, inr, arith,
}
use ningen_shikkaku.Base.Text.{Bytes, text_eq, text_eq_iff}
use ningen_shikkaku.Base.Results.{ok, ensure, ok_or, >>=-take, ensure-inv, ok_or-inv}
use ningen_shikkaku.Kiroku.Json.{
  Value, Items, Map, get, as_str, as_u64, as_bool, as_object, is_true, is_empty_array,
}
use ningen_shikkaku.Kiroku.Checks.{
  Refusal, in_vocab, and_then, str_in, int_le, boolean, is_some_and, names,
}

as_str-inv : (o : Option Value) (s : Bytes) → and_then o as_str ≡ some s → o ≡ some (Value.string s)
unfolding and_then as_str
as_str-inv none s h = cc
as_str-inv (some v) s h = ground arith

as_u64-inv : (o : Option Value) (n : ℕ) → and_then o as_u64 ≡ some n → o ≡ some (Value.number n)
unfolding and_then as_u64
as_u64-inv none n h = cc
as_u64-inv (some v) n h = ground arith

as_bool-inv : (o : Option Value) (b : Bool) → and_then o as_bool ≡ some b → o ≡ some (Value.bool b)
unfolding and_then as_bool
as_bool-inv none b h = cc
as_bool-inv (some v) b h = ground arith

as_object-inv :
    (o : Option Value) (m : Map) → and_then o as_object ≡ some m → o ≡ some (Value.object m)
unfolding and_then as_object
as_object-inv none m h = cc
as_object-inv (some v) m h = ground arith

pub get-object :
    (m : Map) (key : Bytes) (e : Refusal) (n : Map)
    → ok_or (and_then (get m key) as_object) e ≡ ok n
    → get m key ≡ some (Value.object n)
get-object m key e n h = as_object-inv (get m key) n (ok_or-inv _ e n h)

pub value-object :
    (v : Value) (e : Refusal) (m : Map) → ok_or (as_object v) e ≡ ok m → v ≡ Value.object m
unfolding as_object ok_or
value-object v e m h = ground arith

-- The last check of a step that is neither a read nor a kill.
pub succeeds-inv :
    (o : Option Value) (b : Bool)
    → (is_some_and o is_true && b) ≡ true
    → (o ≡ some (Value.bool true)) × (b ≡ true)
unfolding is_some_and is_true
succeeds-inv none b h = cc
succeeds-inv (some v) b h = ground arith

pub empty_array-inv :
    (o : Option Value) → is_some_and o is_empty_array ≡ true → o ≡ some (Value.array Items.nil)
unfolding is_some_and is_empty_array
empty_array-inv none h = cc
empty_array-inv (some (Value.array Items.nil)) h = refl
empty_array-inv (some _) h = cc

pub get-string :
    (m : Map) (key s : Bytes) (e : Refusal)
    → ok_or (and_then (get m key) as_str) e ≡ ok s
    → get m key ≡ some (Value.string s)
get-string m key s e h = as_str-inv (get m key) s (ok_or-inv _ e s h)

pub str_in-inv :
    (m : Map) (key : Bytes) (vocab : List Bytes) (s : Bytes)
    → str_in m key vocab ≡ ok s
    → (get m key ≡ some (Value.string s)) × (in_vocab vocab s ≡ true)
unfolding str_in
str_in-inv m key vocab s h =
    >>=-take (ok_or (and_then (get m key) as_str) (Refusal.not_string key)) _ h λ t p q.
      >>=-take (ensure (in_vocab vocab t) (Refusal.not_in_vocabulary key)) _ q λ u c r.
        let same : t ≡ s = cc in
        let found = get-string m key t _ p in
        let known = ensure-inv _ _ u c in
        (found ∙ ap (λ x. some (Value.string x)) same, ap (in_vocab vocab) (sym same) ∙ known)

pub int_le-inv :
    (m : Map) (key : Bytes) (max n : ℕ)
    → int_le m key max ≡ ok n
    → (get m key ≡ some (Value.number n)) × (n ≤ max)
unfolding int_le
int_le-inv m key max n h =
    >>=-take (ok_or (and_then (get m key) as_u64) (Refusal.not_integer key)) _ h λ k p q.
      >>=-take (ensure (leb k max) (Refusal.too_big key)) _ q λ u c r.
        let same : k ≡ n = cc in
        let found = as_u64-inv (get m key) k (ok_or-inv _ _ k p) in
        let known = leb→le k max (ensure-inv _ _ u c) in
        (found ∙ ap (λ x. some (Value.number x)) same, subst (λ x. x ≤ max) same known)

pub boolean-inv :
    (m : Map) (key : Bytes) (b : Bool) → boolean m key ≡ ok b → get m key ≡ some (Value.bool b)
unfolding boolean
boolean-inv m key b h = as_bool-inv (get m key) b (ok_or-inv _ _ b h)

pub in_vocab-names :
    {A : Type 0} (all : List A) (f : A → Bytes) (s : Bytes)
    → in_vocab (names all f) s ≡ true
    → (x : A) × (f x ≡ s)
unfolding in_vocab names
in_vocab-names [] f s h = cc
in_vocab-names (x ∷ xs) f s h = elim (Bool-cases (text_eq (f x) s)) [
  | inl e ↦ (x, (text_eq_iff (f x) s).0 e)
  | inr e ↦ in_vocab-names xs f s (ground arith)
]

-- A word of an enum's vocabulary is the name of one of its values.
pub str_in-names-inv :
    {A : Type 0} (all : List A) (f : A → Bytes) (m : Map) (key s : Bytes)
    → str_in m key (names all f) ≡ ok s
    → (x : A) × (get m key ≡ some (Value.string (f x)))
str_in-names-inv all f m key s h =
    let (g, known) = str_in-inv m key (names all f) s h in
    let (x, e) = in_vocab-names all f s known in (x, g ∙ ap (λ t. some (Value.string t)) (sym e))
