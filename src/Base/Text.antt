-- ===== src/Base/Text.antt =====
-- Text as lists of numbers: bytes on a wire, or the code points of a decoded string.
use Prim.Native.Nat.{ℕ}
use Prim.Native.Char.{code}
use Prim.Native.String.{String}
use mathlib.Core.Path.{◌≡◌, refl, ap}
use mathlib.Core.Logic.{◌↔◌, inl, inr}
use mathlib.Core.Bool.{Bool, true, false, ◌&&◌, ◌||◌}
use mathlib.Core.Option.{Option, none, some}
use mathlib.Core.List.{List, [], ◌∷◌, ◌++◌}
use native.Mathlib.Omega.{arith}
use ningen_shikkaku.Base.Tests.{◌==◌, if◌then◌else◌, Bool-cases}

abbrev pub Bytes : Type 0
Bytes = List ℕ

-- The code points of a literal: its bytes, when it is ASCII.
abbrev pub codes : String → Bytes
codes String.[] = []
codes (String.◌∷◌ c s) = code c ∷ codes s

-- Comparison of texts, as `==` on `str` and on byte slices.
unfoldable pub text_eq : Bytes → Bytes → Bool
text_eq [] [] = true
text_eq (x ∷ xs) (y ∷ ys) = x == y && text_eq xs ys
text_eq _ _ = false

pub text_eq_iff : (a b : Bytes) → (text_eq a b ≡ true) ↔ (a ≡ b)
unfolding text_eq
text_eq_iff (x ∷ a) (y ∷ b) = ground (arith, text_eq_iff a b)
text_eq_iff _ _ = ground arith

pub text_eq_refl : (a : Bytes) → text_eq a a ≡ true
text_eq_refl a = (text_eq_iff a a).1 refl

-- `str::strip_prefix`.
unfoldable pub strip_prefix : Bytes → Bytes → Option Bytes
strip_prefix [] s = some s
strip_prefix (p ∷ ps) [] = none
strip_prefix (p ∷ ps) (c ∷ s) = if p == c then strip_prefix ps s else none

pub strip_prefix-append : (p s : Bytes) → strip_prefix p (p ++ s) ≡ some s
unfolding strip_prefix
strip_prefix-append [] s = refl
strip_prefix-append (c ∷ p) s = ground (arith, strip_prefix-append p s)

is_prefix : Bytes → Bytes → Bool
is_prefix [] s = true
is_prefix (p ∷ ps) [] = false
is_prefix (p ∷ ps) (c ∷ s) = p == c && is_prefix ps s

-- `str::contains` of a text.
unfoldable pub contains_text : (part : Bytes) → Bytes → Bool
unfolding is_prefix
contains_text part [] = is_prefix part []
contains_text part (c ∷ s) = is_prefix part (c ∷ s) || contains_text part s

is_prefix-split : (p s : Bytes) → is_prefix p s ≡ true → (back : Bytes) × (s ≡ p ++ back)
unfolding is_prefix
is_prefix-split [] s e = (s, refl)
is_prefix-split (p ∷ ps) [] e = cc
is_prefix-split (p ∷ ps) (c ∷ s) e =
    let (same, rest) : (c ≡ p) × (is_prefix ps s ≡ true) = ground arith in
    let (back, f) = is_prefix-split ps s rest in (back, cc)

-- A text that is found stands somewhere in the other.
pub contains_text-split :
    (part s : Bytes)
    → contains_text part s ≡ true
    → (front : Bytes) × (back : Bytes) × (s ≡ front ++ part ++ back)
unfolding contains_text
contains_text-split part [] e = let (back, f) = is_prefix-split part [] e in ([], back, f)
contains_text-split part (c ∷ s) e = elim (Bool-cases (is_prefix part (c ∷ s))) [
  | inl here ↦ let (back, f) = is_prefix-split part (c ∷ s) here in ([], back, f)
  | inr later ↦
      let (front, back, f) = contains_text-split part s (ground (arith, later)) in
      (c ∷ front, back, ap (◌∷◌ c) f)
]
