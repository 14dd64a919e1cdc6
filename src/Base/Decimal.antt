-- ===== src/Base/Decimal.antt =====
-- Decimal numbers: `{n}` in a format string, and `str::parse` for an unsigned integer type.
use Prim.Native.Nat.{ℕ, zero, suc, ◌+◌, ◌-◌, ◌*◌, ◌/◌, ◌%◌, ◌≤◌, ◌<◌}
use mathlib.Core.Path.{◌≡◌, refl, ◌∙◌}
use mathlib.Core.Bool.{Bool, true, false, ◌&&◌}
use mathlib.Core.Option.{Option, none, some}
use mathlib.Core.List.{[], ◌∷◌}
use native.Mathlib.Omega.{arith}
use ningen_shikkaku.Base.Tests.{leb, ltb, ◌==◌, if◌then◌else◌, Bool-cases}
use ningen_shikkaku.Base.Text.{Bytes, codes}
use ningen_shikkaku.Base.Lists.{All, length}
use mathlib.Core.Logic.{inl, inr}

-- The digits of `n` in front of `tail`, the fuel being above `n`.
digits : ℕ → ℕ → Bytes → Bytes
digits zero n tail = tail
digits (suc f) n tail = elim (ltb n 10) [
  | true ↦ (n + b'0') ∷ tail
  | false ↦ digits f (n / 10) ((n % 10 + b'0') ∷ tail)
]

unfoldable pub show : ℕ → Bytes
unfolding digits
show n = digits (suc n) n []

is_digit : ℕ → Bool
is_digit c = leb b'0' c && leb c b'9'

-- The digits behind `acc`, refused past `max` and at any other character.
scan : ℕ → ℕ → Bytes → Option ℕ
unfolding is_digit
scan max acc [] = some acc
scan max acc (c ∷ s) =
    let next = acc * 10 + (c - b'0') in
    let rest = scan max next s in if is_digit c && leb next max then rest else none

-- One leading `+` is allowed; an empty text and a lone sign are refused.
unfoldable pub parse_uint : ℕ → Bytes → Option ℕ
unfolding scan
parse_uint max [] = none
parse_uint max (c ∷ []) = scan max 0 (c ∷ [])
parse_uint max (c ∷ d ∷ s) = if c == b'+' then scan max 0 (d ∷ s) else scan max 0 (c ∷ d ∷ s)

digits_small :
    (f n : ℕ) (tail : Bytes) → ltb n 10 ≡ true → digits (suc f) n tail ≡ (n + b'0') ∷ tail
unfolding digits
digits_small f n tail h = rw (h, digits)

digits_large :
    (f n : ℕ) (tail : Bytes)
    → ltb n 10 ≡ false
    → digits (suc f) n tail ≡ digits f (n / 10) ((n % 10 + b'0') ∷ tail)
unfolding digits
digits_large f n tail h = rw (h, digits)

scan-digits :
    (max f n : ℕ) (tail : Bytes) → n < f → n ≤ max → scan max 0 (digits f n tail) ≡ scan max n tail
unfolding scan
scan-digits max zero n tail h k = absurd (omega arith)
scan-digits max (suc f) n tail h k = elim (Bool-cases (ltb n 10)) [
  | inl small ↦ rw (digits_small f n tail small) (ground arith)
  | inr large ↦ rw (digits_large f n tail large) (
      scan-digits max f (n / 10) ((n % 10 + b'0') ∷ tail) (ground arith) (ground arith)
      ∙ ground arith)
]

-- A first character that is a digit.
abbrev Digital : Bytes → Type 0
Digital [] = ⊥
Digital (c ∷ s) = is_digit c ≡ true

digits-Digital : (f n : ℕ) (tail : Bytes) → n < f → Digital (digits f n tail)
unfolding is_digit
digits-Digital zero n tail h = absurd (omega arith)
digits-Digital (suc f) n tail h = elim (Bool-cases (ltb n 10)) [
  | inl small ↦ rw (digits_small f n tail small) (ground arith)
  | inr large ↦
      rw (digits_large f n tail large)
        (digits-Digital f (n / 10) ((n % 10 + b'0') ∷ tail) (ground arith))
]

parse_uint-Digital : (max : ℕ) (s : Bytes) → Digital s → parse_uint max s ≡ scan max 0 s
unfolding parse_uint
parse_uint-Digital max [] d = absurd d
parse_uint-Digital max (c ∷ []) d = refl
parse_uint-Digital max (c ∷ e ∷ s) d = ground arith

-- Every number up to the maximum of the type is read back from its decimal form.
pub parse_uint-show : (max n : ℕ) → n ≤ max → parse_uint max (show n) ≡ some n
unfolding show scan
parse_uint-show max n h =
    parse_uint-Digital max (show n) (digits-Digital (suc n) n [] (omega arith))
    ∙ scan-digits max (suc n) n [] (omega arith) h

-- The characters of a decimal form are digits.
digits-All :
    (f n : ℕ) (tail : Bytes)
    → All (λ c. is_digit c ≡ true) tail
    → All (λ c. is_digit c ≡ true) (digits f n tail)
unfolding is_digit
digits-All zero n tail h = unfold digits in h
digits-All (suc f) n tail h = elim (Bool-cases (ltb n 10)) [
  | inl small ↦ rw (digits_small f n tail small) (ground arith, h)
  | inr large ↦
      rw (digits_large f n tail large)
        (digits-All f (n / 10) ((n % 10 + b'0') ∷ tail) (ground arith, h))
]

pub show-digits : (n : ℕ) → All (λ c. (b'0' ≤ c) × (c ≤ b'9')) (show n)
unfolding show
show-digits n = go (show n) (digits-All (suc n) n [] tt)
  where
    go : (s : Bytes) → All (λ c. is_digit c ≡ true) s → All (λ c. (b'0' ≤ c) × (c ≤ b'9')) s
    go [] h = tt
    go (c ∷ s) (h, hs) = (unfold is_digit in ground arith, go s hs)

-- A decimal form is not empty.
pub show-cons : (n : ℕ) → (c : ℕ) × (s : Bytes) × (show n ≡ c ∷ s)
show-cons n = go (show n) refl (unfold show in digits-Digital (suc n) n [] (omega arith))
  where
    go : (s : Bytes) → show n ≡ s → Digital s → (c : ℕ) × (t : Bytes) × (show n ≡ c ∷ t)
    go [] e d = absurd d
    go (c ∷ s) e d = (c, s, e)

show_sample : show 4294967295 ≡ codes "4294967295"
unfolding show
show_sample = refl

-- Powers of ten, by which decimal forms are measured.
unfoldable pub pow10 : ℕ → ℕ
pow10 zero = 1
pow10 (suc k) = 10 * pow10 k

length-digits :
    (k f n : ℕ) (tail : Bytes)
    → n < f
    → n < pow10 (suc k)
    → length (digits f n tail) ≤ suc k + length tail
unfolding pow10
length-digits k zero n tail h b = absurd (omega arith)
length-digits zero (suc f) n tail h b = rw (digits_small f n tail (ground arith)) (omega arith)
length-digits (suc k) (suc f) n tail h b = elim (Bool-cases (ltb n 10)) [
  | inl small ↦ rw (digits_small f n tail small) (omega arith)
  | inr large ↦ rw (digits_large f n tail large) (
      omega
        (arith, length-digits k f (n / 10) ((n % 10 + b'0') ∷ tail) (ground arith) (omega arith)))
]

-- A number below a power of ten has at most as many digits.
pub length-show : (k n : ℕ) → n < pow10 (suc k) → length (show n) ≤ suc k
unfolding show
length-show k n h = omega (arith, length-digits k (suc n) n [] (omega arith) h)
