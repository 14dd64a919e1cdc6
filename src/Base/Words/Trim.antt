-- ===== src/Base/Words/Trim.antt =====
-- `trim` of a line that ends in a newline.
use Prim.Native.Nat.{ℕ}
use mathlib.Core.Path.{◌≡◌, refl, sym, ap, ◌∙◌}
use mathlib.Core.Bool.{false}
use mathlib.Core.List.{[], ◌∷◌, ◌++◌, reverse, reverse-append, reverse-reverse}
use ningen_shikkaku.Base.Text.{Bytes}
use ningen_shikkaku.Base.Words.{is_whitespace, trim_start, trim, IsWord}

-- A text that ends in a character that is no white space.
pub record EndsDark (s : Bytes) : Type 0 where
  pub before : Bytes
  pub last : ℕ
  pub splits : s ≡ before ++ last ∷ []
  pub dark : is_whitespace last ≡ false

pub EndsDark-cons : (c : ℕ) {s : Bytes} → EndsDark s → EndsDark (c ∷ s)
EndsDark-cons c e = record {
  before = c ∷ e.before;
  last = e.last;
  splits = ap (◌∷◌ c) e.splits;
  dark = e.dark;
}

pub EndsDark-append : (p : Bytes) {s : Bytes} → EndsDark s → EndsDark (p ++ s)
EndsDark-append [] e = e
EndsDark-append (c ∷ p) e = EndsDark-cons c (EndsDark-append p e)

pub EndsDark-word : (c : ℕ) (w : Bytes) → IsWord (c ∷ w) → EndsDark (c ∷ w)
EndsDark-word c [] (h, t) = record { before = []; last = c; splits = refl; dark = h }
EndsDark-word c (d ∷ w) (h, t) = EndsDark-cons c (EndsDark-word d w t)

trim_start-dark : (c : ℕ) (s : Bytes) → is_whitespace c ≡ false → trim_start (c ∷ s) ≡ c ∷ s
unfolding trim_start
trim_start-dark c s h = rw h refl

trim_start-newline :
    (c : ℕ) (s : Bytes) → is_whitespace c ≡ false → trim_start (b'\n' ∷ c ∷ s) ≡ c ∷ s
unfolding trim_start is_whitespace
trim_start-newline c s h = trim_start-dark c s h

-- Behind a text without white space at its ends, the newline goes and nothing else.
pub trim-newline :
    (c : ℕ) (s : Bytes)
    → is_whitespace c ≡ false
    → EndsDark (c ∷ s)
    → trim ((c ∷ s) ++ b'\n' ∷ []) ≡ c ∷ s
unfolding trim
trim-newline c s h e =
    ap (λ t. reverse (trim_start (reverse t))) (trim_start-dark c (s ++ b'\n' ∷ []) h)
    ∙ ap (λ t. reverse (trim_start t)) (reverse-append (c ∷ s) (b'\n' ∷ []))
    ∙ ap (λ t. reverse (trim_start (b'\n' ∷ t))) back
    ∙ ap reverse (trim_start-newline e.last (reverse e.before) e.dark)
    ∙ ap reverse (sym back)
    ∙ reverse-reverse (c ∷ s)
  where
    back : reverse (c ∷ s) ≡ e.last ∷ reverse e.before
    back = ap reverse e.splits ∙ reverse-append e.before (e.last ∷ [])

-- A text without white space at its ends stays.
pub trim-dark :
    (c : ℕ) (s : Bytes) → is_whitespace c ≡ false → EndsDark (c ∷ s) → trim (c ∷ s) ≡ c ∷ s
unfolding trim
trim-dark c s h e =
    ap (λ t. reverse (trim_start (reverse t))) (trim_start-dark c s h)
    ∙ ap (λ t. reverse (trim_start t)) back
    ∙ ap reverse (trim_start-dark e.last (reverse e.before) e.dark)
    ∙ ap reverse (sym back)
    ∙ reverse-reverse (c ∷ s)
  where
    back : reverse (c ∷ s) ≡ e.last ∷ reverse e.before
    back = ap reverse e.splits ∙ reverse-append e.before (e.last ∷ [])
