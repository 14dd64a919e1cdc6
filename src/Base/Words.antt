-- ===== src/Base/Words.antt =====
-- Words of a text: `char::is_whitespace`, `split_whitespace`, `trim`, `to_ascii_uppercase`.
pub mod Trim
use Prim.Native.Nat.{ℕ, ◌-◌}
use mathlib.Core.Path.{◌≡◌, refl, sym, ap}
use mathlib.Core.Bool.{Bool, true, false, ◌&&◌, ◌||◌}
use mathlib.Core.List.{List, [], ◌∷◌, ◌++◌, map, reverse, append-nil, append_assoc}
use native.Mathlib.Omega.{arith}
use ningen_shikkaku.Base.Tests.{leb, ◌==◌, if◌then◌else◌}
use ningen_shikkaku.Base.Text.{Bytes, codes}
use ningen_shikkaku.Base.Lists.{All}

-- Unicode `White_Space`.
unfoldable pub is_whitespace : ℕ → Bool
is_whitespace c =
    (leb 9 c && leb c 13)
    || c == 0x20
    || c == 0x85
    || c == 0xa0
    || c == 0x1680
    || (leb 0x2000 c && leb c 0x200a)
    || c == 0x2028
    || c == 0x2029
    || c == 0x202f
    || c == 0x205f
    || c == 0x3000

emit : Bytes → List Bytes → List Bytes
emit [] ws = ws
emit (c ∷ w) ws = (c ∷ w) ∷ ws

-- The word read so far, and the text left.
split_from : Bytes → Bytes → List Bytes
unfolding emit is_whitespace
split_from cur [] = emit cur []
split_from cur (c ∷ s) = elim (is_whitespace c) [
  | true ↦ emit cur (split_from [] s)
  | false ↦ split_from (cur ++ c ∷ []) s
]

unfoldable pub split_whitespace : Bytes → List Bytes
unfolding split_from
split_whitespace = split_from []

unfoldable trim_start : Bytes → Bytes
trim_start [] = []
trim_start (c ∷ s) = if is_whitespace c then trim_start s else c ∷ s

unfoldable pub trim : Bytes → Bytes
unfolding trim_start is_whitespace
trim s = reverse (trim_start (reverse (trim_start s)))

unfoldable pub to_ascii_uppercase : Bytes → Bytes
to_ascii_uppercase = map (λ c. if leb b'a' c && leb c b'z' then c - 32 else c)

-- A word: no white space in it.
abbrev pub IsWord : Bytes → Type 0
IsWord = All (λ c. is_whitespace c ≡ false)

split_from-word : (w cur s : Bytes) → IsWord w → split_from cur (w ++ s) ≡ split_from (cur ++ w) s
unfolding split_from
split_from-word [] cur s h = ap (λ u. split_from u s) (sym (append-nil cur))
split_from-word (c ∷ w) cur s (h, hs) =
    ground (arith, split_from-word w (cur ++ c ∷ []) s hs, append_assoc cur (c ∷ []) w)

-- A word, a blank and a text: the word comes first.
pub split_whitespace-word :
    (c : ℕ) (w s : Bytes)
    → IsWord (c ∷ w)
    → split_whitespace ((c ∷ w) ++ (0x20 ∷ s)) ≡ (c ∷ w) ∷ split_whitespace s
unfolding split_whitespace
split_whitespace-word c w s h = ground (arith, split_from-word (c ∷ w) [] (0x20 ∷ s) h)

-- A word alone, or at a line's end.
pub split_whitespace_last :
    (c : ℕ) (w : Bytes) → IsWord (c ∷ w) → split_whitespace (c ∷ w) ≡ (c ∷ w) ∷ []
unfolding split_whitespace
split_whitespace_last c w h = ground (arith, split_from-word (c ∷ w) [] [] h, append-nil (c ∷ w))

words_sample : split_whitespace (codes "  PING  a=1 ") ≡ codes "PING" ∷ codes "a=1" ∷ []
unfolding split_whitespace
words_sample = refl
