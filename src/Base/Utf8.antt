-- ===== src/Base/Utf8.antt =====
-- `String::from_utf8_lossy`: bytes to code points, with U+FFFD for each maximal part that begins no
-- well-formed sequence, as the standard library documents it.
use ningen_shikkaku.Base.Tests.{leb, ltb, ◌==◌, if◌then◌else◌}
use ningen_shikkaku.Base.Text.{Bytes}
use ningen_shikkaku.Base.Lists.{All}
use Prim.Native.Nat.{ℕ, ◌+◌, ◌*◌, ◌-◌, ◌%◌, ◌/◌, ◌<◌}
use mathlib.Core.Path.{◌≡◌, refl}
use mathlib.Core.Bool.{◌&&◌}
use mathlib.Core.List.{[], ◌∷◌, ◌++◌}
use native.Mathlib.Omega.{arith}

-- Between two sequences, or inside one: how many bytes are missing, the range of the next one,
-- and the bits so far.
pub data Decoder : Type 0 where
  ground_state : Decoder
  inside : (missing lo hi bits : ℕ) → Decoder

abbrev replacement : ℕ
replacement = 0xfffd

-- What one byte gives: code points put out, and the next state.
first_byte : ℕ → Bytes × Decoder
first_byte b =
    if ltb b 0x80
    then (b ∷ [], ground_state)
    else if leb 0xc2 b && leb b 0xdf
    then ([], inside 1 0x80 0xbf (b - 0xc0))
    else if b == 0xe0
    then ([], inside 2 0xa0 0xbf 0)
    else if b == 0xed
    then ([], inside 2 0x80 0x9f 0xd)
    else if leb 0xe1 b && leb b 0xef
    then ([], inside 2 0x80 0xbf (b - 0xe0))
    else if b == 0xf0
    then ([], inside 3 0x90 0xbf 0)
    else if leb 0xf1 b && leb b 0xf3
    then ([], inside 3 0x80 0xbf (b - 0xf0))
    else if b == 0xf4
    then ([], inside 3 0x80 0x8f 4)
    else (replacement ∷ [], ground_state)

-- A byte that does not continue the sequence ends it, and begins another.
next_byte : Decoder → ℕ → Bytes × Decoder
unfolding first_byte
next_byte ground_state b = first_byte b
next_byte (inside missing lo hi bits) b =
    if leb lo b && leb b hi
    then (if missing == 1
        then ((bits * 64 + b % 64) ∷ [], ground_state)
        else ([], inside (missing - 1) 0x80 0xbf (bits * 64 + b % 64)))
    else (let (out, d) = first_byte b in (replacement ∷ out, d))

decode : Decoder → Bytes → Bytes
unfolding next_byte
decode ground_state [] = []
decode (inside _ _ _ _) [] = replacement ∷ []
decode d (b ∷ bs) = let (out, d') = next_byte d b in out ++ decode d' bs

unfoldable pub from_utf8_lossy : Bytes → Bytes
unfolding decode
from_utf8_lossy = decode ground_state

abbrev pub IsAscii : Bytes → Type 0
IsAscii = All (λ b. b < 0x80)

-- ASCII decodes to itself.
pub from_utf8_lossy-IsAscii : (s : Bytes) → IsAscii s → from_utf8_lossy s ≡ s
unfolding from_utf8_lossy
from_utf8_lossy-IsAscii [] h = refl
from_utf8_lossy-IsAscii (b ∷ s) (h, hs) = ground (arith, from_utf8_lossy-IsAscii s hs)

lossy_sample :
    from_utf8_lossy (0x41 ∷ 0xc3 ∷ 0xa9 ∷ 0xe2 ∷ 0x82 ∷ 0x42 ∷ 0xff ∷ 0xf0 ∷ [])
    ≡ 0x41 ∷ 0xe9 ∷ 0xfffd ∷ 0x42 ∷ 0xfffd ∷ 0xfffd ∷ []
unfolding from_utf8_lossy
lossy_sample = refl

-- `as_bytes` of a string of code points.
encode_char : ℕ → Bytes
encode_char c =
    if ltb c 0x80
    then c ∷ []
    else if ltb c 0x800
    then (0xc0 + c / 0x40) ∷ (0x80 + c % 0x40) ∷ []
    else if ltb c 0x10000
    then (0xe0 + c / 0x1000) ∷ (0x80 + c / 0x40 % 0x40) ∷ (0x80 + c % 0x40) ∷ []
    else (0xf0 + c / 0x40000)
      ∷ (0x80 + c / 0x1000 % 0x40)
      ∷ (0x80 + c / 0x40 % 0x40)
      ∷ (0x80 + c % 0x40)
      ∷ []

unfoldable pub as_bytes : Bytes → Bytes
unfolding encode_char
as_bytes [] = []
as_bytes (c ∷ s) = encode_char c ++ as_bytes s

-- ASCII encodes to itself.
pub as_bytes-IsAscii : (s : Bytes) → IsAscii s → as_bytes s ≡ s
unfolding as_bytes
as_bytes-IsAscii [] h = refl
as_bytes-IsAscii (c ∷ s) (h, hs) = ground (arith, as_bytes-IsAscii s hs)
