-- ===== src/Goodnight/Buffer.antt =====
-- `SecretBuffer` of rs/crates/goodnight/src/lib.rs, and the wiping primitive below it.
-- The wipe is the same on every platform of the source: each byte of the slice becomes 0.
-- Integers are `usize`, so the size of the mapping is taken modulo 2 ^ 64.
pub mod Laws
use ningen_shikkaku.Base.{
  ℕ, ◌+◌, ◌*◌, ◌/◌, ◌%◌, ◌^◌, ◌≤◌, ◌<◌, ◌≡◌, Bool, true, false, List, [], ◌∷◌, ◌++◌, length, take,
  drop, replicate, ◌==◌, ltb, if◌then◌else◌, All,
}
use ningen_shikkaku.Base.Text.{Bytes}

unfoldable pub secure_wipe : Bytes → Bytes
secure_wipe [] = []
secure_wipe (b ∷ bs) = 0 ∷ secure_wipe bs

-- What the kernel answers: the page size, whether a mapping of so many bytes can be made, and
-- whether it can be locked.
pub record Memory : Type 0 where
  pub page_size : ℕ
  pub mmap : ℕ → Bool
  pub mlock : ℕ → Bool

pub record SecretBuffer : Type 0 where
  pub memory : Bytes
  pub len : ℕ
  pub cap : ℕ
  pub locked : Bool

pub data Error : Type 0 where
  zero_length mmap_failed data_too_long : Error

pub data Result {ℓ} (A : Type ℓ) : Type ℓ where
  ok : A → Result A
  err : Error → Result A

unfoldable pub div_ceil : ℕ → ℕ → ℕ
div_ceil n d = if n % d == 0 then n / d else n / d + 1

lock : Memory → SecretBuffer → SecretBuffer
lock m b = if m.mlock b.cap then record b { locked = true } else b

pub mapped_size : Memory → ℕ → ℕ
unfolding div_ceil
mapped_size m len = div_ceil len m.page_size * m.page_size % 2 ^ 64

unfoldable pub new : Memory → ℕ → Result SecretBuffer
unfolding lock mapped_size
new m len =
    let cap = mapped_size m len in
    if len == 0
    then err zero_length
    else if m.mmap cap
    then ok (lock m (record { memory = replicate cap 0; len = len; cap = cap; locked = false }))
    else err mmap_failed

unfoldable pub as_slice : SecretBuffer → Bytes
as_slice b = take b.len b.memory

-- The data go to the front of the slice, the rest of the slice is wiped, and what lies behind
-- the slice stays.
unfoldable pub write : SecretBuffer → Bytes → Result SecretBuffer
write b content =
    if ltb b.len (length content)
    then err data_too_long
    else ok (record b {
      memory =
          content
          ++ (secure_wipe (drop (length content) (take b.len b.memory)) ++ drop b.len b.memory);
    })

unfoldable pub wipe : SecretBuffer → SecretBuffer
wipe b = record b { memory = secure_wipe b.memory }

-- What `Drop` asks of the kernel, in order; `unmap` gets the bytes that the mapping then holds.
pub data Release : Type 0 where
  munlock : ℕ → Release
  munmap : Bytes → Release

unfoldable pub drop_buffer : SecretBuffer → List Release
drop_buffer b =
    let wiped = wipe b in
    if wiped.locked then munlock wiped.cap ∷ munmap wiped.memory ∷ [] else munmap wiped.memory ∷ []

abbrev pub IsZero : Bytes → Type 0
IsZero = All (λ b. b ≡ 0)

-- The mapping is as long as its capacity, and holds the logical length.
pub record IsValid (b : SecretBuffer) : Type 0 where
  pub fits : b.len ≤ b.cap
  pub nonempty : 0 < b.len
  pub sized : length b.memory ≡ b.cap
