-- ===== src/Goodnight/Buffer/Laws.antt =====
-- What a buffer keeps through every operation, and what a wipe leaves.
use ningen_shikkaku.Base.{
  ℕ, zero, suc, ◌-◌, ◌*◌, ◌^◌, ◌≤◌, ◌<◌, ◌≡◌, refl, ap, [], ◌∷◌, ◌++◌, arith, length, take, drop,
  replicate, length-append, length-replicate, true, false, if◌then◌else◌, All, append_assoc, ◌∙◌,
}
use ningen_shikkaku.Base.Text.{Bytes}
use ningen_shikkaku.Goodnight.Buffer.{
  SecretBuffer, Memory, ok, err, data_too_long, Release, munlock, munmap, secure_wipe, new,
  as_slice, write, wipe, drop_buffer, IsZero, IsValid, div_ceil, mapped_size, lock,
}

pub length-secure_wipe : (bs : Bytes) → length (secure_wipe bs) ≡ length bs
unfolding secure_wipe
length-secure_wipe [] = refl
length-secure_wipe (b ∷ bs) = omega (arith, length-secure_wipe bs)

pub secure_wipe-IsZero : (bs : Bytes) → IsZero (secure_wipe bs)
unfolding secure_wipe
secure_wipe-IsZero [] = tt
secure_wipe-IsZero (b ∷ bs) = (refl, secure_wipe-IsZero bs)

pub secure_wipe_idem : (bs : Bytes) → secure_wipe (secure_wipe bs) ≡ secure_wipe bs
unfolding secure_wipe
secure_wipe_idem [] = refl
secure_wipe_idem (b ∷ bs) = ap (◌∷◌ 0) (secure_wipe_idem bs)

pub replicate-IsZero : (n : ℕ) → IsZero (replicate n 0)
replicate-IsZero zero = tt
replicate-IsZero (suc n) = (refl, replicate-IsZero n)

length-drop-take : (k n : ℕ) (bs : Bytes) → n ≤ length bs → length (drop k (take n bs)) ≡ n - k
length-drop-take zero zero bs h = omega arith
length-drop-take (suc k) zero bs h = omega arith
length-drop-take k (suc n) [] h = absurd (omega arith)
length-drop-take zero (suc n) (b ∷ bs) h = omega (arith, length-drop-take zero n bs (omega arith))
length-drop-take (suc k) (suc n) (b ∷ bs) h = omega (arith, length-drop-take k n bs (omega arith))

length-drop_of_le : (n : ℕ) (bs : Bytes) → length (drop n bs) ≡ length bs - n
length-drop_of_le zero bs = omega arith
length-drop_of_le (suc n) [] = omega arith
length-drop_of_le (suc n) (b ∷ bs) = omega (arith, length-drop_of_le n bs)

pub secure_wipe-replicate : (bs : Bytes) → secure_wipe bs ≡ replicate (length bs) 0
unfolding secure_wipe
secure_wipe-replicate [] = refl
secure_wipe-replicate (b ∷ bs) = ap (◌∷◌ 0) (secure_wipe-replicate bs)

pub take-append_exact : (n : ℕ) (a b : Bytes) → length a ≡ n → take n (a ++ b) ≡ a
take-append_exact zero [] b h = refl
take-append_exact zero (x ∷ a) b h = absurd (omega arith)
take-append_exact (suc n) [] b h = absurd (omega arith)
take-append_exact (suc n) (x ∷ a) b h = ap (◌∷◌ x) (take-append_exact n a b (omega arith))

ceil_fits : (n d : ℕ) → 0 < d → n ≤ div_ceil n d * d
unfolding div_ceil
ceil_fits n d h = grind arith

-- When the mapping is as large as asked for, it holds the buffer.
mapped_fits :
    (m : Memory) (len : ℕ)
    → 0 < m.page_size
    → div_ceil len m.page_size * m.page_size < 2 ^ 64
    → len ≤ mapped_size m len
unfolding mapped_size
mapped_fits m len h small = omega (arith, ceil_fits len m.page_size h)

-- A new buffer of a size that does not wrap is well formed and all zero, and says truly whether
-- it is locked.
pub new-IsValid :
    (m : Memory) (len : ℕ) {b : SecretBuffer}
    → 0 < m.page_size
    → div_ceil len m.page_size * m.page_size < 2 ^ 64
    → new m len ≡ ok b
    → IsValid b × IsZero b.memory × (b.len ≡ len) × (b.locked ≡ m.mlock b.cap)
unfolding new
new-IsValid m len h small e = ground (
  arith,
  mapped_fits m len h small,
  replicate-IsZero (mapped_size m len),
  length-replicate {A = ℕ} (mapped_size m len) 0,
)

-- A buffer that the kernel maps is made.
pub new_succeeds :
    (m : Memory) (len : ℕ)
    → 0 < len
    → m.mmap (mapped_size m len) ≡ true
    → (b : SecretBuffer) × (new m len ≡ ok b)
unfolding new mapped_size
new_succeeds m len h e =
    let cap = mapped_size m len in
    let b : SecretBuffer = record {
      memory = replicate cap 0;
      len = len;
      cap = cap;
      locked = false;
    } in
    (lock m b, ground (arith, e))

drop-append_exact : (n : ℕ) (a b : Bytes) → length a ≡ n → drop n (a ++ b) ≡ b
drop-append_exact zero [] b h = refl
drop-append_exact zero (x ∷ a) b h = absurd (omega arith)
drop-append_exact (suc n) [] b h = absurd (omega arith)
drop-append_exact (suc n) (x ∷ a) b h = drop-append_exact n a b (omega arith)

-- The slack of a write: the rest of the slice behind the data, wiped.
slack-eq :
    (b : SecretBuffer) (content : Bytes)
    → IsValid b
    → secure_wipe (drop (length content) (take b.len b.memory))
      ≡ replicate (b.len - length content) 0
slack-eq b content v =
    secure_wipe-replicate (drop (length content) (take b.len b.memory))
    ∙ ap (λ n. replicate n 0) (length-drop-take (length content) b.len b.memory (omega arith))

length-slice :
    (b : SecretBuffer) (content : Bytes)
    → length content ≤ b.len
    → length (content ++ replicate (b.len - length content) 0) ≡ b.len
length-slice b content h = omega (
  arith,
  length-append content (replicate (b.len - length content) 0),
  length-replicate {A = ℕ} (b.len - length content) 0,
)

-- Data that fit are always stored. The buffer stays well formed, its slice then holds the data
-- and zeros behind them, and the bytes past the slice are as before.
pub write_lem :
    (b : SecretBuffer) (content : Bytes)
    → IsValid b
    → length content ≤ b.len
    → (b' : SecretBuffer) × (write b content ≡ ok b')
      × IsValid b'
      × (as_slice b' ≡ content ++ replicate (b.len - length content) 0)
      × (drop b.len b'.memory ≡ drop b.len b.memory)
unfolding write as_slice
write_lem b content v h =
    let slice = content ++ replicate (b.len - length content) 0 in
    let rest = drop b.len b.memory in
    (
      record b { memory = slice ++ rest },
      ground (
        arith,
        slack-eq b content v,
        append_assoc content (replicate (b.len - length content) 0) rest,
      ),
      record {
        fits = v.fits;
        nonempty = v.nonempty;
        sized = omega (
          arith,
          v,
          length-append slice rest,
          length-slice b content h,
          length-drop_of_le b.len b.memory,
        );
      },
      take-append_exact b.len slice rest (length-slice b content h),
      drop-append_exact b.len slice rest (length-slice b content h),
    )

-- Data that do not fit are refused.
pub write_refuses :
    (b : SecretBuffer) (content : Bytes)
    → b.len < length content
    → write b content ≡ err data_too_long
unfolding write
write_refuses b content h = ground arith

-- A wipe zeroes the whole mapping, not only the slice, keeps the sizes and the lock, and a second
-- one changes nothing.
pub wipe_lem :
    (b : SecretBuffer)
    → IsZero (wipe b).memory
      × ((wipe b).len ≡ b.len)
      × ((wipe b).cap ≡ b.cap)
      × ((wipe b).locked ≡ b.locked)
      × (wipe (wipe b) ≡ wipe b)
unfolding wipe
wipe_lem b = (
  secure_wipe-IsZero b.memory,
  refl,
  refl,
  refl,
  ap (λ m. record b { memory = m }) (secure_wipe_idem b.memory),
)

pub wipe-IsValid : (b : SecretBuffer) → IsValid b → IsValid (wipe b)
unfolding wipe
wipe-IsValid b v = record {
  fits = v.fits;
  nonempty = v.nonempty;
  sized = length-secure_wipe b.memory ∙ v.sized;
}

-- What a release leaves in the mapping that it gives back.
abbrev pub Unmapped : Release → Type 0
Unmapped (munlock n) = Unit
Unmapped (munmap bs) = IsZero bs

-- Dropping a buffer gives its mapping back once and last, with zeros in it; a buffer that was
-- locked is unlocked before.
pub drop_buffer-zeroes :
    (b : SecretBuffer)
    → All Unmapped (drop_buffer b)
      × (drop_buffer b
          ≡ (if b.locked then munlock b.cap ∷ [] else []) ++ munmap (wipe b).memory ∷ [])
unfolding drop_buffer
drop_buffer-zeroes b = ground (arith, wipe_lem b)
