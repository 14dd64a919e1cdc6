-- ===== src/Tests/Buffer.antt =====
-- `SecretBuffer` of rs/crates/goodnight/src/lib.rs at concrete inputs.
use ningen_shikkaku.Base.{
  ℕ, ◌-◌, ◌*◌, ◌^◌, ◌<◌, ◌≡◌, refl, [], ◌∷◌, ◌++◌, true, arith, All, length, replicate, drop, ltb,
}
use ningen_shikkaku.Goodnight.Buffer.{
  div_ceil, Memory, SecretBuffer, ok, new, write, wipe, as_slice, drop_buffer, munlock, munmap,
  IsZero, IsValid,
}
use ningen_shikkaku.Goodnight.Buffer.Laws.{new-IsValid, write_lem, drop_buffer-zeroes, Unmapped}

-- Pages of eight bytes, all mapped, none locked above one page.
abbrev small_pages : Memory
small_pages = record { page_size = 8; mmap = λ n. true; mlock = λ n. ltb n 9 }

abbrev three_bytes : SecretBuffer
three_bytes = record { memory = replicate 8 7; len = 3; cap = 8; locked = true }

three_bytes-IsValid : IsValid three_bytes
three_bytes-IsValid = record { fits = ground arith; nonempty = ground arith; sized = ground arith }

abbrev new_three : SecretBuffer
new_three = record { memory = replicate 8 0; len = 3; cap = 8; locked = true }

new_three_made : new small_pages 3 ≡ ok new_three
unfolding new
new_three_made = refl

one_page_fits : div_ceil 3 8 * 8 < 2 ^ 64
unfolding div_ceil
one_page_fits = ground arith

new-IsValid_example :
    IsValid new_three
    × IsZero new_three.memory
    × (new_three.len ≡ 3)
    × (new_three.locked ≡ small_pages.mlock new_three.cap)
new-IsValid_example = new-IsValid small_pages 3 (ground arith) one_page_fits new_three_made

write_lem_example :
    (b' : SecretBuffer) × (write three_bytes (1 ∷ 2 ∷ []) ≡ ok b')
    × IsValid b'
    × (as_slice b' ≡ (1 ∷ 2 ∷ []) ++ replicate (3 - length {A = ℕ} (1 ∷ 2 ∷ [])) 0)
    × (drop 3 b'.memory ≡ drop 3 three_bytes.memory)
write_lem_example = write_lem three_bytes (1 ∷ 2 ∷ []) three_bytes-IsValid (ground arith)

drop_buffer-zeroes_example :
    All Unmapped (drop_buffer three_bytes)
    × (drop_buffer three_bytes ≡ (munlock 8 ∷ []) ++ munmap (wipe three_bytes).memory ∷ [])
drop_buffer-zeroes_example = drop_buffer-zeroes three_bytes
