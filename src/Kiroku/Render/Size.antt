-- ===== src/Kiroku/Render/Size.antt =====
-- The size of a record (rs/crates/kiroku/src/lib.rs, `MAX_RECORD_BYTES`).
use ningen_shikkaku.Base.{
  ℕ, ◌+◌, ◌≤◌, ◌≡◌, refl, Bool, true, false, List, [], ◌∷◌, ◌++◌, arith, length, length-append,
  Bool-cases, inl, inr,
}
use ningen_shikkaku.Base.Text.{Bytes}
use ningen_shikkaku.Base.Decimal.{show}
use ningen_shikkaku.Kiroku.Render.{
  str, int, bool, Field, text_le, insert, sort_fields, bool_text, quoted, scalar_text, field_text,
  more_fields, object_text, push_object,
}

-- The bytes of some fields, each with a separator.
abbrev pub size : List Field → ℕ
size [] = 0
size (f ∷ fs) = length (field_text f) + 1 + size fs

pub size-append : (fs gs : List Field) → size (fs ++ gs) ≡ size fs + size gs
size-append [] gs = omega arith
size-append (f ∷ fs) gs = omega (arith, size-append fs gs)

size-insert :
    (f : Field) (gs : List Field) → size (insert f gs) ≡ length (field_text f) + 1 + size gs
unfolding insert
size-insert f [] = refl
size-insert f (g ∷ gs) = elim (Bool-cases (text_le f.0 g.0)) [
  | inl e ↦ rw (e, insert) refl
  | inr e ↦ rw (e, insert) (omega (arith, size-insert f gs))
]

size-sort_fields : (fs : List Field) → size (sort_fields fs) ≡ size fs
unfolding sort_fields
size-sort_fields [] = refl
size-sort_fields (f ∷ fs) = omega (arith, size-insert f (sort_fields fs), size-sort_fields fs)

length-more_fields : (fs : List Field) → length (more_fields fs) ≡ size fs
unfolding more_fields
length-more_fields [] = refl
length-more_fields (f ∷ fs) =
    omega (arith, length-append (field_text f) (more_fields fs), length-more_fields fs)

length-object_text : (fs : List Field) → length (object_text fs) ≤ size fs + 2
unfolding object_text
length-object_text [] = ground arith
length-object_text (f ∷ fs) = omega (
  arith,
  length-append (field_text f) (more_fields fs ++ b'}' ∷ []),
  length-append (more_fields fs) (b'}' ∷ []),
  length-more_fields fs,
)

pub length-push_object : (fs : List Field) → length (push_object fs) ≤ size fs + 2
unfolding push_object
length-push_object fs = omega (arith, length-object_text (sort_fields fs), size-sort_fields fs)

length-quoted : (s : Bytes) → length (quoted s) ≡ length s + 2
unfolding quoted
length-quoted s = omega (arith, length-append s (b'"' ∷ []))

pub length-field_str :
    (key s : Bytes) → length (field_text (key, str s)) ≡ length key + length s + 5
unfolding field_text scalar_text
length-field_str key s =
    omega (arith, length-append (quoted key) (b':' ∷ quoted s), length-quoted key, length-quoted s)

pub length-field_int :
    (key : Bytes) (n : ℕ) → length (field_text (key, int n)) ≡ length key + length (show n) + 3
unfolding field_text scalar_text
length-field_int key n =
    omega (arith, length-append (quoted key) (b':' ∷ show n), length-quoted key)

pub length-bool_text : (b : Bool) → length (bool_text b) ≤ 5
unfolding bool_text
length-bool_text true = ground arith
length-bool_text false = ground arith

pub length-field_bool :
    (key : Bytes) (b : Bool) → length (field_text (key, bool b)) ≤ length key + 8
unfolding field_text scalar_text
length-field_bool key b =
    omega (
      arith,
      length-append (quoted key) (b':' ∷ bool_text b),
      length-quoted key,
      length-bool_text b,
    )
