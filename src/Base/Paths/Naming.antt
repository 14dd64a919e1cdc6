-- ===== src/Base/Paths/Naming.antt =====
-- Renaming the last segment of a path.
use ningen_shikkaku.Base.{
  ℕ, ◌≡◌, refl, sym, ap, ◌∙◌, true, false, none, some, List, [], ◌∷◌, ◌++◌, append_assoc,
  append-nil, All, ◌==◌, Bool-cases, ◌⊎◌, inl, inr, ==_iff,
}
use ningen_shikkaku.Base.Text.{Bytes, codes, text_eq}
use ningen_shikkaku.Base.Paths.{
  segments, slashed, before_dot, file_stem, is_skipped, renamed, rename_last, rename, renamed_path,
  with_extension, ends_slash, join,
}

-- No slash, and not one of the segments that name nothing.
pub record IsName (name : Bytes) : Type 0 where
  pub whole : All (λ c. (c == b'/') ≡ false) name
  pub kept : is_skipped name ≡ false
  pub child : text_eq name (codes "..") ≡ false

before_dot-none : (e : Bytes) → All (λ c. (c == b'.') ≡ false) e → before_dot e ≡ none
unfolding before_dot
before_dot-none [] h = refl
before_dot-none (c ∷ e) (h, hs) = rw (before_dot-none e hs, h) refl

before_dot_last :
    (s e : Bytes) → All (λ c. (c == b'.') ≡ false) e → before_dot (s ++ b'.' ∷ e) ≡ some s
unfolding before_dot
before_dot_last [] e h = rw (before_dot-none e h) refl
before_dot_last (c ∷ s) e h = rw (before_dot_last s e h) refl

pub file_stem_last :
    (c : ℕ) (s e : Bytes)
    → All (λ c. (c == b'.') ≡ false) e
    → file_stem ((c ∷ s) ++ b'.' ∷ e) ≡ c ∷ s
unfolding file_stem before_dot
file_stem_last c s e h = rw (before_dot_last (c ∷ s) e h) refl

segments-name : (f : Bytes) → All (λ c. (c == b'/') ≡ false) f → segments f ≡ (f, [])
unfolding segments
segments-name [] h = refl
segments-name (c ∷ f) (h, hs) = rw (segments-name f hs, h) refl

segments-child :
    (b f : Bytes)
    → All (λ c. (c == b'/') ≡ false) f
    → segments (b ++ b'/' ∷ f) ≡ ((segments b).0, (segments b).1 ++ f ∷ [])
unfolding segments
segments-child [] f h = rw (segments-name f h) refl
segments-child (c ∷ b) f h = elim (Bool-cases (c == b'/')) [
  | inl e ↦ rw (segments-child b f h, e) refl
  | inr e ↦ rw (segments-child b f h, e) refl
]

slashed-child : (ss : List Bytes) (g : Bytes) → slashed (ss ++ g ∷ []) ≡ slashed ss ++ b'/' ∷ g
unfolding slashed
slashed-child [] g = ap (◌∷◌ b'/') (append-nil g)
slashed-child (s ∷ ss) g =
    ap (λ x. b'/' ∷ (s ++ x)) (slashed-child ss g)
    ∙ ap (◌∷◌ b'/') (sym (append_assoc s (slashed ss) (b'/' ∷ g)))

segments-slashed : (b : Bytes) → (segments b).0 ++ slashed (segments b).1 ≡ b
unfolding segments slashed
segments-slashed [] = refl
segments-slashed (c ∷ b) = elim (Bool-cases (c == b'/')) [
  | inl e ↦ rw (e, (==_iff c b'/').0 e) (ap (◌∷◌ b'/') (segments-slashed b))
  | inr e ↦ rw e (ap (◌∷◌ c) (segments-slashed b))
]

rename-child :
    (ext f : Bytes) (ss : List Bytes)
    → IsName f
    → rename ext (ss ++ f ∷ []) ≡ renamed (ss ++ (file_stem f ++ b'.' ∷ ext) ∷ [])
unfolding rename rename_last
rename-child ext f [] n = rw (n.kept, n.child) refl
rename-child ext f (s ∷ ss) n = rw (rename-child ext f ss n) refl

-- The path that a renaming of the segments gives.
with_segments :
    (ext path : Bytes) (s : Bytes × List Bytes)
    → segments path ≡ s
    → with_extension ext path ≡ renamed_path path (rename ext (s.0 ∷ s.1))
unfolding with_extension
with_segments ext path s e =
    ap (λ (s : Bytes × List Bytes). renamed_path path (rename ext (s.0 ∷ s.1))) e

with_extension-name : (ext f : Bytes) → IsName f → with_extension ext f ≡ file_stem f ++ b'.' ∷ ext
unfolding renamed_path slashed
with_extension-name ext f n =
    with_segments ext f (f, []) (segments-name f n.whole)
    ∙ ap (renamed_path f) (rename-child ext f [] n)
    ∙ append-nil (file_stem f ++ b'.' ∷ ext)

with_extension-child :
    (ext b f : Bytes)
    → IsName f
    → with_extension ext (b ++ b'/' ∷ f) ≡ b ++ b'/' ∷ (file_stem f ++ b'.' ∷ ext)
unfolding renamed_path
with_extension-child ext b f n =
    let path = b ++ b'/' ∷ f in
    let g = file_stem f ++ b'.' ∷ ext in
    let s = (segments b).0 in
    let ss = (segments b).1 in
    with_segments ext path (s, ss ++ f ∷ []) (segments-child b f n.whole)
    ∙ ap (renamed_path path) (rename-child ext f (s ∷ ss) n)
    ∙ ap (λ x. s ++ x) (slashed-child ss g)
    ∙ sym (append_assoc s (slashed ss) (b'/' ∷ g))
    ∙ ap (λ x. x ++ b'/' ∷ g) (segments-slashed b)

ends_slash-cases : (b : Bytes) → ends_slash b ≡ true → (d : Bytes) × (b ≡ d ++ b'/' ∷ [])
unfolding ends_slash
ends_slash-cases [] e = cc
ends_slash-cases (c ∷ []) e = ([], ap (λ x. x ∷ []) ((==_iff c b'/').0 e))
ends_slash-cases (c ∷ d ∷ b) e = let (b', p) = ends_slash-cases (d ∷ b) e in (c ∷ b', ap (◌∷◌ c) p)

-- A directory is in front of a name with one slash between them, or is empty.
join-cases :
    (b : Bytes)
    → ((name : Bytes) → join b name ≡ name)
      ⊎ ((d : Bytes) × ((name : Bytes) → join b name ≡ d ++ b'/' ∷ name))
unfolding join
join-cases [] = inl (λ name. refl)
join-cases (c ∷ b) = elim (Bool-cases (ends_slash (c ∷ b))) [
  | inl e ↦
      let (d, p) = ends_slash-cases (c ∷ b) e in
      inr (d, λ name. rw e (ap (λ x. x ++ name) p ∙ append_assoc d (b'/' ∷ []) name))
  | inr e ↦ inr (c ∷ b, λ name. rw e refl)
]

-- The extension of a file that a directory is joined with is replaced in the file.
pub with_extension-join :
    (ext b f : Bytes)
    → IsName f
    → with_extension ext (join b f) ≡ join b (file_stem f ++ b'.' ∷ ext)
with_extension-join ext b f n =
    let g = file_stem f ++ b'.' ∷ ext in
    elim (join-cases b) [
      | inl e ↦ ap (with_extension ext) (e f) ∙ with_extension-name ext f n ∙ sym (e g)
      | inr (d, e) ↦ ap (with_extension ext) (e f) ∙ with_extension-child ext d f n ∙ sym (e g)
    ]
