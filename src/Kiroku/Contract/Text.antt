-- ===== src/Kiroku/Contract/Text.antt =====
-- The text of a record (rs/crates/kiroku/src/lib.rs, `render`) as the first checks of `validate`
-- (rs/crates/kiroku/src/contract.rs) look at it: ASCII, one line, ended by a line break.
use ningen_shikkaku.Base.{
  ℕ, ◌≤◌, ◌<◌, ◌≡◌, refl, Bool, true, false, [], ◌∷◌, ◌++◌, arith, All, All-append, All-imply, some,
}
use ningen_shikkaku.Base.Text.{Bytes}
use ningen_shikkaku.Base.Decimal.{show, show-digits}
use ningen_shikkaku.Kiroku.Json.{Value, Items, Map}
use ningen_shikkaku.Kiroku.Render.Printing.{print, print_items, print_members}
use ningen_shikkaku.Kiroku.Checks.{all_bytes, is_ascii, is_in_line, strip_newline}

abbrev pub IsPrintable : Bytes → Type 0
IsPrintable = All λ c. (32 ≤ c) × (c < 127)

-- Every text and key of the value is printable.
unfoldable mutual
  pub IsPlain : Value → Type 0
  IsPlain Value.null = Unit
  IsPlain (Value.bool b) = Unit
  IsPlain (Value.number n) = Unit
  IsPlain (Value.other_number literal) = IsPrintable literal
  IsPlain (Value.string s) = IsPrintable s
  IsPlain (Value.array vs) = ArePlain vs
  IsPlain (Value.object m) = HasPlain m

  pub ArePlain : Items → Type 0
  ArePlain Items.nil = Unit
  ArePlain (Items.cons v vs) = IsPlain v × ArePlain vs

  pub HasPlain : Map → Type 0
  HasPlain Map.empty = Unit
  HasPlain (Map.member k v m) = IsPrintable k × IsPlain v × HasPlain m

show-IsPrintable : (n : ℕ) → IsPrintable (show n)
show-IsPrintable n = All-imply _ _ (λ c h. omega arith) (show n) (show-digits n)

mutual
  unfolding print IsPlain

  pub print-IsPrintable :
      (v : Value) (r : Bytes) → IsPlain v → IsPrintable r → IsPrintable (print v r)
  print-IsPrintable Value.null r p h = ground (arith, h)
  print-IsPrintable (Value.bool true) r p h = ground (arith, h)
  print-IsPrintable (Value.bool false) r p h = ground (arith, h)
  print-IsPrintable (Value.number n) r p h = All-append _ (show n) r (show-IsPrintable n) h
  print-IsPrintable (Value.other_number literal) r p h = All-append _ literal r p h
  print-IsPrintable (Value.string t) r p h =
      ground (arith, All-append (λ c. (32 ≤ c) × (c < 127)) t (b'"' ∷ r) p (omega arith, h))
  print-IsPrintable (Value.array Items.nil) r p h = ground (arith, h)
  print-IsPrintable (Value.array (Items.cons v vs)) r p h =
      (omega arith, print-IsPrintable v _ p.0 (print_items-IsPrintable vs _ p.1 (omega arith, h)))
  print-IsPrintable (Value.object Map.empty) r p h = ground (arith, h)
  print-IsPrintable (Value.object (Map.member k v m)) r (pk, pv, pm) h =
      let rest =
        print-IsPrintable v (print_members m (b'}' ∷ r)) pv
          (print_members-IsPrintable m (b'}' ∷ r) pm (omega arith, h)) in
      (omega arith, (omega arith, All-append _ k _ pk (omega arith, (omega arith, rest))))

  print_items-IsPrintable :
      (vs : Items) (r : Bytes) → ArePlain vs → IsPrintable r → IsPrintable (print_items vs r)
  print_items-IsPrintable Items.nil r p h = h
  print_items-IsPrintable (Items.cons v vs) r p h =
      (omega arith, print-IsPrintable v _ p.0 (print_items-IsPrintable vs r p.1 h))

  print_members-IsPrintable :
      (m : Map) (r : Bytes) → HasPlain m → IsPrintable r → IsPrintable (print_members m r)
  print_members-IsPrintable Map.empty r p h = h
  print_members-IsPrintable (Map.member k v m) r (pk, pv, pm) h =
      let rest = print-IsPrintable v (print_members m r) pv (print_members-IsPrintable m r pm h) in
      (omega arith, (omega arith, All-append _ k _ pk (omega arith, (omega arith, rest))))

all_bytes-lem :
    (test : ℕ → Bool)
    → ((c : ℕ) → (32 ≤ c) × (c < 127) → test c ≡ true)
    → (s : Bytes) → IsPrintable s
    → all_bytes test s ≡ true
unfolding all_bytes
all_bytes-lem test h [] p = refl
all_bytes-lem test h (c ∷ s) p = rw (h c p.0, all_bytes-lem test h s p.1) refl

pub strip_newline-append : (s : Bytes) → strip_newline (s ++ b'\n' ∷ []) ≡ some s
unfolding strip_newline
strip_newline-append [] = refl
strip_newline-append (c ∷ []) = refl
strip_newline-append (c ∷ d ∷ s) = rw (strip_newline-append (d ∷ s)) refl

all_bytes-append :
    (test : ℕ → Bool) (s t : Bytes)
    → all_bytes test s ≡ true
    → all_bytes test t ≡ true
    → all_bytes test (s ++ t) ≡ true
unfolding all_bytes
all_bytes-append test [] t p q = q
all_bytes-append test (c ∷ s) t p q = ground (arith, all_bytes-append test s t)

pub is_ascii-line : (s : Bytes) → IsPrintable s → all_bytes is_ascii (s ++ b'\n' ∷ []) ≡ true
unfolding is_ascii all_bytes
is_ascii-line s p =
    all_bytes-append is_ascii s (b'\n' ∷ []) (all_bytes-lem is_ascii (λ c h. ground arith) s p) refl

pub is_in_line-printable : (s : Bytes) → IsPrintable s → all_bytes is_in_line s ≡ true
unfolding is_in_line
is_in_line-printable s p = all_bytes-lem is_in_line (λ c h. ground arith) s p
