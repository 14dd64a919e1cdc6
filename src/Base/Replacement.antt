-- ===== src/Base/Replacement.antt =====
-- One element of a list put in place of another, as a thread's step does it to a list of threads.
use Prim.Native.Nat.{ℕ, ◌+◌, ◌≤◌}
use mathlib.Core.Path.{◌≡◌, refl}
use mathlib.Core.Bool.{Bool, false}
use mathlib.Core.List.{List, [], ◌∷◌}
use native.Mathlib.Omega.{arith}
use ningen_shikkaku.Base.Tests.{if◌then◌else◌}
use ningen_shikkaku.Base.Lists.{All, count_if}

module _ {ℓ} {A : Type ℓ} where
  -- `ys` is `xs` with `y` where it had `x`.
  pub data Replaced (x y : A) : List A → List A → Type ℓ where
    at_head : (zs : List A) → Replaced x y (x ∷ zs) (y ∷ zs)
    in_tail : (z : A) {xs ys : List A} → Replaced x y xs ys → Replaced x y (z ∷ xs) (z ∷ ys)

  -- What one element adds to a count.
  abbrev pub weight : (A → Bool) → A → ℕ
  weight f x = if f x then 1 else 0

  pub Replaced-count :
      {x y : A} {xs ys : List A} (f : A → Bool)
      → Replaced x y xs ys
      → count_if f ys + weight f x ≡ count_if f xs + weight f y
  Replaced-count f (at_head zs) = omega arith
  Replaced-count f (in_tail z r) = omega (arith, Replaced-count f r)

  pub Replaced-weight :
      {x y : A} {xs ys : List A} (f : A → Bool) → Replaced x y xs ys → weight f x ≤ count_if f xs
  Replaced-weight f (at_head zs) = omega arith
  Replaced-weight f (in_tail z r) = omega (arith, Replaced-weight f r)

  pub Replaced-back : {x y : A} {xs ys : List A} → Replaced x y xs ys → Replaced y x ys xs
  Replaced-back (at_head zs) = at_head zs
  Replaced-back (in_tail z r) = in_tail z (Replaced-back r)

  pub Replaced-All :
      {x y : A} {xs ys : List A} (P : A → Type 0) → Replaced x y xs ys → All P xs → P x
  Replaced-All P (at_head zs) (p, ps) = p
  Replaced-All P (in_tail z r) (p, ps) = Replaced-All P r ps

  pub All-none :
      (P Q : A → Type 0) (f : A → Bool) (xs : List A)
      → ((z : A) → f z ≡ false → P z → Q z)
      → count_if f xs ≡ 0
      → All P xs
      → All Q xs
  All-none P Q f [] k c a = tt
  All-none P Q f (x ∷ xs) k c (p, ps) =
      (k x (ground arith) p, All-none P Q f xs k (ground arith) ps)

  -- Where no other element is an `f`, the others keep what an element that is no `f` keeps.
  pub All-Replaced :
      {x y : A} {xs ys : List A} (P Q : A → Type 0) (f : A → Bool)
      → ((z : A) → f z ≡ false → P z → Q z)
      → count_if f xs ≡ weight f x
      → Replaced x y xs ys
      → Q y
      → All P xs
      → All Q ys
  All-Replaced {x} P Q f k c (at_head zs) q (p, ps) = (q, All-none P Q f zs k (omega (arith, c)) ps)
  All-Replaced {x} P Q f k c (in_tail z {xs} r) q (p, ps) =
      let n = Replaced-weight f r in
      (k z (ground (arith, n, c)) p, All-Replaced P Q f k (ground (arith, n, c)) r q ps)

  pub Replaced-put :
      {x y : A} {xs ys : List A} (P : A → Type 0) → Replaced x y xs ys → P y → All P xs → All P ys
  Replaced-put P (at_head zs) q (p, ps) = (q, ps)
  Replaced-put P (in_tail z r) q (p, ps) = (p, Replaced-put P r q ps)

  count-none :
      (f g : A → Bool) (xs : List A)
      → ((z : A) → f z ≡ false → g z ≡ false)
      → count_if f xs ≡ 0
      → count_if g xs ≡ 0
  count-none f g [] k c = refl
  count-none f g (x ∷ xs) k c =
      ground (arith, c, k x (ground (arith, c)), count-none f g xs k (ground (arith, c)))

  -- Where no other element is an `f`, no other is a `g` that has to be an `f`.
  pub Replaced-alone :
      {x y : A} {xs ys : List A} (f g : A → Bool)
      → ((z : A) → f z ≡ false → g z ≡ false)
      → count_if f xs ≡ weight f x
      → Replaced x y xs ys
      → count_if g xs ≡ weight g x
  Replaced-alone {x} f g k c (at_head zs) = omega (arith, count-none f g zs k (omega (arith, c)))
  Replaced-alone {x} f g k c (in_tail z {xs} r) =
      let n = Replaced-weight f r in
      let rest = Replaced-alone f g k (ground (arith, n, c)) r in
      ground (arith, rest, k z (ground (arith, n, c)))
