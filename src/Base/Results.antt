-- ===== src/Base/Results.antt =====
-- Rust's `Result`: `?` is the bind of a `do` block, and `ensure` is the `ensure` function of
-- rs/crates/kiroku/src/contract.rs, which turns a test into a refusal.
use mathlib.Core.Path.{◌≡◌, refl}
use mathlib.Core.Bool.{Bool, true, false}
use mathlib.Core.Option.{Option, none, some}

pub data Result {ℓ κ} (E : Type ℓ) (A : Type κ) : Type (ℓ ⊔ κ) where
  ok : A → Result E A
  err : E → Result E A

infixl 5 ◌>>=◌ ◌>>◌
abbrev pub ◌>>=◌ : {E A B : Type 0} → Result E A → (A → Result E B) → Result E B
err refusal >>= next = err refusal
ok value >>= next = next value

abbrev pub ◌>>◌ : {E A B : Type 0} → Result E A → Result E B → Result E B
first >> second = first >>= λ _. second

unfoldable pub ensure : {E : Type 0} → Bool → E → Result E (Unit {0})
ensure true e = ok tt
ensure false e = err e

-- `Option::ok_or`.
unfoldable pub ok_or : {E A : Type 0} → Option A → E → Result E A
ok_or none e = err e
ok_or (some a) e = ok a

-- The first step gives a value, and the chain goes on with it.
pub >>=-ok :
    {E A B : Type 0} {first : Result E A} (value : A) (next : A → Result E B) {end : Result E B}
    → first ≡ ok value
    → next value ≡ end
    → (first >>= next) ≡ end
>>=-ok value next gives goes_on = rw gives goes_on

-- A chain that came through has a first step that did, and goes on with its value.
pub >>=-take :
    {E A B G : Type 0} (first : Result E A) (next : A → Result E B) {last : B}
    → (first >>= next) ≡ ok last
    → ((value : A) → first ≡ ok value → next value ≡ ok last → G)
    → G
>>=-take (err refusal) next came_through go = cc
>>=-take (ok value) next came_through go = go value refl came_through

pub ensure-inv : {E : Type 0} (b : Bool) (e : E) (u : Unit {0}) → ensure b e ≡ ok u → b ≡ true
unfolding ensure
ensure-inv true e u h = refl
ensure-inv false e u h = cc

pub ok_or-inv : {E A : Type 0} (o : Option A) (e : E) (a : A) → ok_or o e ≡ ok a → o ≡ some a
unfolding ok_or
ok_or-inv none e a h = cc
ok_or-inv (some b) e a h = cc
