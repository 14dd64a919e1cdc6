-- ===== src/Kekkai/Filter.antt =====
-- rs/crates/kekkai/src/lib.rs, `apply`: what the loaded filter allows.
use ningen_shikkaku.Base.{
  ℕ, ◌≡◌, ◌≢◌, refl, subst, sym, ap, ◌∙◌, Bool, true, false, ◌||◌, List, [], ◌∷◌, ◌++◌, Option,
  none, some, All, All-imply, ◌==◌, arith,
}
use ningen_shikkaku.Base.Text.{Bytes}
use ningen_shikkaku.Base.Results.{ok, ensure, ensure-inv, >>=-take}
use ningen_shikkaku.Kekkai.{
  conceptual_allowlist, runtime_required, Failure, Seccomp, allow_core, add_core, allow_runtime,
  add_runtime, apply,
}

unfoldable pub allows : List ℕ → ℕ → Bool
allows [] n = false
allows (m ∷ ms) n = m == n || allows ms n

allows-append : (a b : List ℕ) (n : ℕ) → allows (a ++ b) n ≡ (allows a n || allows b n)
unfolding allows
allows-append [] b n = refl
allows-append (m ∷ a) b n = ground (arith, allows-append a b n)

module _ (s : Seccomp) where
  -- The name resolves to a number that the filter allows.
  abbrev pub IsAllowed : List ℕ → Bytes → Type 0
  IsAllowed filter name = (n : ℕ) × (s.from_name name ≡ some n) × (allows filter n ≡ true)

  allows-grown :
      (filter more : List ℕ) (name : Bytes)
      → IsAllowed filter name
      → IsAllowed (filter ++ more) name
  allows-grown filter more name (n, e, h) = (n, e, ground (arith, allows-append filter more n))

  allow_core-grows :
      (name : Bytes) (o : Option ℕ) (filter r : List ℕ)
      → allow_core s name o filter ≡ ok r
      → (n : ℕ) × (o ≡ some n) × (r ≡ filter ++ n ∷ [])
  unfolding allow_core
  allow_core-grows name none filter r h = cc
  allow_core-grows name (some n) filter r h = (n, refl, ground arith)

  -- No listed name has the number.
  abbrev pub IsUnlisted : ℕ → List Bytes → Type 0
  IsUnlisted n = All λ name. s.from_name name ≢ some n

  allow_runtime-only :
      (n : ℕ) (o : Option ℕ) (filter : List ℕ)
      → o ≢ some n
      → allows (allow_runtime s o filter) n ≡ allows filter n
  unfolding allow_runtime allows
  allow_runtime-only n none filter h = refl
  allow_runtime-only n (some m) filter h = ground (arith, allows-append filter (m ∷ []) n)

  add_runtime-only :
      (n : ℕ) (names : List Bytes) (filter : List ℕ)
      → IsUnlisted n names
      → allows (add_runtime s names filter) n ≡ allows filter n
  unfolding add_runtime
  add_runtime-only n [] filter a = refl
  add_runtime-only n (name ∷ names) filter a =
      add_runtime-only n names _ a.1 ∙ allow_runtime-only n (s.from_name name) filter a.0

  allow_runtime-keeps :
      (n : ℕ) (o : Option ℕ) (filter : List ℕ)
      → allows filter n ≡ true
      → allows (allow_runtime s o filter) n ≡ true
  unfolding allow_runtime
  allow_runtime-keeps n none filter h = h
  allow_runtime-keeps n (some m) filter h = ground (arith, allows-append filter (m ∷ []) n)

  add_runtime-keeps :
      (n : ℕ) (names : List Bytes) (filter : List ℕ)
      → allows filter n ≡ true
      → allows (add_runtime s names filter) n ≡ true
  unfolding add_runtime
  add_runtime-keeps n [] filter h = h
  add_runtime-keeps n (name ∷ names) filter h =
      add_runtime-keeps n names _ (allow_runtime-keeps n (s.from_name name) filter h)

  allow_core-only :
      (n : ℕ) (name : Bytes) (o : Option ℕ) (filter grown : List ℕ)
      → allow_core s name o filter ≡ ok grown
      → o ≢ some n
      → allows grown n ≡ allows filter n
  unfolding allows
  allow_core-only n name o filter grown h ne =
      let (m, e, g) = allow_core-grows name o filter grown h in
      ground (arith, allows-append filter (m ∷ []) n)

  add_core-only :
      (n : ℕ) (names : List Bytes) (filter r : List ℕ)
      → add_core s names filter ≡ ok r
      → IsUnlisted n names
      → allows r n ≡ allows filter n
  unfolding add_core
  add_core-only n [] filter r h a = ground arith
  add_core-only n (name ∷ names) filter r h a =
      >>=-take (allow_core s name (s.from_name name) filter) _ h λ grown p q.
        add_core-only n names grown r q a.1
        ∙ allow_core-only n name (s.from_name name) filter grown p a.0

  add_core-keeps :
      (n : ℕ) (names : List Bytes) (filter r : List ℕ)
      → add_core s names filter ≡ ok r
      → allows filter n ≡ true
      → allows r n ≡ true
  unfolding add_core
  add_core-keeps n [] filter r h k = ground arith
  add_core-keeps n (name ∷ names) filter r h k =
      >>=-take (allow_core s name (s.from_name name) filter) _ h λ grown p q.
        add_core-keeps n names grown r q (
          let (m, e, g) = allow_core-grows name (s.from_name name) filter grown p in
          ground (arith, allows-append filter (m ∷ []) n))

  allow_core-IsAllowed :
      (name : Bytes) (filter grown : List ℕ)
      → allow_core s name (s.from_name name) filter ≡ ok grown
      → IsAllowed grown name
  unfolding allows
  allow_core-IsAllowed name filter grown h =
      let (m, e, g) = allow_core-grows name (s.from_name name) filter grown h in
      (m, e, ground (arith, allows-append filter (m ∷ []) m))

  add_core-IsAllowed :
      (names : List Bytes) (filter r : List ℕ)
      → add_core s names filter ≡ ok r
      → All (IsAllowed r) names
  unfolding add_core
  add_core-IsAllowed [] filter r h = tt
  add_core-IsAllowed (name ∷ names) filter r h =
      >>=-take (allow_core s name (s.from_name name) filter) _ h λ grown p q.
        let (m, e, k) = allow_core-IsAllowed name filter grown p in
        ((m, e, add_core-keeps m names grown r q k), add_core-IsAllowed names grown r q)

-- Where `apply` succeeds, the filter it gives was loaded, it allows the number of every name of the
-- core list, each of which has resolved, and it allows no number to which no listed name resolves.
pub apply-confines :
    (s : Seccomp) (n : ℕ) (filter : List ℕ)
    → apply s ≡ ok filter
    → IsUnlisted s n conceptual_allowlist
    → IsUnlisted s n runtime_required
    → (s.load filter ≡ true)
      × All (IsAllowed s filter) conceptual_allowlist
      × (allows filter n ≡ false)
unfolding apply allows
apply-confines s n filter h core_free runtime_free =
    >>=-take (ensure s.new_filter Failure.no_context) _ h λ u p0 h0.
      >>=-take (add_core s conceptual_allowlist []) _ h0 λ core p1 h1.
        >>=-take (ensure (s.load (add_runtime s runtime_required core)) Failure.load_failed) _ h1
          λ w p2 h2.
            let eq : add_runtime s runtime_required core ≡ filter = cc in
            (
              subst (λ f. s.load f ≡ true) eq (ensure-inv _ _ w p2),
              All-imply (IsAllowed s core) (IsAllowed s filter)
                  (λ name (m, e, k). (
                    m,
                    e,
                    subst (λ f. allows f m ≡ true) eq
                        (add_runtime-keeps s m runtime_required core k),
                  ))
                  conceptual_allowlist (add_core-IsAllowed s conceptual_allowlist [] core p1),
              ap (λ f. allows f n) (sym eq)
                  ∙ add_runtime-only s n runtime_required core runtime_free
                  ∙ add_core-only s n conceptual_allowlist [] core p1 core_free,
            )
