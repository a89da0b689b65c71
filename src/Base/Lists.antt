-- ===== src/Base/Lists.antt =====
-- Searches and updates of lists, as the handlers use them on the rows of a collection.
use Prim.Native.Nat.{ℕ, zero, suc, ◌-◌}
use mathlib.Core.Path.{◌≡◌, subst}
use mathlib.Core.Bool.{Bool, true}
use mathlib.Core.Logic.{inl, inr}
use mathlib.Core.Option.{Option, none, some}
use mathlib.Core.List.{List, [], ◌∷◌, ◌++◌}
use native.Mathlib.Omega.{arith}
use roadassistapp_be.Base.Tests.{leb, if◌then◌else◌, Bool-cases}

module _ {ℓ} {A : Type ℓ} where
  -- `xs.find(p)`
  abbrev pub find : (A → Bool) → List A → Option A
  find p [] = none
  find p (x ∷ xs) = if p x then some x else find p xs

  -- Every element satisfies the predicate; it computes to a tuple.
  abbrev pub All {κ} : (A → Type κ) → List A → Type κ
  All P [] = Unit
  All P (x ∷ xs) = P x × All P xs

module _ {ℓ} {A : Type ℓ} where
  pub All-append {κ} : (P : A → Type κ) (xs ys : List A) → All P xs → All P ys → All P (xs ++ ys)
  All-append P [] ys hx hy = hy
  All-append P (x ∷ xs) ys hx hy = (hx.0, All-append P xs ys hx.1 hy)

  pub All-map {κ μ} :
      (P : A → Type κ) (Q : A → Type μ) (f : (x : A) → P x → Q x) (xs : List A)
      → All P xs
      → All Q xs
  All-map P Q f [] h = tt
  All-map P Q f (x ∷ xs) h = (f x h.0, All-map P Q f xs h.1)

  pub All-zip {κ μ} :
      (P : A → Type κ) (Q : A → Type μ) (xs : List A)
      → All P xs
      → All Q xs
      → All (λ x. P x × Q x) xs
  All-zip P Q [] h k = tt
  All-zip P Q (x ∷ xs) h k = ((h.0, k.0), All-zip P Q xs h.1 k.1)

  -- What `find` returns passes its test.
  pub find-passes : (p : A → Bool) (xs : List A) {a : A} → find p xs ≡ some a → p a ≡ true
  find-passes p [] h = cc
  find-passes p (x ∷ xs) h = elim (Bool-cases (p x)) [
    | inl t ↦ ground arith
    | inr f ↦ find-passes p xs (rw f at h)
  ]

  -- What `find` returns satisfies what every element satisfies.
  pub find-All {κ} :
      (p : A → Bool) (P : A → Type κ) (xs : List A) {a : A} → find p xs ≡ some a → All P xs → P a
  find-All p P [] h all = cc
  find-All p P (x ∷ xs) {a} h all = elim (Bool-cases (p x)) [
    | inl t ↦ let e : some x ≡ some a = rw t at h in subst P (cc e) all.0
    | inr f ↦ let e : find p xs ≡ some a = rw f at h in find-All p P xs e all.1
  ]

  -- `xs[i]`
  abbrev pub nth : ℕ → List A → Option A
  nth i [] = none
  nth zero (x ∷ xs) = some x
  nth (suc i) (x ∷ xs) = nth i xs

  pub nth-All {κ} :
      (P : A → Type κ) (i : ℕ) (xs : List A) {a : A} → nth i xs ≡ some a → All P xs → P a
  nth-All P i [] h all = cc h
  nth-All P zero (x ∷ xs) h all = subst P (cc h) all.0
  nth-All P (suc i) (x ∷ xs) h all = nth-All P i xs h all.1

  -- A query: the elements that pass its test, no more than its limit.
  unfoldable pub select : (A → Bool) → ℕ → List A → List A
  select p limit [] = []
  select p limit (x ∷ xs) =
      let counted = select p (limit - 1) xs in
      let passed = select p limit xs in
      if p x then (if leb limit 0 then [] else x ∷ counted) else passed

  -- What a query returns passes its test, and satisfies what every element satisfies.
  pub select-All {κ} :
      (P : A → Type κ) (p : A → Bool) (limit : ℕ) (xs : List A)
      → All P xs
      → All (λ x. P x × (p x ≡ true)) (select p limit xs)
  unfolding select
  select-All P p limit [] h = tt
  select-All P p limit (x ∷ xs) h = elim (Bool-cases (p x)) [
    | inr d ↦ rw d (select-All P p limit xs h.1)
    | inl e ↦ elim (Bool-cases (leb limit 0)) [
      | inl z ↦ rw (e, z) tt
      | inr z ↦ rw (e, z) ((h.0, e), select-All P p (limit - 1) xs h.1)
    ]
  ]

-- `for (const x of xs) step(x);`
unfoldable pub for_each : {A S : Type 0} → (A → S → S) → List A → S → S
for_each step [] s = s
for_each step (x ∷ xs) s = for_each step xs (step x s)
