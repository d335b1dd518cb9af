-- ===== src/Prelude/Lists.antt =====
-- Lists measured by native numbers, Boolean quantifiers, sums and sets as lists.
use Prim.Native.Nat.{ℕ, suc, ◌+◌, ◌≤◌}
use mathlib.Core.Path.{◌≡◌, refl}
use mathlib.Core.Bool.{Bool, true, false, ◌&&◌, ◌||◌}
use mathlib.Core.List.{List, [], ◌∷◌, ◌++◌}
use mathlib.Core.Logic.{inl, inr}
use native.Mathlib.Omega.{arith}
use envelockserver.Prelude.Tests.{if◌then◌else◌, Bool-cases}
use envelockserver.Prelude.Equality.{Comparable, ◌==◌, eq_refl}

-- Every element satisfies `P`.
abbrev pub All {ℓ κ} : {A : Type ℓ} → (A → Type κ) → List A → Type κ
All P [] = Unit
All P (x ∷ xs) = P x × All P xs

module _ {ℓ} {A : Type ℓ} where
  abbrev pub length : List A → ℕ
  length [] = 0
  length (x ∷ xs) = suc (length xs)

  abbrev pub filter : (A → Bool) → List A → List A
  filter p [] = []
  filter p (x ∷ xs) = let rest = filter p xs in if p x then x ∷ rest else rest

  abbrev pub any : (A → Bool) → List A → Bool
  any p [] = false
  any p (x ∷ xs) = p x || any p xs

  abbrev pub all : (A → Bool) → List A → Bool
  all p [] = true
  all p (x ∷ xs) = p x && all p xs

  abbrev pub sum_by : (A → ℕ) → List A → ℕ
  sum_by f [] = 0
  sum_by f (x ∷ xs) = f x + sum_by f xs

  pub any_imp :
      (p q : A → Bool) (xs : List A)
      → ((x : A) → p x ≡ true → q x ≡ true)
      → any p xs ≡ true
      → any q xs ≡ true
  any_imp p q [] h a = a
  any_imp p q (x ∷ xs) h a = ground (arith, h x, any_imp p q xs h)

  pub length-append : (xs ys : List A) → length (xs ++ ys) ≡ length xs + length ys
  length-append [] ys = omega arith
  length-append (x ∷ xs) ys = omega (arith, length-append xs ys)

  pub length-filter-le : (p : A → Bool) (xs : List A) → length (filter p xs) ≤ length xs
  length-filter-le p [] = omega arith
  length-filter-le p (x ∷ xs) = ground (arith, length-filter-le p xs)

  pub all-filter : (p : A → Bool) (xs : List A) → all p (filter p xs) ≡ true
  all-filter p [] = refl
  all-filter p (x ∷ xs) = ground (arith, all-filter p xs)

pub all_in-filter {ℓ} :
    {A : Type ℓ}
    → (p q r : A → Bool) (xs : List A) → ((x : A) → p x ≡ true → q x ≡ true → r x ≡ true)
    → all p xs ≡ true
    → all r (filter q xs) ≡ true
all_in-filter p q r [] h a = refl
all_in-filter p q r (x ∷ xs) h a = ground (arith, h x, all_in-filter p q r xs h)

pub All-append {ℓ κ} :
    {A : Type ℓ} → (P : A → Type κ) (xs ys : List A) → All P xs → All P ys → All P (xs ++ ys)
All-append P [] ys h k = k
All-append P (x ∷ xs) ys h k = (h.0, All-append P xs ys h.1 k)

module _ {ℓ} {A : Type ℓ} ⦃e : Comparable A⦄ where
  -- `a in xs`
  abbrev pub contains : A → List A → Bool
  contains a [] = false
  contains a (x ∷ xs) = a == x || contains a xs

  -- `xs <= ys` of sets
  abbrev pub subset : List A → List A → Bool
  subset xs ys = all (λ x. contains x ys) xs

  pub contains-append :
      (a : A) (xs ys : List A) → contains a (xs ++ ys) ≡ (contains a xs || contains a ys)
  contains-append a [] ys = refl
  contains-append a (x ∷ xs) ys = ground (arith, contains-append a xs ys)

  pub contains-filter :
      (p : A → Bool) (a : A) (xs : List A) → contains a (filter p xs) ≡ (contains a xs && p a)
  contains-filter p a [] = refl
  contains-filter p a (x ∷ xs) = elim (Bool-cases (a == x)) [
    | inl same ↦ rw ((e.equal_iff a x).0 same) (ground (arith, contains-filter p x xs, eq_refl x))
    | inr other ↦ ground (arith, contains-filter p a xs)
  ]

  pub any_witness :
      (p : A → Bool) (xs : List A)
      → any p xs ≡ true
      → (x : A) × (contains x xs ≡ true) × (p x ≡ true)
  any_witness p [] h = cc
  any_witness p (x ∷ xs) h = elim (Bool-cases (p x)) [
    | inl found ↦ (x, rw (eq_refl x), found)
    | inr other ↦
        let (y, inside, good) = any_witness p xs (ground arith) in (y, ground (arith, inside), good)
  ]

  pub any_intro :
      (p : A → Bool) (x : A) (xs : List A) → contains x xs ≡ true → p x ≡ true → any p xs ≡ true
  any_intro p x [] h good = cc
  any_intro p x (y ∷ ys) h good = elim (Bool-cases (x == y)) [
    | inl same ↦ rw (← (e.equal_iff x y).0 same) (rw good)
    | inr other ↦ ground (arith, any_intro p x ys (ground arith) good)
  ]

  -- What holds somewhere in a list holds somewhere in every list that includes it.
  pub any_mono :
      (p : A → Bool) (xs ys : List A)
      → ((x : A) → contains x xs ≡ true → contains x ys ≡ true)
      → any p xs ≡ true
      → any p ys ≡ true
  any_mono p xs ys sub h =
      let (x, inside, good) = any_witness p xs h in any_intro p x ys (sub x inside) good
