-- ===== src/Prelude/Dict.antt =====
-- A Python dictionary as an association list in insertion order: an assignment to a key that is
-- there keeps the key's place, any other appends.
use mathlib.Core.Path.{◌≡◌, refl}
use mathlib.Core.Bool.{true, Bool}
use mathlib.Core.Option.{Option, none, some, some-injective}
use Prim.Native.Nat.{ℕ, ◌+◌}
use mathlib.Core.Logic.{inl, inr}
use mathlib.Core.List.{List, [], ◌∷◌}
use native.Mathlib.Omega.{arith}
use envelockserver.Prelude.Tests.{if◌then◌else◌, Bool-cases}
use envelockserver.Prelude.Equality.{Comparable, ◌==◌}

abbrev pub Dict {ℓ κ} : Type ℓ → Type κ → Type (ℓ ⊔ κ)
Dict K V = List (K × V)

module _ {ℓ κ} {K : Type ℓ} {V : Type κ} ⦃e : Comparable K⦄ where
  abbrev pub lookup : K → Dict K V → Option V
  lookup k [] = none
  lookup k ((j, v) ∷ d) = if j == k then some v else lookup k d

  -- `d[k] = v`
  abbrev pub insert : K → V → Dict K V → Dict K V
  insert k v [] = (k, v) ∷ []
  insert k v ((j, w) ∷ d) = if j == k then (k, v) ∷ d else (j, w) ∷ insert k v d

  -- `d.pop(k, None)`
  abbrev pub remove : K → Dict K V → Dict K V
  remove k [] = []
  remove k ((j, v) ∷ d) = let rest = remove k d in if j == k then rest else (j, v) ∷ rest

  -- Drops the entries whose value fails the test, as a loop of `del d[k]` over the stale keys does.
  abbrev pub prune : (V → Bool) → Dict K V → Dict K V
  prune p [] = []
  prune p ((j, v) ∷ d) = let rest = prune p d in if p v then (j, v) ∷ rest else rest

  pub lookup-insert :
      (k j : K) (v : V) (d : Dict K V)
      → lookup j (insert k v d) ≡ (if k == j then some v else lookup j d)
  lookup-insert k j v [] = refl
  lookup-insert k j v ((i, w) ∷ d) =
      ground (arith, e.equal_iff k j, e.equal_iff i k, e.equal_iff i j, lookup-insert k j v d)

  pub lookup-remove :
      (k j : K) (d : Dict K V) → lookup j (remove k d) ≡ (if k == j then none else lookup j d)
  lookup-remove k j [] = ground arith
  lookup-remove k j ((i, w) ∷ d) =
      ground (arith, e.equal_iff k j, e.equal_iff i k, e.equal_iff i j, lookup-remove k j d)

  -- The entry that a key finds survives if its value passes the test.
  pub lookup-prune :
      (k : K) (p : V → Bool) (d : Dict K V) {v : V}
      → lookup k d ≡ some v
      → p v ≡ true
      → lookup k (prune p d) ≡ some v
  lookup-prune k p [] h good = cc
  lookup-prune k p ((j, w) ∷ d) {v} h good = elim (Bool-cases (j == k)) [
    | inl same ↦ let held : w ≡ v = some-injective _ _ (rw same at h) in rw (held, good, same)
    | inr other ↦ ground (arith, lookup-prune k p d (rw other at h) good)
  ]

  pub prune-none :
      (k : K) (p : V → Bool) (d : Dict K V) → lookup k d ≡ none → lookup k (prune p d) ≡ none
  prune-none k p [] h = refl
  prune-none k p ((j, w) ∷ d) h = ground (arith, prune-none k p d)

  -- No key stands twice, as in every dictionary.
  abbrev pub IsUnique : Dict K V → Type κ
  IsUnique [] = Unit
  IsUnique ((k, v) ∷ d) = (lookup k d ≡ none) × IsUnique d

  -- How many entries pass the test.
  abbrev pub count_if : (V → Bool) → Dict K V → ℕ
  count_if p [] = 0
  count_if p ((k, v) ∷ d) = (if p v then 1 else 0) + count_if p d

  pub remove_absent : (k : K) (d : Dict K V) → lookup k d ≡ none → remove k d ≡ d
  remove_absent k [] h = refl
  remove_absent k ((j, v) ∷ d) h = ground (arith, remove_absent k d)

  pub count_if-insert_new :
      (p : V → Bool) (k : K) (v : V) (d : Dict K V)
      → lookup k d ≡ none
      → count_if p (insert k v d) ≡ count_if p d + (if p v then 1 else 0)
  count_if-insert_new p k v [] h = omega arith
  count_if-insert_new p k v ((j, w) ∷ d) h = ground (arith, count_if-insert_new p k v d)

  pub count_if-remove :
      (p : V → Bool) (k : K) (d : Dict K V) {v : V}
      → IsUnique d
      → lookup k d ≡ some v
      → count_if p (remove k d) + (if p v then 1 else 0) ≡ count_if p d
  count_if-remove p k [] u h = cc
  count_if-remove p k ((j, w) ∷ d) {v} u h = elim (Bool-cases (j == k)) [
    | inl same ↦
        let held : w ≡ v = some-injective _ _ (rw same at h) in
        let gone : lookup k d ≡ none = rw ((e.equal_iff j k).0 same) at u.0 in
        rw (same, remove_absent k d gone, held) (omega arith)
    | inr other ↦ ground (arith, count_if-remove p k d u.1 (rw other at h))
  ]

  pub insert-IsUnique : (k : K) (v : V) (d : Dict K V) → IsUnique d → IsUnique (insert k v d)
  insert-IsUnique k v [] u = (refl, tt)
  insert-IsUnique k v ((j, w) ∷ d) u = elim (Bool-cases (j == k)) [
    | inl same ↦ rw same (rw (← (e.equal_iff j k).0 same) u)
    | inr other ↦ rw other (
      ground (arith, lookup-insert k j v d, e.equal_iff j k, e.equal_iff k j, u.0),
      insert-IsUnique k v d u.1,
    )
  ]

  pub remove-IsUnique : (k : K) (d : Dict K V) → IsUnique d → IsUnique (remove k d)
  remove-IsUnique k [] u = tt
  remove-IsUnique k ((j, w) ∷ d) u = elim (Bool-cases (j == k)) [
    | inl same ↦ rw same (remove-IsUnique k d u.1)
    | inr other ↦ rw other (ground (arith, lookup-remove k j d, u.0), remove-IsUnique k d u.1)
  ]
