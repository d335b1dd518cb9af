-- ===== src/Util/Distance/Metric.antt =====
-- The distance tells different texts apart and has no direction.
use Prim.Native.Nat.{min}
use envelockserver.Prelude.{
  ℕ, ◌+◌, ◌≡◌, refl, sym, ap, ◌∙◌, ◌↔◌, Bool, ◌&&◌, [], ◌∷◌, ◌++◌, arith, nat_beq, if◌then◌else◌,
  ◌==◌, text_comparable, number_comparable,
}
use envelockserver.Util.Distance.{Chars, edit_distance}
use envelockserver.Util.Distance.Reference.{distance}
use envelockserver.Util.Distance.Agreement.{onto, reversed, distance-same, edit_distance-distance}

onto_twice : (a xs ys : Chars) → onto (onto a xs) ys ≡ onto xs (a ++ ys)
onto_twice [] xs ys = refl
onto_twice (x ∷ a) xs ys = onto_twice a (x ∷ xs) ys

append_none : (a : Chars) → a ++ [] ≡ a
append_none [] = refl
append_none (x ∷ a) = ap (λ r. x ∷ r) (append_none a)

reversed_twice : (a : Chars) → reversed (reversed a) ≡ a
reversed_twice a = onto_twice a [] [] ∙ append_none a

-- Texts without a distance are equal.
distance-zero : (p q : Chars) → distance p q ≡ 0 → p ≡ q
unfolding distance
distance-zero [] [] h = refl
distance-zero [] (y ∷ q) h = cc
distance-zero (x ∷ p) [] h = cc
distance-zero (x ∷ []) (y ∷ q) h = ground (arith, distance-zero [] q)
distance-zero (x ∷ x' ∷ p) (y ∷ []) h = ground (arith, distance-zero (x' ∷ p) [])
distance-zero (x ∷ x' ∷ p) (y ∷ y' ∷ q) h = ground (arith, distance-zero (x' ∷ p) (y' ∷ q))

test_comm : (x y : ℕ) → nat_beq x y ≡ nat_beq y x
test_comm x y = ground arith

step_comm :
    (s t : Bool) (left up diagonal before : ℕ)
    → (if s && t
        then min (min (min (left + 1) (up + 1)) diagonal) (before + 1)
        else min (min (left + 1) (up + 1)) diagonal)
      ≡ (if t && s
          then min (min (min (up + 1) (left + 1)) diagonal) (before + 1)
          else min (min (up + 1) (left + 1)) diagonal)
step_comm s t left up diagonal before = ground arith

distance_comm : (p q : Chars) → distance p q ≡ distance q p
unfolding distance
distance_comm [] [] = refl
distance_comm [] (y ∷ q) = refl
distance_comm (x ∷ p) [] = refl
distance_comm (x ∷ []) (y ∷ []) = ground arith
distance_comm (x ∷ []) (y ∷ y' ∷ q) =
    ground (arith, distance_comm (x ∷ []) (y' ∷ q), distance_comm [] (y' ∷ q))
distance_comm (x ∷ x' ∷ p) (y ∷ []) =
    ground (arith, distance_comm (x' ∷ p) (y ∷ []), distance_comm (x' ∷ p) [])
distance_comm (x ∷ x' ∷ p) (y ∷ y' ∷ q) =
    rw
      (
        distance_comm (x ∷ x' ∷ p) (y' ∷ q),
        distance_comm (x' ∷ p) (y ∷ y' ∷ q),
        distance_comm (x' ∷ p) (y' ∷ q),
        distance_comm p q,
        test_comm x y',
        test_comm x' y,
        test_comm x y,
      )
      (step_comm (y' == x) (y == x') _ _ _ _)

-- Two texts have distance 0 exactly when they are equal, and each is as far from the other as the other
-- from it.
pub edit_distance_metric :
    (a b : Chars) → ((edit_distance a b ≡ 0) ↔ (a ≡ b)) × (edit_distance a b ≡ edit_distance b a)
edit_distance_metric a b = (
  (
    λ h.
        let equal = distance-zero _ _ (sym (edit_distance-distance a b) ∙ h) in
        sym (reversed_twice a) ∙ ap (λ r. reversed r) equal ∙ reversed_twice b,
    λ same.
        edit_distance-distance a b
        ∙ ap (λ c. distance (reversed a) (reversed c)) (sym same)
        ∙ distance-same (reversed a),
  ),
  edit_distance-distance a b
      ∙ distance_comm (reversed a) (reversed b)
      ∙ sym (edit_distance-distance b a),
)
