-- ===== src/Util/Distance/Reference.antt =====
-- The distance by recursion on the two texts, and that the rows compute it.
use Prim.Native.Nat.{min}
use envelockserver.Prelude.{
  ℕ, suc, ◌+◌, ◌&&◌, [], ◌∷◌, if◌then◌else◌, ◌==◌, text_comparable, number_comparable, length,
}
use envelockserver.Util.Distance.{Chars, cost}

-- The optimal string alignment distance of two texts, last character first.
unfoldable pub distance : Chars → Chars → ℕ
distance [] ys = length ys
distance (x ∷ xs) [] = suc (length xs)
distance (x ∷ []) (y ∷ ys) =
    min (min (distance (x ∷ []) ys + 1) (distance [] (y ∷ ys) + 1)) (distance [] ys + cost x y)
distance (x ∷ x' ∷ xs) (y ∷ []) =
    min (min (distance (x ∷ x' ∷ xs) [] + 1) (distance (x' ∷ xs) (y ∷ []) + 1))
      (distance (x' ∷ xs) [] + cost x y)
distance (x ∷ x' ∷ xs) (y ∷ y' ∷ ys) =
    let c =
      min (min (distance (x ∷ x' ∷ xs) (y' ∷ ys) + 1) (distance (x' ∷ xs) (y ∷ y' ∷ ys) + 1))
        (distance (x' ∷ xs) (y' ∷ ys) + cost x y) in
    if x == y' && x' == y then min c (distance xs ys + 1) else c
