-- ===== src/Util/Distance.antt =====
-- util/domains.py: `edit_distance`, the optimal string alignment distance by rows. A text is the list of its
-- characters, as numbers. `prev` and `cur` of the source are the lists of the entries of two rows.
pub mod Reference
pub mod Agreement
pub mod Metric
pub mod Examples
use Prim.Native.Nat.{min}
use envelockserver.Prelude.{
  ℕ, ◌+◌, Bool, true, false, ◌&&◌, Option, none, some, List, [], ◌∷◌, if◌then◌else◌, ◌==◌,
  text_comparable, number_comparable, length,
}

abbrev pub Chars : Type 0
Chars = List ℕ

abbrev pub chars_eq : Chars → Chars → Bool
chars_eq [] [] = true
chars_eq (x ∷ xs) (y ∷ ys) = x == y && chars_eq xs ys
chars_eq _ _ = false

abbrev pub cost : ℕ → ℕ → ℕ
cost x y = if x == y then 0 else 1

-- The entry without a transposition: from `cur[j - 1]`, `prev[j]` and `prev[j - 1]`.
pub entry : (x y left up diagonal : ℕ) → ℕ
entry x y left up diagonal = min (min (left + 1) (up + 1)) (diagonal + cost x y)

-- With `a[i - 2]` and `b[j - 2]`, and `prev2[j - 2]`.
pub transposed : (x y : ℕ) (x' y' : Option ℕ) (before : List ℕ) → ℕ → ℕ
transposed x y (some x') (some y') (d ∷ before) c = if x == y' && x' == y then min c (d + 1) else c
transposed x y x' y' before c = c

-- `prev2` from the place that the next entry reads: at the first entry it stays where it is.
pub advance : Option ℕ → List ℕ → List ℕ
advance none before = before
advance (some y') [] = []
advance (some y') (d ∷ before) = before

-- The entries from `j` on, given `cur[j - 1]`, the characters before and from `j`, and the two rows above,
-- `prev` from `j - 1` and `prev2` from `j - 2`.
pub entries :
    (x : ℕ) (x' : Option ℕ) (left : ℕ) (y' : Option ℕ) (b : Chars) (prev before : List ℕ) → List ℕ
unfolding entry transposed advance
entries x x' left y' (y ∷ b) (diagonal ∷ up ∷ prev) before =
    let c = transposed x y x' y' before (entry x y left up diagonal) in
    c ∷ entries x x' c (some y) b (up ∷ prev) (advance y' before)
entries x x' left y' b prev before = []

-- The rows for the characters of `a` from `i` on, `i` of them being passed.
pub rows : (i : ℕ) (x' : Option ℕ) (a b : Chars) (prev before : List ℕ) → List ℕ
unfolding entries
rows i x' [] b prev before = prev
rows i x' (x ∷ a) b prev before =
    rows (i + 1) (some x) a b ((i + 1) ∷ entries x x' (i + 1) none b prev before) prev

-- `range(n)` from `from` on, for as many numbers as `b` has characters, and one more.
pub first_row : ℕ → Chars → List ℕ
first_row from [] = from ∷ []
first_row from (y ∷ b) = from ∷ first_row (from + 1) b

last_entry : ℕ → List ℕ → ℕ
last_entry default [] = default
last_entry default (d ∷ ds) = last_entry d ds

pub edit_distance : Chars → Chars → ℕ
unfolding rows first_row last_entry
edit_distance [] b = length b
edit_distance (x ∷ a) [] = length (x ∷ a)
edit_distance (x ∷ a) (y ∷ b) =
    if chars_eq (x ∷ a) (y ∷ b)
    then 0
    else last_entry 0 (rows 0 none (x ∷ a) (y ∷ b) (first_row 0 (y ∷ b)) [])
