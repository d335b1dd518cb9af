-- ===== src/Util/Distance/Agreement.antt =====
-- The rows of `edit_distance` hold the distances of the prefixes.
use envelockserver.Prelude.{
  ℕ, ◌+◌, ◌≡◌, refl, sym, ap, ◌∙◌, Bool, true, false, Option, none, some, List, [], ◌∷◌, arith,
  if◌then◌else◌, nat_beq_iff, text_comparable, number_comparable, length,
}
use envelockserver.Util.Distance.{
  last_entry, Chars, chars_eq, entry, transposed, advance, entries, rows, first_row, edit_distance,
}
use envelockserver.Util.Distance.Reference.{distance}

abbrev head? : Chars → Option ℕ
head? [] = none
head? (x ∷ xs) = some x

-- The entries of the row of `p` for the prefixes of the second text that go on from `q`; a prefix has its
-- last character first.
abbrev entries_of : (p q b : Chars) → List ℕ
entries_of p q [] = []
entries_of p q (y ∷ b) = distance p (y ∷ q) ∷ entries_of p (y ∷ q) b

abbrev row_of : (p q b : Chars) → List ℕ
row_of p q b = distance p q ∷ entries_of p q b

-- What the row of `p` reads of the row two above: the row of `p` without its last character, from `q`
-- without its last character.
IsBefore : (p q b : Chars) → List ℕ → Type 0
IsBefore [] q b before = Unit
IsBefore (x' ∷ p) [] b before = before ≡ row_of p [] b
IsBefore (x' ∷ p) (y' ∷ q) b before = before ≡ row_of p q (y' ∷ b)

advance-IsBefore :
    (p q b : Chars) (y : ℕ) (before : List ℕ)
    → IsBefore p q (y ∷ b) before
    → IsBefore p (y ∷ q) b (advance (head? q) before)
unfolding IsBefore advance
advance-IsBefore [] q b y before h = tt
advance-IsBefore (x' ∷ p) [] b y before h = h
advance-IsBefore (x' ∷ p) (y' ∷ q) b y before h = rw h refl

distance-entry :
    (x y : ℕ) (p q b : Chars) (before : List ℕ)
    → IsBefore p q (y ∷ b) before
    → transposed x y
        (head? p)
        (head? q)
        before
        (entry x y (distance (x ∷ p) q) (distance p (y ∷ q)) (distance p q))
      ≡ distance (x ∷ p) (y ∷ q)
unfolding IsBefore transposed entry distance
distance-entry x y [] q b before h = refl
distance-entry x y (x' ∷ p) [] b before h = refl
distance-entry x y (x' ∷ p) (y' ∷ q) b before h = rw h refl

entries-distance :
    (x : ℕ) (p q b : Chars) (before : List ℕ)
    → IsBefore p q b before
    → entries x (head? p) (distance (x ∷ p) q) (head? q) b (row_of p q b) before
      ≡ entries_of (x ∷ p) q b
unfolding entries
entries-distance x p q [] before h = refl
entries-distance x p q (y ∷ b) before h =
    rw
      (
        distance-entry x y p q b before h,
        entries-distance x p (y ∷ q) b (advance (head? q) before)
            (advance-IsBefore p q b y before h),
      )
      refl

-- `xs` with the characters of `a` put in front one by one.
abbrev pub onto : Chars → Chars → Chars
onto [] xs = xs
onto (x ∷ a) xs = onto a (x ∷ xs)

distance-none : (p : Chars) → distance p [] ≡ length p
unfolding distance
distance-none [] = refl
distance-none (x ∷ p) = refl

-- The row that the loop makes for `x` is that of `x ∷ p`.
row-distance :
    (x : ℕ) (p b : Chars) (before : List ℕ)
    → IsBefore p [] b before
    → (length p + 1) ∷ entries x (head? p) (length p + 1) none b (row_of p [] b) before
      ≡ row_of (x ∷ p) [] b
row-distance x p b before h =
    let first : length p + 1 ≡ distance (x ∷ p) [] = omega (arith, distance-none (x ∷ p)) in
    ap (λ left. left ∷ entries x (head? p) left none b (row_of p [] b) before) first
    ∙ ap (λ rest. distance (x ∷ p) [] ∷ rest) (entries-distance x p [] b before h)

rows-distance :
    (p a b : Chars) (before : List ℕ)
    → IsBefore p [] b before
    → rows (length p) (head? p) a b (row_of p [] b) before ≡ row_of (onto a p) [] b
unfolding rows IsBefore
rows-distance p [] b before h = refl
rows-distance p (x ∷ a) b before h =
    let counted : length p + 1 ≡ length (x ∷ p) = omega arith in
    ap (λ cur. rows (length p + 1) (some x) a b cur (row_of p [] b)) (row-distance x p b before h)
    ∙ ap (λ i. rows i (some x) a b (row_of (x ∷ p) [] b) (row_of p [] b)) counted
    ∙ rows-distance (x ∷ p) a b (row_of p [] b) refl

first_row-distance : (q b : Chars) → first_row (length q) b ≡ row_of [] q b
unfolding first_row distance
first_row-distance q [] = refl
first_row-distance q (y ∷ b) =
    let counted : length q + 1 ≡ length (y ∷ q) = omega arith in
    ap (λ rest. length q ∷ rest) (ap (λ n. first_row n b) counted ∙ first_row-distance (y ∷ q) b)

last_entry-distance :
    (default : ℕ) (p q b : Chars) → last_entry default (row_of p q b) ≡ distance p (onto b q)
unfolding last_entry
last_entry-distance default p q [] = refl
last_entry-distance default p q (y ∷ b) = last_entry-distance (distance p q) p (y ∷ q) b

abbrev pub reversed : Chars → Chars
reversed a = onto a []

length-onto : (a xs : Chars) → length (onto a xs) ≡ length a + length xs
length-onto [] xs = omega arith
length-onto (x ∷ a) xs = omega (arith, length-onto a (x ∷ xs))

pub chars_eq_sound : (a b : Chars) → chars_eq a b ≡ true → a ≡ b
chars_eq_sound [] [] h = refl
chars_eq_sound [] (y ∷ b) h = cc
chars_eq_sound (x ∷ a) [] h = cc
chars_eq_sound (x ∷ a) (y ∷ b) h = ground (arith, nat_beq_iff x y, chars_eq_sound a b)

-- The shortcut for equal texts agrees with the distance.
pub distance-same : (p : Chars) → distance p p ≡ 0
unfolding distance
distance-same [] = refl
distance-same (x ∷ []) = ground arith
distance-same (x ∷ x' ∷ p) = ground (arith, distance-same (x' ∷ p))

by_rows :
    (a b : Chars)
    → last_entry 0 (rows 0 none a b (first_row 0 b) []) ≡ distance (reversed a) (reversed b)
unfolding IsBefore
by_rows a b =
    ap (λ r. last_entry 0 (rows 0 none a b r [])) (first_row-distance [] b)
    ∙ ap (λ r. last_entry 0 r) (rows-distance [] a b [] tt)
    ∙ last_entry-distance 0 (reversed a) [] b

-- For all texts, the loop over rows, with its shortcuts, gives the distance that the recursion on the two
-- texts defines.
pub edit_distance-distance : (a b : Chars) → edit_distance a b ≡ distance (reversed a) (reversed b)
unfolding edit_distance
edit_distance-distance [] b = unfold distance in omega (arith, length-onto b [])
edit_distance-distance (x ∷ a) [] =
    omega (arith, length-onto a (x ∷ []), distance-none (onto a (x ∷ [])))
edit_distance-distance (x ∷ a) (y ∷ b) = by_test (chars_eq (x ∷ a) (y ∷ b)) refl
  where
    by_test :
        (test : Bool)
        → chars_eq (x ∷ a) (y ∷ b) ≡ test
        → (if test then 0 else last_entry 0 (rows 0 none (x ∷ a) (y ∷ b) (first_row 0 (y ∷ b)) []))
          ≡ distance (reversed (x ∷ a)) (reversed (y ∷ b))
    by_test false other = by_rows (x ∷ a) (y ∷ b)
    by_test true same =
        let equal = chars_eq_sound (x ∷ a) (y ∷ b) same in
        sym (
          ap (λ c. distance (reversed (x ∷ a)) (reversed c)) (sym equal)
          ∙ distance-same (reversed (x ∷ a)))
