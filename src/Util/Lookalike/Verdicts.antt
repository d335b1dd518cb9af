-- ===== src/Util/Lookalike/Verdicts.antt =====
-- Which domains are taken for an imitation, and how close they are said to be.
use Prim.Native.Nat.{max}
use envelockserver.Prelude.{
  ℕ, zero, suc, ◌≤◌, ◌<◌, ◌≡◌, refl, sym, ap, ◌∙◌, ◌≢◌, Bool, true, false, ◌&&◌, ◌||◌, Option, none,
  some, [], ◌∷◌, arith, leb, if◌then◌else◌, is_some, eq_refl, text_comparable, number_comparable,
  length,
}
use envelockserver.Util.Distance.{Chars, chars_eq, edit_distance}
use envelockserver.Util.Distance.Agreement.{chars_eq_sound}
use envelockserver.Util.Distance.Metric.{edit_distance_metric}
use envelockserver.Util.Lookalike.{
  is_empty, Similarity, label, has_part, edit_threshold, classify_labels, classify_lookalike,
  DomainRules, Technique,
}

pub chars_eq_refl : (a : Chars) → chars_eq a a ≡ true
chars_eq_refl [] = refl
chars_eq_refl (x ∷ a) = ground (arith, chars_eq_refl a, eq_refl x)

-- Labels that differ are at least one edit apart.
apart : (a b : Chars) → chars_eq a b ≡ false → 0 < edit_distance a b
apart a b differ = by_distance (edit_distance a b) refl
  where
    by_distance : (d : ℕ) → edit_distance a b ≡ d → 0 < d
    by_distance (suc d) h = omega arith
    by_distance zero h =
        let same : a ≡ b = ((edit_distance_metric a b).0).0 h in
        let clash : true ≡ false = sym (chars_eq_refl b) ∙ (rw same at differ) in cc

-- A similarity below 1 that is a fraction: the denominator is not 0.
abbrev pub IsProper : Option (Technique × Similarity) → Type 0
IsProper none = Unit
IsProper (some (technique, (n, d))) = n < d

if-IsProper :
    (test : Bool) (x y : Option (Technique × Similarity))
    → (test ≡ true → IsProper x)
    → (test ≡ false → IsProper y)
    → IsProper (if test then x else y)
if-IsProper true x y h k = h refl
if-IsProper false x y h k = k refl

long_enough : (a b : Chars) → chars_eq a b ≡ false → 0 < max (length a) (length b)
long_enough [] [] differ = cc
long_enough [] (y ∷ b) differ = ground arith
long_enough (x ∷ a) b differ = ground arith

classify_labels-IsProper :
    (rules : DomainRules) (a b : Chars) → IsProper (classify_labels rules a b)
unfolding classify_labels
classify_labels-IsProper rules a b =
    if-IsProper (chars_eq a b) _ _ (λ h. omega arith)
      (λ differ.
        if-IsProper (chars_eq (rules.skeleton a) (rules.skeleton b)) _ _ (λ h. omega arith)
          (λ h.
            if-IsProper (has_part b a && leb 4 (length b)) _ _ (λ h. omega arith)
              (λ h.
                if-IsProper (leb (edit_distance a b) (edit_threshold b)) _ _
                  (λ near. omega (arith, apart a b differ, long_enough a b differ)) (λ h. tt))))

classify_labels_near :
    (rules : DomainRules) (a b : Chars)
    → edit_distance a b ≤ 1
    → is_some (classify_labels rules a b) ≡ true
unfolding classify_labels edit_threshold
classify_labels_near rules a b near = ground arith

-- A domain whose label is the protected label but for one edit is always reported, when both domains can be
-- registered and are not the same.
pub classify_lookalike_near :
    (rules : DomainRules) (candidate protected : Chars)
    → is_empty (rules.registrable_domain candidate) ≡ false
    → is_empty (rules.registrable_domain protected) ≡ false
    → rules.registrable_domain candidate ≢ rules.registrable_domain protected
    → edit_distance
        (label rules (rules.registrable_domain candidate))
        (label rules (rules.registrable_domain protected))
      ≤ 1
    → is_some (classify_lookalike rules candidate protected) ≡ true
unfolding classify_lookalike
classify_lookalike_near rules candidate protected ha hb differ near =
    let a = rules.registrable_domain candidate in
    let b = rules.registrable_domain protected in
    ground
      (arith, classify_labels_near rules (label rules a) (label rules b) near, chars_eq_sound a b)

-- What a verdict says of two registrable domains: that they differ, by a similarity below 1.
abbrev pub IsReport : (a b : Chars) → Option (Technique × Similarity) → Type 0
IsReport a b none = Unit
IsReport a b (some (technique, (n, d))) = (a ≢ b) × (n < d)

reported : (a b : Chars) (o : Option (Technique × Similarity)) → a ≢ b → IsProper o → IsReport a b o
reported a b none differ proper = tt
reported a b (some (technique, (n, d))) differ proper = (differ, proper)

-- Whatever is reported is a domain registered apart from the protected one, with a similarity below 1.
pub classify_lookalike-IsReport :
    (rules : DomainRules) (candidate protected : Chars)
    → IsReport
        (rules.registrable_domain candidate)
        (rules.registrable_domain protected)
        (classify_lookalike rules candidate protected)
unfolding classify_lookalike
classify_lookalike-IsReport rules candidate protected =
    let a = rules.registrable_domain candidate in
    let b = rules.registrable_domain protected in
    by_test (is_empty a || is_empty b || chars_eq a b) refl
  where
    by_test :
        (test : Bool)
        → (is_empty (rules.registrable_domain candidate)
            || is_empty (rules.registrable_domain protected)
            || chars_eq (rules.registrable_domain candidate) (rules.registrable_domain protected))
          ≡ test
        → IsReport (rules.registrable_domain candidate) (rules.registrable_domain protected) (
            if test
            then none
            else classify_labels rules
                (label rules (rules.registrable_domain candidate))
                (label rules (rules.registrable_domain protected)))
    by_test true h = tt
    by_test false h =
        let a = rules.registrable_domain candidate in
        let b = rules.registrable_domain protected in
        reported a b _ (λ same. ground (arith, chars_eq_refl a, ap (λ c. chars_eq a c) same))
          (classify_labels-IsProper rules (label rules a) (label rules b))
