-- ===== src/Risk/Engine/Score.antt =====
-- The bounds of the aggregated score.
use envelockserver.Prelude.{
  ℕ, ◌+◌, ◌≤◌, ◌≡◌, refl, some, List, [], ◌∷◌, arith, text_comparable, number_comparable, All,
  length,
}
use envelockserver.Risk.Engine.{
  insert_score, min, sorted_scores, weighted, aggregate, assess, FindingResult, RiskAssessment,
  Float,
}

-- The scores of findings are at most 100.
abbrev pub InRange : List FindingResult → Type 0
InRange = All (λ f. f.score ≤ 100)

module _ (fl : Float) where
  weighted-le : (acc : fl.Value) (i : ℕ) (ss : List ℕ) → fl.int acc ≤ fl.int (weighted fl acc i ss)
  unfolding weighted
  weighted-le acc i [] = omega arith
  weighted-le acc i (s ∷ ss) = omega (
    arith,
    fl.int-plus-le acc s (i + 1),
    weighted-le (fl.plus acc (fl.quotient s (i + 1))) (i + 1) ss,
  )

abbrev head_or : ℕ → List ℕ → ℕ
head_or d [] = d
head_or d (s ∷ ss) = s

head-insert_score :
    (s : ℕ) (ss : List ℕ)
    → (s ≤ head_or 0 (insert_score s ss)) × (head_or 0 ss ≤ head_or 0 (insert_score s ss))
unfolding insert_score
head-insert_score s [] = omega arith
head-insert_score s (t ∷ ts) = ground arith

head-insert_score-le :
    (s : ℕ) (ss : List ℕ) (m : ℕ) → s ≤ m → head_or 0 ss ≤ m → head_or 0 (insert_score s ss) ≤ m
unfolding insert_score
head-insert_score-le s [] m h k = h
head-insert_score-le s (t ∷ ts) m h k = ground arith

head-sorted_scores-le : (fs : List FindingResult) → InRange fs → head_or 0 (sorted_scores fs) ≤ 100
unfolding sorted_scores
head-sorted_scores-le [] h = omega arith
head-sorted_scores-le (f ∷ fs) h =
    head-insert_score-le f.score (sorted_scores fs) 100 h.0 (head-sorted_scores-le fs h.1)

All-le_weaken :
    (fs : List FindingResult) (m n : ℕ)
    → m ≤ n
    → All (λ f. f.score ≤ m) fs
    → All (λ f. f.score ≤ n) fs
All-le_weaken [] m n le h = tt
All-le_weaken (f ∷ fs) m n le h = (omega arith, All-le_weaken fs m n le h.1)

-- The sort puts the highest score first.
head-sorted_scores :
    (fs : List FindingResult) → All (λ f. f.score ≤ head_or 0 (sorted_scores fs)) fs
unfolding sorted_scores
head-sorted_scores [] = tt
head-sorted_scores (f ∷ fs) =
    let (here, there) = head-insert_score f.score (sorted_scores fs) in
    (here, All-le_weaken fs _ _ there (head-sorted_scores fs))

head-weighted :
    (fl : Float) (ss : List ℕ)
    → head_or 0 ss ≤ 100
    → head_or 0 ss ≤ fl.int (weighted fl fl.nothing 0 ss)
unfolding weighted
head-weighted fl [] h = omega arith
head-weighted fl (s ∷ ss) h = omega (
  arith,
  fl.int-quotient_one s (omega arith),
  weighted-le fl (fl.plus fl.nothing (fl.quotient s 1)) 1 ss,
)

-- With scores of at most 100 the score of an assessment is at most 100 and at least the score of
-- every finding: adding findings never hides the worst one.
pub assess_score_bounds :
    (fl : Float) (fs : List FindingResult) {a : RiskAssessment}
    → assess fl fs ≡ some a
    → InRange fs
    → (a.score ≤ 100) × All (λ f. f.score ≤ a.score) fs
unfolding assess aggregate
assess_score_bounds fl [] h r = cc
assess_score_bounds fl (f ∷ fs) {a} h r =
    let ss = sorted_scores (f ∷ fs) in
    let top = head-sorted_scores-le (f ∷ fs) r in
    let e : min 100 (fl.int (weighted fl fl.nothing 0 ss)) ≡ a.score = ground arith in
    let reached : head_or 0 ss ≤ a.score = omega (arith, e, top, head-weighted fl ss top) in
    (omega (arith, e), All-le_weaken (f ∷ fs) _ _ reached (head-sorted_scores (f ∷ fs)))

-- Findings are always assessed: only the empty list is not.
pub assess_total :
    (fl : Float) (fs : List FindingResult)
    → 1 ≤ length fs
    → (a : RiskAssessment) × (assess fl fs ≡ some a)
unfolding assess
assess_total fl [] h = absurd (omega (arith, h))
assess_total fl (f ∷ fs) h = (_, refl)
