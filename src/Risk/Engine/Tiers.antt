-- ===== src/Risk/Engine/Tiers.antt =====
-- How high `assess` puts the tier, and why.
use Prim.Native.Nat.{Ordering}
use Prim.Native.String.{compare as compare_text}
use text.Mathlib.TextEquality.{path_by_compare}
use envelockserver.Prelude.{
  ℕ, ◌≤◌, ◌≡◌, refl, ◌∙◌, String, Bool, true, false, ◌||◌, Option, none, some, List, [], ◌∷◌, ◌++◌,
  any, contains, subset, All, arith, ◌==◌, text_comparable, if◌then◌else◌,
}
use envelockserver.Core.Enums.{AlertTier, low}
use envelockserver.Risk.Engine.{
  FindingResult, order, promote, Combination, combinations, RiskAssessment, insert_service,
  services_of, outranks, base_of, apply_floor, escalate, Float, assess,
}

pub contains-insert_service :
    (x s : String) (ts : List String) → contains x (insert_service s ts) ≡ (x == s || contains x ts)
unfolding insert_service
contains-insert_service x s [] = refl
contains-insert_service x s (t ∷ ts) = go (contains-insert_service x s ts) (compare_text s t) refl
  where
    go :
        contains x (insert_service s ts) ≡ (x == s || contains x ts)
        → (o : Ordering) → compare_text s t ≡ o
        → contains x (insert_service s (t ∷ ts)) ≡ (x == s || contains x (t ∷ ts))
    go ih Ordering.lt e = rw (e, insert_service) refl
    go ih Ordering.eq e = rw (e, insert_service) (rw (path_by_compare s t e) (ground arith))
    go ih Ordering.gt e = rw (e, insert_service) (ground (arith, ih))

-- A service is in the set exactly when some finding has it.
pub contains-services_of :
    (x : String) (fs : List FindingResult)
    → contains x (services_of fs) ≡ any (λ f. x == f.service) fs
unfolding services_of
contains-services_of x [] = refl
contains-services_of x (f ∷ fs) =
    contains-insert_service x f.service (services_of fs)
    ∙ (λ i. x == f.service || contains-services_of x fs i)

next_outranks :
    (best f : FindingResult)
    → let next = if outranks f best then f else best in
      (order best.tier ≤ order next.tier) × (order f.tier ≤ order next.tier)
unfolding outranks
next_outranks best f = ground arith

-- No finding has a higher tier than the base.
base_of_max :
    (best : FindingResult) (fs : List FindingResult)
    → (order best.tier ≤ order (base_of best fs).tier)
      × All (λ f. order f.tier ≤ order (base_of best fs).tier) fs
unfolding base_of
base_of_max best [] = (omega arith, tt)
base_of_max best (f ∷ fs) =
    let next = if outranks f best then f else best in
    let (kept, rest) = base_of_max next fs in
    let (old, new) = next_outranks best f in
    (omega (arith, old, kept), (omega (arith, new, kept), rest))

apply_floor-le :
    (floor : Option AlertTier) (tier : AlertTier) → order tier ≤ order (apply_floor floor tier)
unfolding apply_floor promote
apply_floor-le none low = omega arith
apply_floor-le none _ = omega arith
apply_floor-le (some floor) tier = ground arith

apply_floor_if-le :
    (present : Bool) (floor : Option AlertTier) (tier : AlertTier)
    → order tier ≤ order (if present then apply_floor floor tier else tier)
apply_floor_if-le true floor tier = apply_floor-le floor tier
apply_floor_if-le false floor tier = omega arith

-- The loop never lowers the tier.
escalate-le :
    (services : List String) (tier : AlertTier) (rationale : List String) (cs : List Combination)
    → order tier ≤ order (escalate services tier rationale cs).0
unfolding escalate
escalate-le services tier rationale [] = omega arith
escalate-le services tier rationale (c ∷ cs) =
    let present = subset c.services services in
    omega (
      arith,
      apply_floor_if-le present c.floor tier,
      escalate-le services (if present then apply_floor c.floor tier else tier)
          (if present then rationale ++ (c.explanation ∷ []) else rationale) cs,
    )

All-weaken :
    (fs : List FindingResult) {m n : ℕ}
    → m ≤ n
    → All (λ f. order f.tier ≤ m) fs
    → All (λ f. order f.tier ≤ n) fs
All-weaken [] le h = tt
All-weaken (f ∷ fs) le h = (omega arith, All-weaken fs le h.1)

-- The assessment is at least as high as every finding that it combines.
pub assess_tier_ge :
    (fl : Float) (fs : List FindingResult) {a : RiskAssessment}
    → assess fl fs ≡ some a
    → All (λ f. order f.tier ≤ order a.tier) fs
unfolding assess
assess_tier_ge fl [] h = cc
assess_tier_ge fl (f ∷ fs) {a} h =
    let base = base_of f fs in
    let services = services_of (f ∷ fs) in
    let up = escalate-le services base.tier [] combinations in
    let e : (escalate services base.tier [] combinations).0 ≡ a.tier = ground arith in
    All-weaken (f ∷ fs) (rw e at up) (base_of_max f fs)
