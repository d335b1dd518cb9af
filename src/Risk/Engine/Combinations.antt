-- ===== src/Risk/Engine/Combinations.antt =====
-- `assess` as a formula: which combinations are present decides the tier, the rationale and the
-- callback.
use mathlib.Core.List.{append-nil, append_assoc}
use envelockserver.Prelude.{
  ℕ, suc, String, ◌≡◌, refl, sym, ◌∙◌, ◌⊎◌, inl, inr, Bool, true, false, not, ◌&&◌, ◌||◌, none,
  some, List, [], ◌∷◌, ◌++◌, map, arith, if◌then◌else◌, is_some, ◌==◌, number_comparable,
  text_comparable, All, length, filter, any, contains, subset,
}
use envelockserver.Core.Enums.{
  source_mechanism_eq, mailbox_class_eq, protection_level_eq, alert_tier_eq, identity_event_kind_eq,
  AlertTier, low, medium, high, critical,
}
use envelockserver.Risk.Engine.{
  promote, combinations, services_of, base_of, apply_floor, escalate, assess, FindingResult,
  Combination, RiskAssessment, Float,
}
use envelockserver.Risk.Engine.Tiers.{contains-services_of}

abbrev pub present : List String → Combination → Bool
present services c = subset c.services services

-- Present, and with a floor.
abbrev pub forces : List String → Combination → Bool
forces services c = present services c && is_some c.floor

-- Present, and stepping the tier up by one.
abbrev pub promotes : List String → Combination → Bool
promotes services c = present services c && not (is_some c.floor)

abbrev pub FloorsAreCritical : List Combination → Type 0
FloorsAreCritical = All (λ c. (c.floor ≡ none) ⊎ (c.floor ≡ some critical))

by_rank_step : (tier : AlertTier) (n : ℕ) → promote (promote tier 1) n ≡ promote tier (suc n)
unfolding promote
by_rank_step low n = ground arith
by_rank_step medium n = ground arith
by_rank_step high n = ground arith
by_rank_step critical n = ground arith

promote_zero : (tier : AlertTier) → promote tier 0 ≡ tier
unfolding promote
promote_zero low = refl
promote_zero _ = refl

promote-critical : (n : ℕ) → promote critical n ≡ critical
unfolding promote
promote-critical n = ground arith

floors_critical : FloorsAreCritical combinations
floors_critical = (
  inl refl,
  (
    inl refl,
    (
      inl refl,
      (
        inl refl,
        (
          inl refl,
          (
            inl refl,
            (inl refl, (inr refl, (inr refl, (inr refl, (inr refl, (inr refl, (inr refl, tt))))))),
          ),
        ),
      ),
    ),
  ),
)

-- One round of the loop, against the formula.
step_tier :
    (here : Bool) (c : Combination) (tier : AlertTier) (cs : List Combination) (later : Bool)
    → (c.floor ≡ none) ⊎ (c.floor ≡ some critical)
    → (if later
        then critical
        else promote (if here then apply_floor c.floor tier else tier) (length cs))
      ≡ (if here && is_some c.floor || later
          then critical
          else promote tier (length (if here && not (is_some c.floor) then c ∷ cs else cs)))
unfolding apply_floor
step_tier false c tier cs later h = refl
step_tier true c tier cs later (inl e) = rw (e, apply_floor) (rw (by_rank_step tier (length cs)))
step_tier true c tier cs later (inr e) =
    rw (e, apply_floor) (ground (arith, promote-critical (length cs)))

step_rationale :
    (here : Bool) (rationale : List String) (c : Combination) (cs : List Combination)
    → (if here then rationale ++ (c.explanation ∷ []) else rationale) ++ map (λ x. x.explanation) cs
      ≡ rationale ++ map (λ x. x.explanation) (if here then c ∷ cs else cs)
step_rationale true rationale c cs =
    append_assoc rationale (c.explanation ∷ []) (map (λ x. x.explanation) cs)
step_rationale false rationale c cs = refl

escalate_tier :
    (services : List String) (tier : AlertTier) (rationale : List String) (cs : List Combination)
    → FloorsAreCritical cs
    → (escalate services tier rationale cs).0 ≡ (
        if any (forces services) cs
        then critical
        else promote tier (length (filter (promotes services) cs)))
unfolding escalate apply_floor
escalate_tier services tier rationale [] h = rw (promote_zero tier)
escalate_tier services tier rationale (c ∷ cs) h =
    let here = present services c in
    let ih =
      escalate_tier services (if here then apply_floor c.floor tier else tier)
        (if here then rationale ++ (c.explanation ∷ []) else rationale) cs h.1 in
    ih ∙ step_tier here c tier (filter (promotes services) cs) (any (forces services) cs) h.0

escalate_rationale :
    (services : List String) (tier : AlertTier) (rationale : List String) (cs : List Combination)
    → (escalate services tier rationale cs).1
      ≡ rationale ++ map (λ c. c.explanation) (filter (present services) cs)
unfolding escalate
escalate_rationale services tier rationale [] = sym (append-nil rationale)
escalate_rationale services tier rationale (c ∷ cs) =
    let here = present services c in
    escalate_rationale services (if here then apply_floor c.floor tier else tier)
      (if here then rationale ++ (c.explanation ∷ []) else rationale) cs
    ∙ step_rationale here rationale c (filter (present services) cs)

-- The tier is Critical where a combination with a floor is present; otherwise it is the highest of
-- the findings' tiers, stepped up once for each combination without a floor that is present, and
-- capped at Critical. The rationale lists the explanations of the combinations that are present, in
-- the order of the table, and the services are those of the findings.
pub assess_formula :
    (fl : Float) (f : FindingResult) (fs : List FindingResult) {a : RiskAssessment}
    → assess fl (f ∷ fs) ≡ some a
    → (a.tier ≡ (
        if any (forces a.services) combinations
        then critical
        else promote (base_of f fs).tier (length (filter (promotes a.services) combinations))))
      × (a.rationale ≡ map (λ c. c.explanation) (filter (present a.services) combinations))
      × ((s : String) → contains s a.services ≡ any (λ g. s == g.service) (f ∷ fs))
unfolding assess
assess_formula fl f fs {a} h =
    let services = services_of (f ∷ fs) in
    let base = base_of f fs in
    let e : services ≡ a.services = ground arith in
    let tier : (escalate services base.tier [] combinations).0 ≡ a.tier = ground arith in
    let why : (escalate services base.tier [] combinations).1 ≡ a.rationale = ground arith in
    rw (← e, ← tier, ← why)
      (
        escalate_tier services base.tier [] combinations floors_critical,
        escalate_rationale services base.tier [] combinations,
        λ s. contains-services_of s (f ∷ fs),
      )
