-- ===== src/Risk/Engine/Examples.antt =====
-- Runs of `assess`, and its theorems at concrete findings.
use envelockserver.Prelude.{
  ℕ, ◌+◌, ◌/◌, ◌≤◌, String, ◌≡◌, refl, true, none, some, List, [], ◌∷◌, map, arith, if◌then◌else◌,
  ◌==◌, number_comparable, text_comparable, All, length, filter, any, contains,
}
use envelockserver.Core.Enums.{
  source_mechanism_eq, mailbox_class_eq, protection_level_eq, alert_tier_eq, identity_event_kind_eq,
  AlertTier, low, medium, high, critical,
}
use envelockserver.Risk.Engine.{
  order, promote, combinations, services_of, base_of, apply_floor, escalate, sorted_scores,
  weighted, aggregate, callback_of, body_lines, assess, FindingResult, RiskAssessment, Float,
}
use envelockserver.Risk.Engine.Tiers.{assess_tier_ge}
use envelockserver.Risk.Engine.Combinations.{present, forces, promotes, assess_formula}
use envelockserver.Risk.Engine.Callback.{deceives, assess_callback}

-- Whole-number division stands in for the floats.
abbrev whole : Float
whole = record {
  Value = ℕ;
  nothing = 0;
  quotient = λ s k. s / k;
  plus = λ x y. x + y;
  int = λ x. x;
  int-quotient_one = λ s h. omega arith;
  int-plus-le = λ x s k. omega arith;
}

abbrev finding : String → AlertTier → ℕ → String → FindingResult
finding service tier score summary = record {
  service = service;
  tier = tier;
  score = score;
  summary = summary;
  evidence = [];
}

-- First contact with payment instructions from a lookalike domain.
abbrev new_vendor : List FindingResult
new_vendor =
    finding "A7" low 15 "First contact."
    ∷ finding "A2" medium 45 "New payee."
    ∷ finding "A3" high 70 "Lookalike domain."
    ∷ []

abbrev result : RiskAssessment
result = record {
  tier = critical;
  score = 97;
  title = "Lookalike domain.";
  body =
      "First contact.\nNew payee.\nPayment instructions from an unverified payee on a lookalike domain.";
  services = "A2" ∷ "A3" ∷ "A7" ∷ [];
  requires_callback = true;
  callback_phone = none;
  rationale = "Payment instructions from an unverified payee on a lookalike domain." ∷ [];
}

assess-new_vendor : assess whole new_vendor ≡ some result
unfolding assess services_of base_of escalate apply_floor aggregate weighted sorted_scores
    callback_of body_lines
assess-new_vendor = refl

tier_ge_example : All (λ f. order f.tier ≤ order critical) new_vendor
tier_ge_example = assess_tier_ge whole new_vendor assess-new_vendor

formula_example :
    (critical ≡ (
      if any (forces result.services) combinations
      then critical
      else promote
          (base_of (finding "A7" low 15 "First contact.") (
            finding "A2" medium 45 "New payee."
            ∷ finding "A3" high 70 "Lookalike domain."
            ∷ [])).tier
          (length (filter (promotes result.services) combinations))))
    × (result.rationale ≡ map (λ c. c.explanation) (filter (present result.services) combinations))
    × ((s : String) → contains s result.services ≡ any (λ g. s == g.service) new_vendor)
formula_example =
    assess_formula whole (finding "A7" low 15 "First contact.")
      (finding "A2" medium 45 "New payee." ∷ finding "A3" high 70 "Lookalike domain." ∷ [])
      assess-new_vendor

callback_example :
    (contains "A2" result.services ≡ true
      → deceives result.services ≡ true
      → (result.tier ≡ critical) × (result.requires_callback ≡ true))
    × (contains "A1" result.services ≡ true → result.requires_callback ≡ true)
callback_example = assess_callback whole new_vendor assess-new_vendor
