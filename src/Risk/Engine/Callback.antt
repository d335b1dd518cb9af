-- ===== src/Risk/Engine/Callback.antt =====
-- When an assessment asks for a call to a number that is already held.
use envelockserver.Prelude.{
  String, ◌≡◌, refl, Bool, true, ◌&&◌, ◌||◌, some, List, [], ◌∷◌, arith, ◌==◌, number_comparable,
  text_comparable, any, contains,
}
use envelockserver.Core.Enums.{
  source_mechanism_eq, mailbox_class_eq, protection_level_eq, alert_tier_iff, alert_tier_eq,
  identity_event_kind_eq, critical,
}
use envelockserver.Risk.Engine.{
  combinations, callback_of, assess, FindingResult, RiskAssessment, Float,
}
use envelockserver.Risk.Engine.Combinations.{forces, assess_formula}

-- A signal that the sender deceives: a homoglyph, a lookalike, a spoofed name, a redirected reply or
-- a listed sender.
abbrev pub deceives : List String → Bool
deceives services =
    contains "A4" services
    || contains "A3" services
    || contains "A5" services
    || contains "A6" services
    || contains "B7" services

deceives-forces :
    (services : List String)
    → contains "A2" services ≡ true
    → deceives services ≡ true
    → any (forces services) combinations ≡ true
deceives-forces services new sign = ground arith

pub callback_of-any :
    (fs : List FindingResult) → (callback_of fs).0 ≡ any (λ g. "A1" == g.service) fs
unfolding callback_of
callback_of-any [] = refl
callback_of-any (f ∷ fs) = ground (
  arith,
  text_comparable.equal_iff f.service "A1",
  text_comparable.equal_iff "A1" f.service,
  callback_of-any fs,
)

-- Payment instructions from an unverified payee together with any sign of deception are Critical
-- and ask for a callback; so does every change of payment details (A1), whatever else is found.
pub assess_callback :
    (fl : Float) (fs : List FindingResult) {a : RiskAssessment}
    → assess fl fs ≡ some a
    → (contains "A2" a.services ≡ true
        → deceives a.services ≡ true
        → (a.tier ≡ critical) × (a.requires_callback ≡ true))
      × (contains "A1" a.services ≡ true → a.requires_callback ≡ true)
unfolding assess
assess_callback fl [] h = cc
assess_callback fl (f ∷ fs) {a} h =
    let (tier, why, services) = assess_formula fl f fs h in
    let need : ((callback_of (f ∷ fs)).0 || a.tier == critical && contains "A2" a.services)
        ≡ a.requires_callback =
      ground arith in
    (
      λ new sign.
          let top : a.tier ≡ critical = rw (deceives-forces a.services new sign) at tier in
          (top, ground (arith, alert_tier_iff a.tier critical)),
      λ changed. ground (arith, callback_of-any (f ∷ fs), services "A1"),
    )
