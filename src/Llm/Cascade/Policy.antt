-- ===== src/Llm/Cascade/Policy.antt =====
-- The judge confirms or escalates, and never lowers.
use envelockserver.Prelude.{
  ◌+◌, String, ◌≡◌, refl, ◌≢◌, ◌⊎◌, inl, inr, true, not, ◌&&◌, ◌||◌, Option, none, some, List,
  arith, leb, Bool-cases, ◌==◌, text_comparable, number_comparable,
}
use envelockserver.Core.Enums.{
  source_mechanism_eq, mailbox_class_eq, protection_level_eq, alert_tier_eq, identity_event_kind_eq,
  AlertTier, low, medium, high, critical,
}
use envelockserver.Risk.Engine.{order, promote, RiskAssessment}
use envelockserver.Llm.Cascade.{
  judged, request, noted, answered, unrefined, escalated, should_escalate, LlmJudge, find_usage,
  at_cap, apply, refine, LlmVerdict, LlmUsage, JudgedMail, LlmSettings,
}

-- `b` is `a`, or `a` one tier higher: a refinement loses no service, no score and no callback, and a
-- promotion to critical asks for the callback.
pub record IsRefined (a b : RiskAssessment) : Type 0 where
  pub tier : (b.tier ≡ a.tier) ⊎ (order b.tier ≡ order a.tier + 1)
  pub same_services : b.services ≡ a.services
  pub same_score : b.score ≡ a.score
  pub same_phone : b.callback_phone ≡ a.callback_phone
  pub callback : (not a.requires_callback || b.requires_callback) ≡ true
  pub promoted : (a.tier == critical || not (b.tier == critical) || b.requires_callback) ≡ true

order-promote_one : (t : AlertTier) → t ≢ critical → order (promote t 1) ≡ order t + 1
unfolding promote
order-promote_one low below = refl
order-promote_one medium below = refl
order-promote_one high below = refl
order-promote_one critical below = elim (below refl) [ ]

escalated-IsRefined :
    (verdict : LlmVerdict) (a : RiskAssessment)
    → a.tier ≢ critical
    → IsRefined a (escalated verdict a)
unfolding escalated
escalated-IsRefined verdict a below = record {
  tier = inr (order-promote_one a.tier below);
  same_services = refl;
  same_score = refl;
  same_phone = refl;
  callback = ground arith;
  promoted = ground arith;
}

noted-IsRefined : (verdict : LlmVerdict) (a : RiskAssessment) → IsRefined a (noted verdict a)
unfolding noted
noted-IsRefined verdict a = record {
  tier = inl refl;
  same_services = refl;
  same_score = refl;
  same_phone = refl;
  callback = ground arith;
  promoted = ground arith;
}

kept-IsRefined : (a : RiskAssessment) → IsRefined a a
kept-IsRefined a = record {
  tier = inl refl;
  same_services = refl;
  same_score = refl;
  same_phone = refl;
  callback = ground arith;
  promoted = ground arith;
}

apply-IsRefined :
    (settings : LlmSettings) (verdict : LlmVerdict) (a : RiskAssessment)
    → IsRefined a (apply settings verdict a)
unfolding apply
apply-IsRefined settings verdict a =
    elim (Bool-cases (
      verdict.escalate
      && leb settings.min_confidence verdict.confidence
      && not (a.tier == critical))) [
        | inl up ↦ rw up (
            escalated-IsRefined verdict a (ground (arith, alert_tier_eq.equal_iff a.tier critical)))
        | inr stay ↦ elim (Bool-cases (not (verdict.rationale == ""))) [
          | inl words ↦ rw (stay, words) (noted-IsRefined verdict a)
          | inr silent ↦ rw (stay, silent) (kept-IsRefined a)
        ]
      ]

-- What `refine` may do to an assessment, when there is one.
abbrev pub AllRefined : Option RiskAssessment → Option RiskAssessment → Type 0
AllRefined none none = Unit
AllRefined (some a) (some b) = IsRefined a b
AllRefined _ _ = ⊥

kept-AllRefined : (o : Option RiskAssessment) → AllRefined o o
kept-AllRefined none = tt
kept-AllRefined (some a) = kept-IsRefined a

answered-AllRefined :
    (settings : LlmSettings) (event : JudgedMail) (period : String) (o : Option RiskAssessment)
    (rows : List LlmUsage) (answer : Option LlmVerdict)
    → AllRefined o (answered settings event period o rows answer).assessment
unfolding answered unrefined judged
answered-AllRefined settings event period o rows none = kept-AllRefined o
answered-AllRefined settings event period none rows (some verdict) = tt
answered-AllRefined settings event period (some a) rows (some verdict) =
    apply-IsRefined settings verdict a

-- Whatever the judge answers, an assessment comes out at its tier or at the next one, with the same
-- services, score and callback phone, with every callback it asked for, and with a callback when the judge
-- has made it critical; where there is no assessment none appears.
pub refine-AllRefined :
    (settings : LlmSettings) (judge : Option LlmJudge) (period : String) (event : Option JudgedMail)
    (o : Option RiskAssessment) (rows : List LlmUsage)
    → AllRefined o (refine settings judge period event o rows).assessment
unfolding refine unrefined
refine-AllRefined settings judge period none o rows = kept-AllRefined o
refine-AllRefined settings none period (some event) o rows = kept-AllRefined o
refine-AllRefined settings (some judge) period (some event) o rows =
    elim (Bool-cases
      (should_escalate o && not (at_cap settings (find_usage event.mailbox_id period rows)))) [
        | inl ask ↦
            rw ask (answered-AllRefined settings event period o rows (judge (request event o)))
        | inr skip ↦ rw skip (kept-AllRefined o)
      ]
