-- ===== src/Platform/RiskProfile/Order.antt =====
-- The risk follows what speaks against the counterparty.
use Prim.Native.Nat.{min}
use envelockserver.Prelude.{
  ℕ, ◌≤◌, ◌≡◌, Bool, true, not, ◌||◌, arith, ltb, if◌then◌else◌, is_some, text_comparable,
  number_comparable,
}
use envelockserver.Core.Enums.{
  source_mechanism_eq, mailbox_class_eq, protection_level_eq, alert_tier_eq, identity_event_kind_eq,
}
use envelockserver.Risk.Engine.{order}
use envelockserver.Platform.RiskProfile.{
  is_young, verdict_points, is_fraudulent, tier_of, score, tier, RiskProfile,
}

order-tier_of-le : (s t : ℕ) → s ≤ t → order (tier_of s) ≤ order (tier_of t)
unfolding tier_of
order-tier_of-le s t le = ground arith

-- `q` has no less against it than `p` in any respect.
pub record IsRiskier (p q : RiskProfile) : Type 0 where
  pub fraud : (not (is_fraudulent p.graph_verdict) || is_fraudulent q.graph_verdict) ≡ true
  pub points : verdict_points p.graph_verdict ≤ verdict_points q.graph_verdict
  pub phone : (not (is_some q.verified_phone) || is_some p.verified_phone) ≡ true
  pub age : (not (is_young p.domain_age_days) || is_young q.domain_age_days) ≡ true
  pub rate : q.auth_pass_rate ≤ p.auth_pass_rate
  pub count : q.message_count ≤ p.message_count
  pub incidents : p.incidents ≤ q.incidents

if_mono : (a b : Bool) (n : ℕ) → (not a || b) ≡ true → (if a then n else 0) ≤ (if b then n else 0)
if_mono a b n h = ground arith

unless_mono :
    (a b : Bool) (n : ℕ) → (not b || a) ≡ true → (if a then 0 else n) ≤ (if b then 0 else n)
unless_mono a b n h = ground arith

below_mono :
    (a b limit n : ℕ) → b ≤ a → (if ltb a limit then n else 0) ≤ (if ltb b limit then n else 0)
below_mono a b limit n h = ground arith

capped_mono :
    (a b : Bool) (m n : ℕ)
    → (not a || b) ≡ true
    → m ≤ n
    → (if a then 100 else min m 100) ≤ (if b then 100 else min n 100)
capped_mono a b m n h le = ground arith

score_mono : (p q : RiskProfile) → IsRiskier p q → score p ≤ score q
unfolding score
score_mono p q h =
    capped_mono (is_fraudulent p.graph_verdict) (is_fraudulent q.graph_verdict) _ _ h.fraud (
      omega (
        arith,
        h.points,
        unless_mono (is_some p.verified_phone) (is_some q.verified_phone) 20 h.phone,
        if_mono (is_young p.domain_age_days) (is_young q.domain_age_days) 20 h.age,
        below_mono p.auth_pass_rate q.auth_pass_rate 900 15 h.rate,
        below_mono p.message_count q.message_count 5 10 h.count,
        h.incidents,
      ))

-- A counterparty that has no less against it in any respect is in no lower tier.
pub tier_mono : (p q : RiskProfile) → IsRiskier p q → order (tier p) ≤ order (tier q)
unfolding tier
tier_mono p q h = order-tier_of-le (score p) (score q) (score_mono p q h)
