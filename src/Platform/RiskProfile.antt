-- ===== src/Platform/RiskProfile.antt =====
-- platform/graph.py: `RiskProfile`, the risk of paying a counterparty. A rate is a number of thousandths.
mod Order
use Prim.Native.Nat.{min}
use envelockserver.Prelude.{
  ℕ, zero, suc, ◌+◌, ◌-◌, ◌*◌, ◌/◌, ◌%◌, ◌^◌, ◌≤◌, ◌<◌, String, ◌≡◌, refl, sym, ap, ◌∙◌, fun_ext,
  ◌≢◌, ◌↔◌, ◌⊎◌, inl, inr, Bool, true, false, not, ◌&&◌, ◌||◌, Option, none, some, List, [], ◌∷◌,
  ◌++◌, map, arith, ltb, leb, nat_beq, if◌then◌else◌, ltb→lt, leb→le, nat_beq_iff, is_some,
  Bool-cases, Option-cases, ◌==◌, eq_refl, ne_of_unequal, text_comparable, truthy,
  number_comparable, code-injective, coded_iff, Comparable, All, length, filter, any, all, sum_by,
  any_imp, length-append, length-filter-le, all-filter, all_in-filter, All-append, contains, subset,
  contains-append, contains-filter, any_witness, any_intro, any_mono,
}
use envelockserver.Core.Enums.{AlertTier, low, medium, high, critical}
use envelockserver.Platform.Graph.{Verdict, fraudulent, suspicious, verdict_eq}

pub record RiskProfile : Type 0 where
  pub message_count : ℕ
  pub verified_phone : Option String
  pub auth_pass_rate : ℕ
  pub incidents : ℕ
  pub graph_verdict : Option Verdict
  pub domain_age_days : Option ℕ

-- What a judgement other than a fraudulent one adds.
pub verdict_points : Option Verdict → ℕ
verdict_points none = 0
verdict_points (some v) = if v == suspicious then 40 else 0

pub is_fraudulent : Option Verdict → Bool
is_fraudulent none = false
is_fraudulent (some v) = v == fraudulent

pub is_young : Option ℕ → Bool
is_young none = false
is_young (some days) = ltb days 90

pub score : RiskProfile → ℕ
unfolding verdict_points is_fraudulent is_young
score p =
    let points =
      verdict_points p.graph_verdict
      + (if is_some p.verified_phone then 0 else 20)
      + (if is_young p.domain_age_days then 20 else 0)
      + (if ltb p.auth_pass_rate 900 then 15 else 0)
      + (if ltb p.message_count 5 then 10 else 0)
      + min (p.incidents * 10) 30 in
    if is_fraudulent p.graph_verdict then 100 else min points 100

tier_of : ℕ → AlertTier
tier_of s =
    if leb 80 s then critical else if leb 50 s then high else if leb 25 s then medium else low

pub tier : RiskProfile → AlertTier
unfolding tier_of
tier p = tier_of (score p)

pub advice : RiskProfile → String
advice p =
    if leb 80 (score p)
    then "Do not pay. Verify by phone using a number you already hold."
    else if leb 50 (score p)
    then "Confirm bank details by phone before any payment."
    else if not (is_some p.verified_phone)
    then "Add a verified phone number so payment changes can be checked."
    else "No elevated risk. Normal verification applies."
