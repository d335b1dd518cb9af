-- ===== src/Risk/Engine.antt =====
-- src/envelock/risk/engine.py: findings of one message become one assessment. A service name is a
-- text. The set of services is a list without repetition, sorted as `tuple(sorted(services))`
-- sorts it. Of a finding's evidence only `callback_phone` is read here, so `evidence` keeps the
-- entries whose value is a text. The aggregate of the scores is a Python float: its arithmetic is
-- the parameter `Float` of `aggregate` and `assess`.
pub mod Tiers
mod Combinations
mod Callback
pub mod Score
mod Examples
use Prim.Native.Nat.{min, Ordering}
use Prim.Native.String.{◌++◌ as join_text, compare as compare_text}
use envelockserver.Prelude.{
  ℕ, zero, suc, ◌+◌, ◌<◌, ◌^◌, String, Bool, true, false, not, ◌&&◌, ◌||◌, ◌≡◌, ◌≤◌, Option, none,
  some, List, [], ◌∷◌, ◌++◌, map, filter, contains, subset, ◌==◌, text_comparable,
  number_comparable, ltb, leb, if◌then◌else◌,
}
use envelockserver.Prelude.Dict.{Dict, lookup}
use envelockserver.Core.Enums.{AlertTier, low, medium, high, critical, alert_tier_eq}

-- detections/base.py
pub record FindingResult : Type 0 where
  pub service : String
  pub tier : AlertTier
  pub score : ℕ
  pub summary : String
  pub evidence : Dict String String

-- `_ORDER` and `_BY_RANK`; the callers cap the rank at 3.
abbrev pub order : AlertTier → ℕ
order low = 0
order medium = 1
order high = 2
order critical = 3

abbrev pub by_rank : ℕ → AlertTier
by_rank zero = low
by_rank (suc zero) = medium
by_rank (suc (suc zero)) = high
by_rank _ = critical

unfoldable pub promote : AlertTier → ℕ → AlertTier
promote tier steps = by_rank (min 3 (order tier + steps))

pub record Combination : Type 0 where
  pub services : List String
  pub explanation : String
  pub floor : Option AlertTier

abbrev combine : List String → String → Option AlertTier → Combination
combine services explanation floor = record {
  services = services;
  explanation = explanation;
  floor = floor;
}

abbrev pub combinations : List Combination
combinations =
    combine ("A7" ∷ "A1" ∷ [])
      "First-ever contact from this domain, and it changes payment details." none
    ∷ combine ("A3" ∷ "A1" ∷ []) "A lookalike domain is requesting a payment-detail change." none
    ∷ combine ("A6" ∷ "A1" ∷ [])
        "Payment details changed and replies would be redirected elsewhere." none
    ∷ combine ("A10" ∷ "A1" ∷ [])
        "Sending infrastructure changed and payment details changed with it." none
    ∷ combine ("A8" ∷ "A1" ∷ []) "Thread hijacking combined with a payment-detail change." none
    ∷ combine ("A14" ∷ "A1" ∷ []) "Payment-detail change delivered with urgency pressure." none
    ∷ combine ("C1" ∷ "C11" ∷ []) "External forwarding rule alongside unexplained mailbox access."
        none
    ∷ combine ("A2" ∷ "A4" ∷ [])
        "Payment instructions from an unverified payee on a homoglyph domain." (some critical)
    ∷ combine ("A2" ∷ "A3" ∷ [])
        "Payment instructions from an unverified payee on a lookalike domain." (some critical)
    ∷ combine ("A2" ∷ "A5" ∷ [])
        "Payment instructions from an unverified payee spoofing a known display name."
        (some critical)
    ∷ combine ("A2" ∷ "A6" ∷ [])
        "Payment instructions from an unverified payee, with replies redirected elsewhere."
        (some critical)
    ∷ combine ("A2" ∷ "B7" ∷ []) "Payment instructions from a sender on a public blocklist."
        (some critical)
    ∷ combine ("A2" ∷ "A7" ∷ "A14" ∷ [])
        "First-ever contact, urgent, sending payment instructions to a new payee — verify by phone before paying."
        (some critical)
    ∷ []

pub record RiskAssessment : Type 0 where
  pub tier : AlertTier
  pub score : ℕ
  pub title : String
  pub body : String
  pub services : List String
  pub requires_callback : Bool
  pub callback_phone : Option String
  pub rationale : List String

pub is_alertable : RiskAssessment → Bool
is_alertable a = not (a.tier == low)

pub insert_service : String → List String → List String
insert_service s [] = s ∷ []
insert_service s (t ∷ ts) = elim (compare_text s t) [
  | Ordering.lt ↦ s ∷ t ∷ ts
  | Ordering.eq ↦ t ∷ ts
  | Ordering.gt ↦ t ∷ insert_service s ts
]

-- `{f.service for f in findings}`
pub services_of : List FindingResult → List String
unfolding insert_service
services_of [] = []
services_of (f ∷ fs) = insert_service f.service (services_of fs)

-- `max(findings, key=lambda f: (_ORDER[f.tier], f.score))` keeps the first of equals.
outranks : FindingResult → FindingResult → Bool
outranks f g =
    if ltb (order g.tier) (order f.tier)
    then true
    else order f.tier == order g.tier && ltb g.score f.score

pub base_of : FindingResult → List FindingResult → FindingResult
unfolding outranks
base_of best [] = best
base_of best (f ∷ fs) = base_of (if outranks f best then f else best) fs

pub apply_floor : Option AlertTier → AlertTier → AlertTier
apply_floor none tier = promote tier 1
apply_floor (some floor) tier = if ltb (order tier) (order floor) then floor else tier

-- The loop over `_COMBINATIONS`, with its two variables.
pub escalate : List String → AlertTier → List String → List Combination → AlertTier × List String
escalate services tier rationale [] = (tier, rationale)
escalate services tier rationale (c ∷ cs) =
    let present = subset c.services services in
    escalate services (if present then apply_floor c.floor tier else tier)
      (if present then rationale ++ (c.explanation ∷ []) else rationale) cs

-- `sorted(..., reverse=True)`
insert_score : ℕ → List ℕ → List ℕ
insert_score s [] = s ∷ []
insert_score s (t ∷ ts) = if leb t s then s ∷ t ∷ ts else t ∷ insert_score s ts

pub sorted_scores : List FindingResult → List ℕ
unfolding insert_score
sorted_scores [] = []
sorted_scores (f ∷ fs) = insert_score f.score (sorted_scores fs)

-- What the program uses of floats, and the facts about small whole numbers that it relies on.
pub record Float : Type 1 where
  pub Value : Type 0
  pub nothing : Value
  pub quotient : ℕ → ℕ → Value
  pub plus : Value → Value → Value
  pub int : Value → ℕ
  pub int-quotient_one : (s : ℕ) → s < 2 ^ 53 → int (plus nothing (quotient s 1)) ≡ s
  pub int-plus-le : (x : Value) (s k : ℕ) → int x ≤ int (plus x (quotient s k))

module _ (fl : Float) where
  -- `sum(s / (i + 1) for i, s in enumerate(ordered))`
  pub weighted : fl.Value → ℕ → List ℕ → fl.Value
  weighted acc i [] = acc
  weighted acc i (s ∷ ss) = weighted (fl.plus acc (fl.quotient s (i + 1))) (i + 1) ss

  pub aggregate : List FindingResult → ℕ
  aggregate findings = min 100 (fl.int (weighted fl.nothing 0 (sorted_scores findings)))

-- The loop that stops at the first A1 finding.
pub callback_of : List FindingResult → Bool × Option String
callback_of [] = (false, none)
callback_of (f ∷ fs) =
    if f.service == "A1" then (true, lookup "callback_phone" f.evidence) else callback_of fs

join_lines : List String → String
join_lines [] = ""
join_lines (l ∷ []) = l
join_lines (l ∷ ls) = join_text l (join_text "\n" (join_lines ls))

pub body_lines : FindingResult → List FindingResult → List String → List String
body_lines base findings rationale =
    map (λ f. f.summary) (filter (λ f. not (f.summary == base.summary)) findings) ++ rationale

pub assess : Float → List FindingResult → Option RiskAssessment
unfolding join_lines
assess fl [] = none
assess fl (f ∷ fs) =
    let findings = f ∷ fs in
    let services = services_of findings in
    let base = base_of f fs in
    let (tier, rationale) = escalate services base.tier [] combinations in
    let (has_a1, phone) = callback_of findings in
    some (record {
      tier = tier;
      score = aggregate fl findings;
      title = base.summary;
      body = join_lines (body_lines base findings rationale);
      services = services;
      requires_callback = has_a1 || tier == critical && contains "A2" services;
      callback_phone = phone;
      rationale = rationale;
    })
