-- ===== src/Billing/Pricing.antt =====
-- src/envelock/billing/pricing.py: the price of a plan, in whole cents. The counts are naturals, as
-- the callers pass them; the two fractions that the source keeps as floats are kept in hundredths,
-- `int(x * rate)` being the whole part
-- of `x * percent / 100`: the floats nearest to 0.05, 0.1 and 0.2 lie just above them, so on prices
-- below 2 ^ 50 the product never falls under a whole number that it should reach. The `breakdown` of a quote is left out.
mod Bands
pub mod Quotes
mod Examples
use Prim.Native.Nat.{min}
use envelockserver.Prelude.{
  ℕ, zero, suc, ◌+◌, ◌-◌, ◌*◌, ◌/◌, String, ◌≡◌, refl, ◌↔◌, true, Option, none, some, List, [], ◌∷◌,
  ltb, leb, nat_beq, if◌then◌else◌, ◌==◌, text_comparable, number_comparable, coded_iff, Comparable,
}
use envelockserver.Core.Enums.{
  source_mechanism_eq, mailbox_class_eq, protection_level_eq, alert_tier_eq, identity_event_kind_eq,
}

pub data Plan : Type 0 where
  guard essential complete solo : Plan

abbrev pub plan_code : Plan → ℕ
plan_code guard = 0
plan_code essential = 1
plan_code complete = 2
plan_code solo = 3

plan_decode : ℕ → Option Plan
plan_decode zero = some guard
plan_decode (suc zero) = some essential
plan_decode (suc (suc zero)) = some complete
plan_decode (suc (suc (suc zero))) = some solo
plan_decode _ = none

plan_back : (a : Plan) → plan_decode (plan_code a) ≡ some a
unfolding plan_decode
plan_back guard = refl
plan_back essential = refl
plan_back complete = refl
plan_back solo = refl

pub plan_iff : (a b : Plan) → (nat_beq (plan_code a) (plan_code b) ≡ true) ↔ (a ≡ b)
plan_iff = coded_iff plan_code plan_decode plan_back

instance abbrev pub plan_eq : Comparable Plan
plan_eq = record { equal = λ a b. nat_beq (plan_code a) (plan_code b); equal_iff = plan_iff }

pub data BillingTerm : Type 0 where
  monthly quarterly semiannual annual : BillingTerm

-- `TERM_DISCOUNT`, in hundredths.
abbrev pub term_discount : BillingTerm → ℕ
term_discount monthly = 0
term_discount quarterly = 5
term_discount semiannual = 10
term_discount annual = 20

abbrev pub platform_cents : Plan → ℕ
platform_cents guard = 0
platform_cents essential = 1500
platform_cents complete = 3000
platform_cents solo = 0

abbrev pub plan_mailbox_seats : Plan → ℕ
plan_mailbox_seats guard = 0
plan_mailbox_seats solo = 1
plan_mailbox_seats essential = 5
plan_mailbox_seats complete = 7

-- `Plan(plan)`
plan_of : String → Option Plan
plan_of name =
    if name == "guard"
    then some guard
    else if name == "essential"
    then some essential
    else if name == "complete"
    then some complete
    else if name == "solo"
    then some solo
    else none

seats_or_none : Option Plan → ℕ
seats_or_none none = 0
seats_or_none (some plan) = plan_mailbox_seats plan

pub included_mailbox_seats : String → ℕ
unfolding plan_of seats_or_none
included_mailbox_seats plan = seats_or_none (plan_of plan)

-- `_BANDS` zipped with the rates of a plan: the inclusive upper bound and the rate.
abbrev pub Band : Type 0
Band = ℕ × ℕ

abbrev bands : ℕ → ℕ → ℕ → ℕ → ℕ → List Band
bands a b c d e = (10, a) ∷ (50, b) ∷ (200, c) ∷ (1000, d) ∷ (1000000000, e) ∷ []

-- `_PROTECTED_RATES`, which the source looks up for Essential and Complete alone.
abbrev pub protected_rates : Plan → List Band
protected_rates essential = bands 200 170 140 100 70
protected_rates complete = bands 350 300 240 175 120
protected_rates _ = []

abbrev pub monitored_rates : List Band
monitored_rates = bands 60 50 40 30 20

-- The loop of `_banded_cost`, over what remains and the bound below. The bounds rise, so the
-- difference is never negative.
banded_loop : ℕ → ℕ → ℕ → List Band → ℕ
banded_loop total remaining lower [] = total
banded_loop total remaining lower ((bound, rate) ∷ bs) =
    let in_band = min remaining (bound - lower) in
    let rest =
      banded_loop (if ltb 0 in_band then total + in_band * rate else total)
        (if ltb 0 in_band then remaining - in_band else remaining) bound bs in
    if remaining == 0 then total else rest

pub banded_cost : ℕ → List Band → ℕ
unfolding banded_loop
banded_cost count rates = banded_loop 0 count 0 rates

pub record Quote : Type 0 where
  pub platform_fee : ℕ
  pub protected_fee : ℕ
  pub monitored_fee : ℕ
  pub subtotal : ℕ
  pub discount : ℕ
  pub total : ℕ

pub quote :
    Plan → BillingTerm → (mail_domains protected_count monitored_count solo_mailboxes : ℕ) → Quote
quote guard term mail_domains protected_count monitored_count solo_mailboxes = record {
  platform_fee = 0;
  protected_fee = 0;
  monitored_fee = 0;
  subtotal = 0;
  discount = 0;
  total = 0;
}
quote solo term mail_domains protected_count monitored_count solo_mailboxes =
    let rate : ℕ = if leb 3 solo_mailboxes then 500 else 600 in
    let subtotal = rate * solo_mailboxes in
    let discount = subtotal * term_discount term / 100 in
    record {
      platform_fee = 0;
      protected_fee = subtotal;
      monitored_fee = 0;
      subtotal = subtotal;
      discount = discount;
      total = subtotal - discount;
    }
quote plan term mail_domains protected_count monitored_count solo_mailboxes =
    let base = platform_cents plan in
    let platform = base + base / 2 * (mail_domains - 1) in
    let protected_cents = banded_cost protected_count (protected_rates plan) in
    let monitored_cents = banded_cost monitored_count monitored_rates in
    let subtotal = platform + protected_cents + monitored_cents in
    let discount = subtotal * term_discount term / 100 in
    record {
      platform_fee = platform;
      protected_fee = protected_cents;
      monitored_fee = monitored_cents;
      subtotal = subtotal;
      discount = discount;
      total = subtotal - discount;
    }
