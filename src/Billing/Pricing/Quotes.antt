-- ===== src/Billing/Pricing/Quotes.antt =====
-- What holds of every quote.
use envelockserver.Prelude.{
  ℕ, ◌+◌, ◌-◌, ◌*◌, ◌/◌, ◌≤◌, ◌≡◌, refl, ap, List, arith, leb, if◌then◌else◌, text_comparable,
  number_comparable,
}
use envelockserver.Billing.Pricing.{
  plan_eq, term_discount, Band, protected_rates, monitored_rates, banded_cost, quote, Plan, guard,
  essential, complete, solo, BillingTerm, monthly, quarterly, semiannual, annual,
}
use envelockserver.Billing.Pricing.Bands.{rates_from, IsRising, rates_from_split, banded_cost-rates}

pub rising : (plan : Plan) → IsRising 0 (protected_rates plan) × IsRising 0 monitored_rates
rising guard = omega arith
rising _ = omega arith

-- The length of a term in months.
abbrev pub months : BillingTerm → ℕ
months monthly = 1
months quarterly = 3
months semiannual = 6
months annual = 12

discount_mono : (s t : BillingTerm) → months s ≤ months t → term_discount s ≤ term_discount t
discount_mono monthly t h = omega arith
discount_mono quarterly t h = ground arith
discount_mono semiannual t h = ground arith
discount_mono annual t h = ground arith

-- After a discount of at most a fifth.
abbrev net : ℕ → BillingTerm → ℕ
net subtotal term = subtotal - subtotal * term_discount term / 100

net_mono : (a b : ℕ) (term : BillingTerm) → a ≤ b → net a term ≤ net b term
net_mono a b monthly h = omega arith
net_mono a b quarterly h = omega arith
net_mono a b semiannual h = omega arith
net_mono a b annual h = omega arith

net_term : (a : ℕ) (s t : BillingTerm) → months s ≤ months t → net a t ≤ net a s
net_term a monthly t h = omega arith
net_term a quarterly monthly h = absurd (omega arith)
net_term a quarterly quarterly h = omega arith
net_term a quarterly semiannual h = omega arith
net_term a quarterly annual h = omega arith
net_term a semiannual monthly h = absurd (omega arith)
net_term a semiannual quarterly h = absurd (omega arith)
net_term a semiannual semiannual h = omega arith
net_term a semiannual annual h = omega arith
net_term a annual monthly h = absurd (omega arith)
net_term a annual quarterly h = absurd (omega arith)
net_term a annual semiannual h = absurd (omega arith)
net_term a annual annual h = omega arith

split : (a : ℕ) (term : BillingTerm) → a * term_discount term / 100 + net a term ≡ a
split a monthly = omega arith
split a quarterly = omega arith
split a semiannual = omega arith
split a annual = omega arith

fifth : (a : ℕ) (term : BillingTerm) → 5 * (a * term_discount term / 100) ≤ a
fifth a monthly = omega arith
fifth a quarterly = omega arith
fifth a semiannual = omega arith
fifth a annual = omega arith

-- Every quote adds up: the fees make the subtotal, the discount and the total make the subtotal, and
-- the discount is at most a fifth of it.
pub quote_adds_up :
    (plan : Plan) (term : BillingTerm) (domains p m solo_mailboxes : ℕ)
    → let q = quote plan term domains p m solo_mailboxes in
      (q.platform_fee + q.protected_fee + q.monitored_fee ≡ q.subtotal)
      × (q.discount + q.total ≡ q.subtotal)
      × (5 * q.discount ≤ q.subtotal)
unfolding quote
quote_adds_up guard term domains p m n = omega arith
quote_adds_up solo term domains p m n =
    let rate : ℕ = if leb 3 n then 500 else 600 in
    (omega arith, split (rate * n) term, fifth (rate * n) term)
quote_adds_up essential term domains p m n = (refl, split _ term, fifth _ term)
quote_adds_up complete term domains p m n = (refl, split _ term, fifth _ term)

banded_cost_mono :
    (a b : ℕ) (bs : List Band) → IsRising 0 bs → a ≤ b → banded_cost a bs ≤ banded_cost b bs
banded_cost_mono a b bs rises h =
    let parts : b ≡ a + (b - a) = omega arith in
    let more : rates_from 0 b bs ≡ rates_from 0 (a + (b - a)) bs =
      ap (λ n. rates_from 0 n bs) parts in
    omega (
      arith,
      more,
      rates_from_split 0 a (b - a) bs,
      banded_cost-rates a bs rises,
      banded_cost-rates b bs rises,
    )

solo_mono :
    (a b : ℕ) → a ≤ b → (if leb 3 a then 500 else 600) * a ≤ (if leb 3 b then 500 else 600) * b
solo_mono a b h = ground arith

-- More never costs less: with no fewer domains and mailboxes of each kind the total of a plan is no
-- lower; and a longer term never raises the total of the same order.
pub quote_mono :
    (plan : Plan) (term longer : BillingTerm) (d d' p p' m m' n n' : ℕ)
    → d ≤ d'
    → p ≤ p'
    → m ≤ m'
    → n ≤ n'
    → ((quote plan term d p m n).total ≤ (quote plan term d' p' m' n').total)
      × (months term ≤ months longer
          → (quote plan longer d p m n).total ≤ (quote plan term d p m n).total)
unfolding quote
quote_mono guard term longer d d' p p' m m' n n' hd hp hm hn = (omega arith, λ h. omega arith)
quote_mono solo term longer d d' p p' m m' n n' hd hp hm hn =
    (net_mono _ _ term (solo_mono n n' hn), net_term _ term longer)
quote_mono essential term longer d d' p p' m m' n n' hd hp hm hn = (
  net_mono _ _ term (
      omega (
        arith,
        banded_cost_mono p p' (protected_rates essential) (rising essential).0 hp,
        banded_cost_mono m m' monitored_rates (rising essential).1 hm,
      )),
  net_term _ term longer,
)
quote_mono complete term longer d d' p p' m m' n n' hd hp hm hn = (
  net_mono _ _ term (
      omega (
        arith,
        banded_cost_mono p p' (protected_rates complete) (rising complete).0 hp,
        banded_cost_mono m m' monitored_rates (rising complete).1 hm,
      )),
  net_term _ term longer,
)
