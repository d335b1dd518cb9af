-- ===== src/Billing/Pricing/Bands.antt =====
-- Marginal banding against its specification: the price of each mailbox by its position.
use Prim.Native.Nat.{min}
use native.Mathlib.Nat.{add-zero, zero-add, suc-add, add-suc}
use envelockserver.Prelude.{
  ℕ, zero, suc, ◌+◌, ◌-◌, ◌*◌, ◌≤◌, ◌≡◌, refl, ap, ◌∙◌, inl, inr, List, [], ◌∷◌, arith, ltb, leb,
  if◌then◌else◌, leb→le, Bool-cases, text_comparable, number_comparable,
}
use envelockserver.Billing.Pricing.{banded_loop, plan_eq, Band, banded_cost}

-- The rate of the mailbox after the first `n`: that of the first band whose bound is above `n`.
abbrev pub rate_at : ℕ → List Band → ℕ
rate_at n [] = 0
rate_at n ((bound, rate) ∷ bs) = if ltb n bound then rate else rate_at n bs

-- The rates of `count` mailboxes from position `start` on, added up.
pub rates_from : ℕ → ℕ → List Band → ℕ
rates_from start zero bs = 0
rates_from start (suc count) bs = rate_at start bs + rates_from (suc start) count bs

-- The bounds rise, from `lower` on.
abbrev pub IsRising : ℕ → List Band → Type 0
IsRising lower [] = Unit
IsRising lower ((bound, rate) ∷ bs) = (lower ≤ bound) × IsRising bound bs

pub rates_from_split :
    (start m n : ℕ) (bs : List Band)
    → rates_from start (m + n) bs ≡ rates_from start m bs + rates_from (start + m) n bs
unfolding rates_from
rates_from_split start zero n bs = rw (zero-add n, add-zero start) (omega arith)
rates_from_split start (suc m) n bs =
    rw (suc-add, add-suc, ← suc-add) (omega (arith, rates_from_split (suc start) m n bs))

within_band :
    (start k bound rate : ℕ) (bs : List Band)
    → start + k ≤ bound
    → rates_from start k ((bound, rate) ∷ bs) ≡ k * rate
unfolding rates_from
within_band start zero bound rate bs h = omega arith
within_band start (suc k) bound rate bs h =
    ground (arith, within_band (suc start) k bound rate bs (omega arith))

past_band :
    (start n bound rate : ℕ) (bs : List Band)
    → bound ≤ start
    → rates_from start n ((bound, rate) ∷ bs) ≡ rates_from start n bs
unfolding rates_from
past_band start zero bound rate bs h = refl
past_band start (suc n) bound rate bs h =
    ground (arith, past_band (suc start) n bound rate bs (omega arith))

no_bands : (start n : ℕ) → rates_from start n [] ≡ 0
unfolding rates_from
no_bands start zero = refl
no_bands start (suc n) = omega (arith, no_bands (suc start) n)

rates_zero : (start n : ℕ) (bs : List Band) → n ≡ 0 → rates_from start n bs ≡ 0
unfolding rates_from
rates_zero start zero bs h = refl
rates_zero start (suc n) bs h = absurd (omega arith)

same_rest :
    (n k bound : ℕ) (bs : List Band)
    → rates_from bound (if ltb 0 k then n - k else n) bs ≡ rates_from bound (n - k) bs
same_rest n zero bound bs = let e : n - 0 ≡ n = omega arith in rw e
same_rest n (suc k) bound bs = ground arith

-- One band, with some of the mailboxes in it and the rest above it.
one_band :
    (lower n bound rate : ℕ) (bs : List Band)
    → lower ≤ bound
    → let k = min n (bound - lower) in
      rates_from lower n ((bound, rate) ∷ bs) ≡ k * rate + rates_from bound (n - k) bs
one_band lower n bound rate bs h = elim (Bool-cases (leb n (bound - lower))) [
  | inl inside ↦
      let fits : n ≤ bound - lower = leb→le _ _ inside in
      let k : min n (bound - lower) ≡ n = omega arith in
      let rest : n - n ≡ 0 = omega arith in
      rw (k, rest)
        (omega (arith, within_band lower n bound rate bs (omega arith), rates_zero bound 0 bs refl))
  | inr across ↦
      let width = bound - lower in
      let k : min n width ≡ width = ground arith in
      let parts : n ≡ width + (n - width) = ground arith in
      let edge : lower + width ≡ bound = omega arith in
      let above : rates_from (lower + width) (n - width) ((bound, rate) ∷ bs)
          ≡ rates_from bound (n - width) bs =
        rw edge (past_band bound (n - width) bound rate bs (omega arith)) in
      let whole : rates_from lower n ((bound, rate) ∷ bs)
          ≡ rates_from lower (width + (n - width)) ((bound, rate) ∷ bs) =
        ap (λ t. rates_from lower t ((bound, rate) ∷ bs)) parts in
      rw k (
        omega (
          arith,
          whole,
          rates_from_split lower width (n - width) ((bound, rate) ∷ bs),
          within_band lower width bound rate bs (omega arith),
          above,
        ))
]

banded_loop-rates :
    (total n lower : ℕ) (bs : List Band)
    → IsRising lower bs
    → banded_loop total n lower bs ≡ total + rates_from lower n bs
unfolding banded_loop
banded_loop-rates total n lower [] h = omega (arith, no_bands lower n)
banded_loop-rates total n lower ((bound, rate) ∷ bs) h =
    let k = min n (bound - lower) in
    ground (
      arith,
      rates_zero lower n ((bound, rate) ∷ bs),
      one_band lower n bound rate bs h.0,
      banded_loop-rates (if ltb 0 k then total + k * rate else total) (if ltb 0 k then n - k else n)
          bound bs h.1,
      same_rest n k bound bs,
    )

-- A plan's price for any number of mailboxes is the sum, over the mailboxes one by one, of the rate
-- of the first band whose bound is not yet reached: each band applies to the mailboxes within it,
-- and those above the last bound are free.
pub banded_cost-rates :
    (count : ℕ) (bs : List Band) → IsRising 0 bs → banded_cost count bs ≡ rates_from 0 count bs
unfolding banded_cost
banded_cost-rates count bs h = banded_loop-rates 0 count 0 bs h ∙ omega arith
