-- ===== src/Billing/Pricing/Examples.antt =====
-- Quotes at concrete orders.
use envelockserver.Prelude.{◌≡◌, refl, text_comparable, number_comparable}
use envelockserver.Billing.Pricing.{plan_eq, protected_rates, banded_cost, essential}
use envelockserver.Billing.Pricing.Bands.{rates_from, banded_cost-rates}
use envelockserver.Billing.Pricing.Quotes.{rising}

-- Sixty protected mailboxes: 10 at 200, 40 at 170 and 10 at 140 cents.
sixty_protected : banded_cost 60 (protected_rates essential) ≡ 10200
unfolding banded_cost
sixty_protected = refl

rates_example :
    banded_cost 60 (protected_rates essential) ≡ rates_from 0 60 (protected_rates essential)
rates_example = banded_cost-rates 60 (protected_rates essential) (rising essential).0
