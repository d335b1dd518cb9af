-- ===== src/Notify/Ladder/Rungs.antt =====
-- The first notification of an alert (`initial_rungs`).
use envelockserver.Prelude.{
  ◌≤◌, ◌≡◌, true, false, not, ◌&&◌, ◌||◌, arith, number_comparable, text_comparable, truthy, length,
  contains, subset,
}
use envelockserver.Core.Enums.{
  source_mechanism_eq, mailbox_class_eq, protection_level_eq, alert_tier_eq, identity_event_kind_eq,
  AlertTier, low, medium, high, critical,
}
use envelockserver.Risk.Engine.{order}
use envelockserver.Notify.Ladder.{rung_eq, initial_rungs, Recipient, in_app, sms}

-- For one recipient a higher tier uses every rung that a lower tier uses.
pub initial_rungs_mono :
    (low_tier high_tier : AlertTier) (r : Recipient)
    → order low_tier ≤ order high_tier
    → subset (initial_rungs low_tier r).rungs (initial_rungs high_tier r).rungs ≡ true
unfolding initial_rungs
initial_rungs_mono low t r h = ground arith
initial_rungs_mono medium t r h = ground arith
initial_rungs_mono high t r h = ground arith
initial_rungs_mono critical t r h = ground arith

-- Every alert reaches the dashboard; a Critical leaves it for each recipient that has a push
-- subscription, a registered address, or a phone and no sensor; and the paid rung is used for a
-- Critical without a sensor alone.
pub initial_rungs_reach :
    (tier : AlertTier) (r : Recipient)
    → let rungs = (initial_rungs tier r).rungs in
      (contains in_app rungs ≡ true)
      × (tier ≡ critical
          → (r.has_push_subscription
              || truthy r.out_of_band_email
              || not r.has_sensor && truthy r.phone)
            ≡ true
          → 2 ≤ length rungs)
      × (contains sms rungs ≡ true → (tier ≡ critical) × (r.has_sensor ≡ false))
unfolding initial_rungs
initial_rungs_reach low r = ground arith
initial_rungs_reach medium r = ground arith
initial_rungs_reach high r = ground arith
initial_rungs_reach critical r = ground arith
