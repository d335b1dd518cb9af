-- ===== src/Notify/Ladder/Examples.antt =====
-- The theorems on the ladder at concrete alerts.
use envelockserver.Prelude.{◌≡◌, refl, false, some, [], ◌∷◌, number_comparable, text_comparable}
use envelockserver.Core.Enums.{
  source_mechanism_eq, mailbox_class_eq, protection_level_eq, alert_tier_eq, identity_event_kind_eq,
  critical,
}
use envelockserver.Notify.Ladder.{rung_eq, initial_rungs, Recipient, in_app, email, sms}

abbrev finance : Recipient
finance = record {
  user_id = "u1";
  is_admin = false;
  has_push_subscription = false;
  out_of_band_email = some "me@elsewhere.example";
  phone = some "+441632960000";
  has_sensor = false;
}

finance_critical : (initial_rungs critical finance).rungs ≡ in_app ∷ email ∷ sms ∷ []
unfolding initial_rungs
finance_critical = refl
