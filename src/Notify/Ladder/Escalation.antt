-- ===== src/Notify/Ladder/Escalation.antt =====
-- Escalation over time (`should_escalate_to_sms` and `admin_escalation_due`).
use envelockserver.Prelude.{
  ℕ, ◌+◌, ◌*◌, ◌≤◌, ◌≡◌, ◌↔◌, true, false, Option, none, some, arith, is_some, number_comparable,
  text_comparable,
}
use envelockserver.Prelude.Time.{minute}
use envelockserver.Core.Enums.{
  source_mechanism_eq, mailbox_class_eq, protection_level_eq, alert_tier_eq, identity_event_kind_eq,
  AlertTier, low, medium, high, critical,
}
use envelockserver.Notify.Ladder.{
  rung_eq, should_escalate_to_sms, admin_escalation_due, Recipient, EscalationPolicy, Target,
  it_admin, all_admins,
}

-- Once the paid rung is due it stays due as time passes and as more notifications are left
-- unacknowledged, at every policy; and an acknowledgement ends it.
pub should_escalate_to_sms_stays :
    (tier : AlertTier) (raised now later total more : ℕ) (r : Recipient)
    (policy : Option EscalationPolicy)
    → now ≤ later
    → total ≤ more
    → is_some (should_escalate_to_sms tier raised now false total r policy) ≡ true
    → (is_some (should_escalate_to_sms tier raised later false more r policy) ≡ true)
      × (should_escalate_to_sms tier raised later true more r policy ≡ none)
unfolding should_escalate_to_sms
should_escalate_to_sms_stays tier raised now later total more r policy h k due = ground arith

abbrev pub reach : Option Target → ℕ
reach none = 0
reach (some it_admin) = 1
reach (some all_admins) = 2

-- The circle of administrators told about an unacknowledged alert never shrinks as time passes; it
-- has someone in it from 15 minutes on, and everyone from 60 minutes on, for a Critical alone.
pub admin_escalation_due_grows :
    (tier : AlertTier) (raised now later : ℕ)
    → now ≤ later
    → (reach (admin_escalation_due tier raised now false)
        ≤ reach (admin_escalation_due tier raised later false))
      × ((1 ≤ reach (admin_escalation_due tier raised now false))
          ↔ ((tier ≡ critical) × (raised + 15 * minute ≤ now)))
      × ((2 ≤ reach (admin_escalation_due tier raised now false))
          ↔ ((tier ≡ critical) × (raised + 60 * minute ≤ now)))
unfolding admin_escalation_due
admin_escalation_due_grows low raised now later h = ground arith
admin_escalation_due_grows medium raised now later h = ground arith
admin_escalation_due_grows high raised now later h = ground arith
admin_escalation_due_grows critical raised now later h = ground arith
