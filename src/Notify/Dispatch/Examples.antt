-- ===== src/Notify/Dispatch/Examples.antt =====
-- One critical alert of an office with one administrator, two hours after it was raised.
use envelockserver.Prelude.{
  ◌*◌, ◌≡◌, refl, true, false, none, some, [], ◌∷◌, arith, text_comparable, number_comparable, any,
  all,
}
use envelockserver.Prelude.Time.{minute}
use envelockserver.Core.Enums.{
  source_mechanism_eq, mailbox_class_eq, protection_level_eq, alert_tier_eq, identity_event_kind_eq,
  critical,
}
use envelockserver.Notify.Ladder.{rung_eq, sms}
use envelockserver.Platform.Alerts.{Alert, Store}
use envelockserver.Notify.Dispatch.{
  Senders, deliver_pending, sms_destination, NotificationDelivery, User, Directory, pending,
}
use envelockserver.Notify.Dispatch.Once.{deliver_pending_once}
use envelockserver.Notify.Dispatch.Ignored.{IsIgnored}
use envelockserver.Notify.Dispatch.Cycles.{is_text, runs, runs-all_text}

abbrev invoice : Alert
invoice = record {
  id = "a1";
  tenant_id = "t1";
  tier = critical;
  title = "Bank details changed";
  body = "Call back before paying.";
  counterparty_domain = none;
  requires_callback = true;
  callback_phone = none;
  state = "open";
  created_at = 0;
  acknowledged_at = none;
  acknowledged_by = none;
  resolved_at = none;
  escalated_at = some (60 * minute);
}

abbrev admin : User
admin = record {
  id = "u1";
  tenant_id = "t1";
  is_admin = true;
  out_of_band_email = none;
  phone = some "+15550100";
  phone_verified = true;
}

abbrev quiet : Senders
quiet rung alert to keys = record {
  delivered = false;
  reason = "sms not configured";
  cost_micros = 0;
}

abbrev queued : NotificationDelivery
queued = record {
  alert_id = "a1";
  tenant_id = "t1";
  user_id = some "u1";
  rung = sms;
  status = pending;
  error = none;
  cost_micros = 0;
}

abbrev office : Directory
office = record { alerts = ("a1", invoice) ∷ []; users = ("u1", admin) ∷ []; subscriptions = [] }

resend_example :
    deliver_pending quiet office none none (deliver_pending quiet office none none (queued ∷ [])).0
    ≡ ((deliver_pending quiet office none none (queued ∷ [])).0, [])
resend_example = deliver_pending_once quiet quiet office office none none (queued ∷ [])

abbrev held : Store
held = record { alerts = ("a1", invoice) ∷ []; findings = []; deliveries = []; audit = [] }

abbrev ignored : IsIgnored "a1" "+15550100" (admin ∷ []) (120 * minute) held
ignored = record {
  alert = invoice;
  stored = refl;
  keys = (refl, tt);
  is_open = refl;
  is_critical = refl;
  old = omega arith;
  admin = unfold sms_destination in refl;
}

runs_example :
    all
      (λ calls. any (is_text "a1" "+15550100") calls)
      (runs quiet (admin ∷ []) (120 * minute ∷ 122 * minute ∷ []) held)
    ≡ true
runs_example =
    runs-all_text quiet (admin ∷ []) "a1" "+15550100" (120 * minute)
      (120 * minute ∷ 122 * minute ∷ []) held ignored (omega arith, (omega arith, tt))
