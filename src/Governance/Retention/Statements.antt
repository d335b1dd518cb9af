-- ===== src/Governance/Retention/Statements.antt =====
-- The statements of the purge as one description of the tables they leave.
use envelockserver.Prelude.{
  ℕ, ◌≡◌, refl, inl, inr, true, false, not, Option, none, some, List, [], ◌∷◌, map, if◌then◌else◌,
  Bool-cases, text_comparable, number_comparable, filter, any, contains,
}
use envelockserver.Governance.Retention.{
  delete_findings, delete_audit_events, delete_alerts, delete_sessions, delete_deliveries,
  old_alert_ids, drop_bodies, purge_body, delete_expired, purge_alerts, refers_to, cutoff, expired,
  purge_expired, FindingRow, DeliveryRow, Tables, message_body, identity_event, audit_event, alert,
  finding,
}

-- The tables without what is past its limit and without the deliveries of alerts that are.
unfoldable pub purged : (now : ℕ) → Tables → Tables
unfolding cutoff purge_body expired old_alert_ids
purged now t =
    let old = old_alert_ids (cutoff alert now) t.alerts in
    record {
      messages = map (purge_body (cutoff message_body now)) t.messages;
      sensor_sessions =
          filter (λ s. not (expired (cutoff identity_event now) s.last_seen_at)) t.sensor_sessions;
      audit_events =
          filter (λ e. not (expired (cutoff audit_event now) e.created_at)) t.audit_events;
      findings = filter (λ f. not (expired (cutoff finding now) f.created_at)) t.findings;
      notification_deliveries =
          filter (λ d. not (contains d.alert_id old)) t.notification_deliveries;
      alerts = filter (λ a. not (contains a.id old)) t.alerts;
    }

filter_all {ℓ} : {A : Type ℓ} → (xs : List A) → filter (λ x. true) xs ≡ xs
filter_all [] = refl
filter_all (x ∷ xs) = rw (filter_all xs) refl

none_refers : (fs : List FindingRow) → any (refers_to []) fs ≡ false
unfolding refers_to
none_refers [] = refl
none_refers (f ∷ fs) = rw (by_reference f.alert_id, none_refers fs) refl
  where
    by_reference : (o : Option ℕ) → elim o [ none ↦ false | some id ↦ contains id [] ] ≡ false
    by_reference none = refl
    by_reference (some id) = refl

none_delivered :
    (ids : List ℕ) (ds : List DeliveryRow)
    → any (λ d. contains d.alert_id ids) (filter (λ d. not (contains d.alert_id ids)) ds) ≡ false
none_delivered ids [] = refl
none_delivered ids (d ∷ ds) = elim (Bool-cases (contains d.alert_id ids)) [
  | inl gone ↦ rw gone (none_delivered ids ds)
  | inr left ↦ rw left (rw left (none_delivered ids ds))
]

-- The alerts and their deliveries are gone, unless a finding refers to one of the alerts.
purge_alerts_by :
    (ids : List ℕ) (t : Tables)
    → purge_alerts ids t ≡ (
        if any (refers_to ids) t.findings
        then none
        else some (record t {
          notification_deliveries =
              filter (λ d. not (contains d.alert_id ids)) t.notification_deliveries;
          alerts = filter (λ a. not (contains a.id ids)) t.alerts;
        }))
unfolding purge_alerts delete_deliveries delete_alerts
purge_alerts_by [] t =
    rw (none_refers t.findings, filter_all t.notification_deliveries, filter_all t.alerts) refl
purge_alerts_by (id ∷ ids) t = elim (Bool-cases (any (refers_to (id ∷ ids)) t.findings)) [
  | inl refused ↦ rw refused refl
  | inr free ↦ rw (free, none_delivered (id ∷ ids) t.notification_deliveries) refl
]

-- Run in their order, the statements leave the described tables; one is refused exactly when a finding
-- that is left refers to an alert that is past its limit.
pub purge_expired_by :
    (now : ℕ) (t : Tables)
    → purge_expired now t ≡ (
        if any (refers_to (old_alert_ids (cutoff alert now) t.alerts)) (purged now t).findings
        then none
        else some (purged now t))
unfolding purge_expired purged delete_expired drop_bodies delete_sessions delete_audit_events
    delete_findings
purge_expired_by now t =
    purge_alerts_by (old_alert_ids (cutoff alert now) t.alerts) (delete_expired now t)
