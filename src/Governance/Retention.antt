-- ===== src/Governance/Retention.antt =====
-- governance/retention.py: the schedule, and the purge over explicit tables. A row keeps the columns that
-- the purge reads or sets; a time is a number of microseconds, so that a cutoff before time 0 is 0, which
-- no row is below either way.
pub mod Statements
pub mod References
pub mod Limits
mod Examples
use envelockserver.Prelude.{
  ℕ, ◌-◌, ◌*◌, String, Bool, true, false, not, ◌&&◌, ◌||◌, Option, none, some, List, [], ◌∷◌, map,
  ltb, if◌then◌else◌, is_some, text_comparable, number_comparable, length, filter, any, contains,
}
use envelockserver.Prelude.Time.{day}

pub data DataClass : Type 0 where
  message_body attachment message_metadata identity_event audit_event alert finding
        verdict_cache_clean verdict_cache_malicious trial_ledger usage_meter :
      DataClass

pub record Policy : Type 0 where
  pub data_class : DataClass
  pub days : Option ℕ
  pub metadata_only_mode : Bool
  pub survives_tenant_deletion : Bool

abbrev policy : DataClass → Option ℕ → Bool → Bool → Policy
policy data_class days metadata_only_mode survives = record {
  data_class = data_class;
  days = days;
  metadata_only_mode = metadata_only_mode;
  survives_tenant_deletion = survives;
}

-- `SCHEDULE`, by class: `_BY_CLASS`.
pub policy_for : DataClass → Policy
policy_for message_body = policy message_body (some 30) false false
policy_for attachment = policy attachment (some 30) false false
policy_for message_metadata = policy message_metadata (some 365) true false
policy_for identity_event = policy identity_event (some 365) true false
policy_for audit_event = policy audit_event (some 365) true false
policy_for alert = policy alert (some 730) true false
policy_for finding = policy finding (some 730) true false
policy_for verdict_cache_clean = policy verdict_cache_clean (some 30) true false
policy_for verdict_cache_malicious = policy verdict_cache_malicious none true true
policy_for trial_ledger = policy trial_ledger none true true
policy_for usage_meter = policy usage_meter none true true

pub schedule : List DataClass
schedule =
    message_body ∷ attachment ∷ message_metadata ∷ identity_event ∷ audit_event ∷ alert ∷ finding
    ∷ verdict_cache_clean ∷ verdict_cache_malicious ∷ trial_ledger ∷ usage_meter ∷ []

cutoff_after : Option ℕ → ℕ → Option ℕ
cutoff_after none now = none
cutoff_after (some days) now = some (now - days * day)

pub cutoff : DataClass → (now : ℕ) → Option ℕ
unfolding policy_for cutoff_after
cutoff data_class now = cutoff_after (policy_for data_class).days now

pub classes_to_purge : (metadata_only : Bool) → List DataClass
unfolding policy_for schedule
classes_to_purge metadata_only =
    filter
      (λ c. is_some (policy_for c).days && ((policy_for c).metadata_only_mode || not metadata_only))
      schedule

pub record MessageRow : Type 0 where
  pub received_at : ℕ
  pub body_storage_key : Option String
  pub subject : Option String
  pub features : String

pub record SessionRow : Type 0 where
  pub last_seen_at : ℕ

pub record AuditEventRow : Type 0 where
  pub created_at : ℕ

pub record FindingRow : Type 0 where
  pub created_at : ℕ
  pub alert_id : Option ℕ

pub record DeliveryRow : Type 0 where
  pub alert_id : ℕ

pub record AlertRow : Type 0 where
  pub id : ℕ
  pub created_at : ℕ

pub record Tables : Type 0 where
  pub messages : List MessageRow
  pub sensor_sessions : List SessionRow
  pub audit_events : List AuditEventRow
  pub findings : List FindingRow
  pub notification_deliveries : List DeliveryRow
  pub alerts : List AlertRow

-- `column < cut`, which a class without a limit never meets.
pub expired : Option ℕ → ℕ → Bool
expired none at = false
expired (some cut) at = ltb at cut

has_body : MessageRow → Bool
has_body m = is_some m.body_storage_key

purge_body : Option ℕ → MessageRow → MessageRow
unfolding expired has_body
purge_body cut m =
    if expired cut m.received_at && has_body m
    then record {
      received_at = m.received_at;
      body_storage_key = none;
      subject = none;
      features = m.features;
    }
    else m

-- The numbers of the alerts that are past the cutoff.
pub old_alert_ids : Option ℕ → List AlertRow → List ℕ
unfolding expired
old_alert_ids cut alerts =
    map (λ (a : AlertRow). a.id) (filter (λ a. expired cut a.created_at) alerts)

pub record PurgeCounts : Type 0 where
  pub message_body : ℕ
  pub identity_event : ℕ
  pub audit_event : ℕ
  pub finding : ℕ
  pub alert : ℕ

-- How many rows of a table are met.
pub count {ℓ} : {A : Type ℓ} → (A → Bool) → List A → ℕ
count p xs = length (filter p xs)

-- The alert that a finding is the evidence of is among the given ones.
pub refers_to : List ℕ → FindingRow → Bool
refers_to ids f = elim f.alert_id [ none ↦ false | some id ↦ contains id ids ]

-- The statements of the purge, each on the tables that the ones before it left.
drop_bodies : Option ℕ → Tables → Tables
unfolding purge_body
drop_bodies cut t = record t { messages = map (purge_body cut) t.messages }

delete_sessions : Option ℕ → Tables → Tables
unfolding expired
delete_sessions cut t = record t {
  sensor_sessions = filter (λ s. not (expired cut s.last_seen_at)) t.sensor_sessions;
}

delete_audit_events : Option ℕ → Tables → Tables
unfolding expired
delete_audit_events cut t = record t {
  audit_events = filter (λ e. not (expired cut e.created_at)) t.audit_events;
}

delete_findings : Option ℕ → Tables → Tables
unfolding expired
delete_findings cut t = record t {
  findings = filter (λ f. not (expired cut f.created_at)) t.findings;
}

delete_deliveries : (ids : List ℕ) → Tables → Tables
delete_deliveries ids t = record t {
  notification_deliveries = filter (λ d. not (contains d.alert_id ids)) t.notification_deliveries;
}

-- The foreign keys of models.py on findings and deliveries: the database refuses to delete an alert that
-- a row of one of the two tables still refers to.
delete_alerts : (ids : List ℕ) → Tables → Option Tables
unfolding refers_to
delete_alerts ids t =
    if any (refers_to ids) t.findings
      || any (λ d. contains d.alert_id ids) t.notification_deliveries
    then none
    else some (record t { alerts = filter (λ a. not (contains a.id ids)) t.alerts })

purge_alerts : (ids : List ℕ) → Tables → Option Tables
unfolding delete_deliveries delete_alerts
purge_alerts [] t = some t
purge_alerts (id ∷ ids) t = delete_alerts (id ∷ ids) (delete_deliveries (id ∷ ids) t)

delete_expired : (now : ℕ) → Tables → Tables
unfolding drop_bodies delete_sessions delete_audit_events delete_findings cutoff
delete_expired now t = delete_findings (cutoff finding now) (
    delete_audit_events (cutoff audit_event now)
      (delete_sessions (cutoff identity_event now) (drop_bodies (cutoff message_body now) t)))

-- `purge_expired`: none when a statement is refused; nothing is committed then.
pub purge_expired : (now : ℕ) → Tables → Option Tables
unfolding delete_expired purge_alerts cutoff old_alert_ids
purge_expired now t =
    let t' = delete_expired now t in purge_alerts (old_alert_ids (cutoff alert now) t'.alerts) t'

-- What it reports.
pub purge_counts : (now : ℕ) → Tables → PurgeCounts
unfolding cutoff expired has_body old_alert_ids count
purge_counts now t = record {
  message_body =
      count (λ m. expired (cutoff message_body now) m.received_at && has_body m) t.messages;
  identity_event =
      count (λ s. expired (cutoff identity_event now) s.last_seen_at) t.sensor_sessions;
  audit_event = count (λ e. expired (cutoff audit_event now) e.created_at) t.audit_events;
  finding = count (λ f. expired (cutoff finding now) f.created_at) t.findings;
  alert = count (λ a. contains a.id (old_alert_ids (cutoff alert now) t.alerts)) t.alerts;
}
