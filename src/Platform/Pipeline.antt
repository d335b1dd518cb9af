-- ===== src/Platform/Pipeline.antt =====
-- platform/pipeline.py: what `analyse_event` does to the rows of one tenant. The detections with the assessment
-- and its refinement, which read the rows and the event, are its parameter `judged`. The time that an analysis
-- took is left out of its result.
pub mod Repeats
pub mod Banks
mod Examples
use envelockserver.Platform.Learning.{
  source_of, learn_text, add_dkim, seen_again, is_of, new_bank, learn_banks, active_ids, ids_of_row,
  known_bank_ids, learn_profile, learn, MailEvent, BankIdentifier, BankRecord, Counterparty,
  SenderProfile, StoredMessage, PipelineStore, PipelineRules, Event, mail, other_event,
}
use envelockserver.Core.Enums.{
  source_mechanism_code, source_mechanism_iff, source_mechanism_eq, mailbox_class_code,
  mailbox_class_iff, mailbox_class_eq, protection_level_code, protection_level_iff,
  protection_level_eq, alert_tier_code, alert_tier_iff, alert_tier_eq, identity_event_kind_code,
  identity_event_kind_iff, identity_event_kind_eq, SourceMechanism, graph_api, gmail_api, admin_api,
  imap_idle, imap_poll, forward_ingest, journal, entra_logs, google_reports, client_sensor,
  imap_flags, cert_transparency, zone_file, rdap, dmarc_rua, threat_feed, MailboxClass, protected,
  monitored, ProtectionLevel, full, standard, limited, AlertTier, low, medium, high, critical,
  IdentityEventKind, sign_in, session_start, session_heartbeat, message_opened, flag_changed,
  rule_changed, delegate_changed, oauth_grant, signature_changed, credential_changed, mfa_changed,
}
use envelockserver.Core.Capabilities.{
  capability_code, capability_iff, capability_eq, mechanism_capabilities, capabilities_for,
  full_requirements, standard_requirements, protection_level, protection_advice, Missing,
  ProtectionAdvice, Capability, read_inbound, read_outbound, read_history, modify_message,
  read_flags, read_signin_logs, read_sessions, read_device_fingerprint, read_server_rules,
  read_oauth_grants, read_mfa_state, observe_domain, observe_dmarc,
}
use envelockserver.Prelude.{
  ℕ, zero, suc, ◌+◌, ◌-◌, ◌*◌, ◌/◌, ◌%◌, ◌^◌, ◌≤◌, ◌<◌, String, ◌≡◌, refl, sym, ap, ◌∙◌, fun_ext,
  ◌≢◌, ◌↔◌, ◌⊎◌, inl, inr, Bool, true, false, not, ◌&&◌, ◌||◌, Option, none, some, List, [], ◌∷◌,
  ◌++◌, map, arith, ltb, leb, nat_beq, if◌then◌else◌, ltb→lt, leb→le, nat_beq_iff, is_some,
  Bool-cases, Option-cases, ◌==◌, eq_refl, ne_of_unequal, text_comparable, truthy,
  number_comparable, code-injective, coded_iff, Comparable, All, length, filter, any, all, sum_by,
  any_imp, length-append, length-filter-le, all-filter, all_in-filter, All-append, contains, subset,
  contains-append, contains-filter, any_witness, any_intro, any_mono,
}
use envelockserver.Prelude.Text.{text_or, concat}
use envelockserver.Prelude.Dict.{Dict, lookup, insert}
use envelockserver.Risk.Engine.{
  order, by_rank, promote, combinations, is_alertable, insert_service, services_of, base_of,
  apply_floor, escalate, sorted_scores, weighted, aggregate, callback_of, body_lines, assess,
  FindingResult, Combination, RiskAssessment, Float,
}
use envelockserver.Notify.Ladder.{
  rung_code, rung_iff, rung_eq, initial_rungs, should_escalate_to_sms, admin_escalation_due,
  Recipient, LadderDecision, EscalationPolicy, Rung, in_app, push, email, sms, Reason, always,
  high_or_critical, no_sensor, unacknowledged_minutes, unacknowledged_count, Target, it_admin,
  all_admins,
}
use envelockserver.Platform.Alerts.{
  record_audit, raise_alert, own, acknowledge, feeds_graph, feed, resolve, due_escalations,
  mark_row, mark_escalated, Alert, AuditEvent, Delivery, Store, EscalationStep, AuditDetail,
  no_detail, raised_with, graph_propagated, escalated_to,
}

pub record PipelineResult : Type 0 where
  pub findings : List FindingResult
  pub assessment : Option RiskAssessment
  pub alert_id : Option String
  pub protection_level : ProtectionLevel
  pub inactive_detections : List String
  pub duplicate : Bool

pub alerted : PipelineResult → Bool
alerted result = is_some result.alert_id

is_same_id : Option String → Option String → Bool
is_same_id none stored = false
is_same_id (some wanted) none = false
is_same_id (some wanted) (some stored) = stored == wanted

is_stored : MailEvent → StoredMessage → Bool
unfolding is_same_id
is_stored event m =
    m.mailbox_id == event.mailbox_id && is_same_id event.rfc_message_id m.rfc_message_id

-- The message was ingested already: it has an identifier, and its mailbox has a message with that.
pub is_duplicate : Event → List StoredMessage → Bool
unfolding is_stored
is_duplicate (other_event source) messages = false
is_duplicate (mail event) messages = truthy event.rfc_message_id && any (is_stored event) messages

score_of : Option RiskAssessment → ℕ
score_of none = 0
score_of (some a) = a.score

stored_message : MailEvent → Option RiskAssessment → StoredMessage
unfolding score_of
stored_message event assessment = record {
  mailbox_id = event.mailbox_id;
  rfc_message_id = event.rfc_message_id;
  risk_score = score_of assessment;
}

-- The sender's domain, when it is not the tenant's own.
counterparty_of :
    (registrable_domain : String → String) → (owned_domains : List String) → Event → Option String
counterparty_of registrable_domain owned_domains (other_event source) = none
counterparty_of registrable_domain owned_domains (mail event) =
    let domain = registrable_domain event.sender_domain in
    if not (domain == "") && not (contains domain owned_domains) then some domain else none

pub duplicate_result : SourceMechanism → PipelineResult
duplicate_result source = record {
  findings = [];
  assessment = none;
  alert_id = none;
  protection_level = protection_level (capabilities_for (source ∷ []));
  inactive_detections = [];
  duplicate = true;
}

-- What an analysis is run with: the tenant, its domains and recipients, the number and time of a new alert,
-- and the capabilities of the context that `build_context` loads.
pub record Run : Type 0 where
  pub tenant_id : String
  pub owned_domains : List String
  pub recipients : List Recipient
  pub new_id : String
  pub now : ℕ
  pub capabilities : List Capability

module _ {V : Type 0} (rules : PipelineRules V)
    (judged : PipelineStore V → Event → List FindingResult × Option RiskAssessment) where
  store_message : Event → Option RiskAssessment → PipelineStore V → PipelineStore V
  unfolding stored_message
  store_message (other_event source) assessment store = store
  store_message (mail event) assessment store = record store {
    messages = stored_message event assessment ∷ store.messages;
  }

  alert_if_due :
      Run
      → Event
      → List FindingResult
      → Option RiskAssessment
      → PipelineStore V
      → Option String × PipelineStore V
  unfolding counterparty_of
  alert_if_due run event findings none store = (none, store)
  alert_if_due run event findings (some assessment) store =
      let (alert, alerts) =
        raise_alert run.new_id run.tenant_id run.now assessment findings run.recipients
          (counterparty_of rules.registrable_domain run.owned_domains event) store.alerts in
      if is_alertable assessment
      then (some alert.id, record store { alerts = alerts })
      else (none, store)

  learn_from : Event → PipelineStore V → PipelineStore V
  learn_from (other_event source) store = store
  learn_from (mail event) store = learn rules event store

  -- An event that is new: judged on the rows as they are, then stored, alerted on and learned from.
  analyse_new : Run → Event → PipelineStore V → PipelineResult × PipelineStore V
  unfolding store_message alert_if_due learn_from
  analyse_new run event store =
      let (findings, assessment) = judged store event in
      let (alert_id, alerted) =
        alert_if_due run event findings assessment (store_message event assessment store) in
      (
        record {
          findings = findings;
          assessment = assessment;
          alert_id = alert_id;
          protection_level = protection_level run.capabilities;
          inactive_detections = rules.inactive_for run.capabilities;
          duplicate = false;
        },
        learn_from event alerted,
      )

  -- `analyse_event` with `persist`.
  pub analyse_event : Run → Event → PipelineStore V → PipelineResult × PipelineStore V
  unfolding duplicate_result source_of analyse_new
  analyse_event run event store =
      if is_duplicate event store.messages
      then (duplicate_result (source_of event), store)
      else analyse_new run event store
