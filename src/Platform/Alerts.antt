-- ===== src/Platform/Alerts.antt =====
-- platform/alerts.py: the life of an alert. The database session is the record `Store` of its rows: a
-- row that is fetched by its id stands in a dictionary, and rows that are only added stand in lists,
-- oldest first. The ids and the clock are arguments. Every audit row here is
-- about an alert, so that the type of its target is left out. `persist_report`, which writes the verdict of the graph to its table, is left out.
pub mod Escalations
pub mod Isolation
pub mod Sharing
mod Examples
use envelockserver.Prelude.{
  ℕ, ◌+◌, ◌-◌, ◌/◌, String, Bool, true, not, ◌&&◌, ◌||◌, Option, none, some, List, [], ◌∷◌, ◌++◌,
  map, leb, if◌then◌else◌, is_some, ◌==◌, text_comparable, truthy, number_comparable,
}
use envelockserver.Prelude.Time.{second}
use envelockserver.Prelude.Dict.{Dict, insert, lookup}
use envelockserver.Core.Enums.{AlertTier, high, critical, alert_tier_eq}
use envelockserver.Risk.Engine.{FindingResult, RiskAssessment}
use envelockserver.Notify.Ladder.{Rung, Recipient, initial_rungs, Target, it_admin, all_admins}
use envelockserver.Prelude.Text.{first_chars}
use envelockserver.Platform.Graph.{CounterpartyGraph, fraudulent, report, actionable}

pub record Alert : Type 0 where
  pub id : String
  pub tenant_id : String
  pub tier : AlertTier
  pub title : String
  pub body : String
  pub counterparty_domain : Option String
  pub requires_callback : Bool
  pub callback_phone : Option String
  pub state : String
  pub created_at : ℕ
  pub acknowledged_at : Option ℕ
  pub acknowledged_by : Option String
  pub resolved_at : Option ℕ
  pub escalated_at : Option ℕ

-- The keys and values that an audit row has.
pub data AuditDetail : Type 0 where
  no_detail : AuditDetail
  raised_with : (tier : AlertTier) (services : List String) → AuditDetail
  graph_propagated : Bool → AuditDetail
  escalated_to : Target → AuditDetail

pub record AuditEvent : Type 0 where
  pub tenant_id : String
  pub actor_id : Option String
  pub action : String
  pub target_id : String
  pub detail : AuditDetail

pub record Delivery : Type 0 where
  pub alert_id : String
  pub user_id : String
  pub rung : Rung

pub record Store : Type 0 where
  pub alerts : Dict String Alert
  pub findings : List (String × FindingResult)
  pub deliveries : List Delivery
  pub audit : List AuditEvent

unfoldable pub record_audit :
    (tenant_id : String) (actor_id : Option String) (action target_id : String)
    → AuditDetail
    → Store
    → Store
record_audit tenant_id actor_id action target_id detail store = record store {
  audit =
      store.audit
      ++ (record {
        tenant_id = tenant_id;
        actor_id = actor_id;
        action = action;
        target_id = target_id;
        detail = detail;
      }
          ∷ []);
}

deliveries_for : String → AlertTier → List Recipient → List Delivery
deliveries_for alert_id tier [] = []
deliveries_for alert_id tier (r ∷ recipients) =
    map (λ (rung : Rung). record { alert_id = alert_id; user_id = r.user_id; rung = rung })
      (initial_rungs tier r).rungs
    ++ deliveries_for alert_id tier recipients

pub raise_alert :
    (new_id tenant_id : String)
    → ℕ
    → RiskAssessment
    → List FindingResult
    → List Recipient
    → (counterparty_domain : Option String) → Store
    → Alert × Store
unfolding deliveries_for
raise_alert new_id tenant_id now assessment findings recipients counterparty_domain store =
    let alert : Alert = record {
      id = new_id;
      tenant_id = tenant_id;
      tier = assessment.tier;
      title = first_chars 255 assessment.title;
      body = assessment.body;
      counterparty_domain = counterparty_domain;
      requires_callback = assessment.requires_callback;
      callback_phone = assessment.callback_phone;
      state = "open";
      created_at = now;
      acknowledged_at = none;
      acknowledged_by = none;
      resolved_at = none;
      escalated_at = none;
    } in
    (
      alert,
      record_audit tenant_id none "alert.raised" new_id
          (raised_with assessment.tier assessment.services)
          (record store {
            alerts = insert new_id alert store.alerts;
            findings = store.findings ++ map (λ f. (new_id, f)) findings;
            deliveries = store.deliveries ++ deliveries_for new_id assessment.tier recipients;
          }),
    )

-- The row, unless it is another tenant's.
pub own : String → Option Alert → Option Alert
own tenant_id none = none
own tenant_id (some alert) = if alert.tenant_id == tenant_id then some alert else none

acknowledge_row : (actor_id : String) → ℕ → Store → Option Alert → Option Alert × Store
acknowledge_row actor_id now store none = (none, store)
acknowledge_row actor_id now store (some alert) =
    let acked = record alert {
      state = "acked";
      acknowledged_at = some now;
      acknowledged_by = some actor_id;
    } in
    (
      some acked,
      record_audit alert.tenant_id (some actor_id) "alert.acknowledged" alert.id no_detail
          (record store { alerts = insert alert.id acked store.alerts }),
    )

pub acknowledge : (alert_id tenant_id actor_id : String) → ℕ → Store → Option Alert × Store
unfolding acknowledge_row
acknowledge alert_id tenant_id actor_id now store =
    acknowledge_row actor_id now store (own tenant_id (lookup alert_id store.alerts))

-- `tier in _GRAPH_FEED_TIERS`
abbrev pub feeds_graph : AlertTier → Bool
feeds_graph tier = tier == critical || tier == high

abbrev text_of : Option String → String
text_of none = ""
text_of (some text) = text

module _ (registrable : String → String) where
  -- The report to the graph, when a person confirms a grave alert.
  pub feed : (dismissed : Bool) → Alert → ℕ → CounterpartyGraph → CounterpartyGraph
  feed dismissed alert now graph =
      if not dismissed && truthy alert.counterparty_domain && feeds_graph alert.tier
      then (report registrable (text_of alert.counterparty_domain) fraudulent alert.tenant_id none
          now graph).1
      else graph

  -- What the audit row says of the graph: whether the report made the entry one that others act on.
  resolved_detail : (dismissed : Bool) → Alert → ℕ → CounterpartyGraph → AuditDetail
  resolved_detail dismissed alert now graph =
      let (entry, after) =
        report registrable (text_of alert.counterparty_domain) fraudulent alert.tenant_id none now
          graph in
      if dismissed
      then no_detail
      else graph_propagated
          (truthy alert.counterparty_domain && feeds_graph alert.tier && actionable entry)

  resolve_row :
      (actor_id : String) (dismissed : Bool)
      → ℕ
      → Store
      → CounterpartyGraph
      → Option Alert
      → Option Alert × (Store × CounterpartyGraph)
  resolve_row actor_id dismissed now store graph none = (none, (store, graph))
  resolve_row actor_id dismissed now store graph (some alert) =
      let closed = record alert {
        state = if dismissed then "dismissed" else "resolved";
        resolved_at = some now;
      } in
      (
        some closed,
        (
          record_audit alert.tenant_id (some actor_id)
              (if dismissed then "alert.dismissed" else "alert.resolved") alert.id
              (resolved_detail dismissed alert now graph)
              (record store { alerts = insert alert.id closed store.alerts }),
          feed dismissed alert now graph,
        ),
      )

  pub resolve :
      (alert_id tenant_id actor_id : String) (dismissed : Bool)
      → ℕ
      → Store
      → CounterpartyGraph
      → Option Alert × (Store × CounterpartyGraph)
  unfolding resolve_row
  resolve alert_id tenant_id actor_id dismissed now store graph =
      resolve_row actor_id dismissed now store graph (own tenant_id (lookup alert_id store.alerts))

pub record EscalationStep : Type 0 where
  pub alert_id : String
  pub to : Target
  pub minutes_open : ℕ

-- The rows that the query selects, for one tenant or for all.
of_tenant : Option String → Alert → Bool
of_tenant none alert = true
of_tenant (some tenant_id) alert = alert.tenant_id == tenant_id

unfoldable pub due_escalations : Option String → ℕ → List Alert → List EscalationStep
unfolding of_tenant
due_escalations tenant_id now [] = []
due_escalations tenant_id now (alert ∷ alerts) =
    let rest = due_escalations tenant_id now alerts in
    let minutes = (now - alert.created_at) / second / 60 in
    if not (alert.state == "open" && alert.tier == critical && of_tenant tenant_id alert)
    then rest
    else if leb 60 minutes
    then record { alert_id = alert.id; to = all_admins; minutes_open = minutes } ∷ rest
    else if leb 15 minutes && not (is_some alert.escalated_at)
    then record { alert_id = alert.id; to = it_admin; minutes_open = minutes } ∷ rest
    else rest

unfoldable pub mark_row : Option Alert → (tenant_id : String) (to : Target) → ℕ → Store → Store
mark_row none tenant_id to now store = store
mark_row (some alert) tenant_id to now store =
    record_audit tenant_id none "alert.escalated" alert.id (escalated_to to) (record store {
      alerts = insert alert.id (record alert { escalated_at = some now }) store.alerts;
    })

-- As in the source, the tenant is written to the audit row and not compared with that of the alert.
unfoldable pub mark_escalated : (alert_id tenant_id : String) (to : Target) → ℕ → Store → Store
unfolding mark_row
mark_escalated alert_id tenant_id to now store =
    mark_row (lookup alert_id store.alerts) tenant_id to now store
