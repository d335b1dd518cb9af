-- ===== src/Platform/Alerts/Isolation.antt =====
-- That a closed alert is no longer escalated, and that closing one leaves the others as they are.
use envelockserver.Prelude.{
  ℕ, String, ◌≡◌, refl, ◌∙◌, ◌≢◌, Bool, true, false, Option, some, [], ◌∷◌, arith, if◌then◌else◌,
  eq_refl, ne_of_unequal, text_comparable, number_comparable,
}
use envelockserver.Prelude.Dict.{insert, lookup, lookup-insert}
use envelockserver.Core.Enums.{
  source_mechanism_eq, mailbox_class_eq, protection_level_eq, alert_tier_eq, identity_event_kind_eq,
}
use envelockserver.Platform.Graph.{CounterpartyGraph}
use envelockserver.Platform.Alerts.{
  Alert, Store, own, acknowledge, acknowledge_row, resolve, resolve_row, record_audit,
  due_escalations,
}

-- The alert stands in the store and no sweep, of any tenant and at any time, escalates it; and every
-- other alert is as it was.
pub record ClosedIn (id : String) (before after : Store) : Type 0 where
  pub row : Alert
  pub held : lookup id after.alerts ≡ some row
  pub quiet : (t : Option String) (now : ℕ) → due_escalations t now (row ∷ []) ≡ []
  pub others : (j : String) → id ≢ j → lookup j after.alerts ≡ lookup j before.alerts

own_same :
    (tenant : String) (alert : Alert)
    → alert.tenant_id ≡ tenant
    → own tenant (some alert) ≡ some alert
unfolding own
own_same tenant alert same = ground (arith, text_comparable.equal_iff alert.tenant_id tenant)

closed-quiet :
    (row : Alert)
    → row.state ≢ "open"
    → (t : Option String) (now : ℕ) → due_escalations t now (row ∷ []) ≡ []
unfolding due_escalations
closed-quiet row closed t now = ground (arith, text_comparable.equal_iff row.state "open")

insert-ClosedIn :
    (id : String) (row : Alert) (before after : Store)
    → after.alerts ≡ insert id row before.alerts
    → row.state ≢ "open"
    → ClosedIn id before after
insert-ClosedIn id row before after e closed = record {
  row = row;
  held = rw e (rw (lookup-insert id id row before.alerts, eq_refl id));
  quiet = closed-quiet row closed;
  others = λ j other.
      rw e (lookup-insert id j row before.alerts ∙ ground (arith, text_comparable.equal_iff id j));
}

abbrev closing_state : Bool → String
closing_state dismissed = if dismissed then "dismissed" else "resolved"

closed_state : (dismissed : Bool) → closing_state dismissed ≢ "open"
closed_state true = ne_of_unequal {A = String} "dismissed" "open" refl
closed_state false = ne_of_unequal {A = String} "resolved" "open" refl

-- An acknowledgement, a resolution and a dismissal by the alert's own tenant each end its escalation
-- for good, whatever is swept later, and leave every other alert as it was.
pub closing_stops_escalation :
    (registrable : String → String) (id tenant actor : String) (dismissed : Bool) (now : ℕ)
    (store : Store) (graph : CounterpartyGraph) {alert : Alert}
    → lookup id store.alerts ≡ some alert
    → alert.id ≡ id
    → alert.tenant_id ≡ tenant
    → ClosedIn id store (acknowledge id tenant actor now store).1
      × ClosedIn id store (resolve registrable id tenant actor dismissed now store graph).1.0
unfolding acknowledge resolve acknowledge_row resolve_row record_audit
closing_stops_escalation registrable id tenant actor dismissed now store graph {alert} found named
      mine =
    let acked : Alert = record alert {
      state = "acked";
      acknowledged_at = some now;
      acknowledged_by = some actor;
    } in
    let closed : Alert = record alert { state = closing_state dismissed; resolved_at = some now } in
    rw (found, own_same tenant alert mine)
      (
        insert-ClosedIn id acked store _ (rw named refl)
            (ne_of_unequal {A = String} "acked" "open" refl),
        insert-ClosedIn id closed store _ (rw named refl) (closed_state dismissed),
      )
