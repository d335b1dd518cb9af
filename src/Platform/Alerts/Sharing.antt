-- ===== src/Platform/Alerts/Sharing.antt =====
-- How a confirmed alert reaches the graph that tenants share.
use envelockserver.Prelude.{
  ℕ, ◌≤◌, String, ◌≡◌, refl, ◌≢◌, true, false, none, some, arith, ◌==◌, text_comparable,
  number_comparable, contains,
}
use envelockserver.Prelude.Dict.{lookup}
use envelockserver.Core.Enums.{
  source_mechanism_eq, mailbox_class_eq, protection_level_eq, alert_tier_eq, identity_event_kind_eq,
}
use envelockserver.Platform.Graph
use envelockserver.Platform.Graph.{
  CounterpartyGraph, GraphEntry, fraudulent, report, actionable, reporters_of,
}
use envelockserver.Platform.Graph.Verdicts.{report_never_heals, report_any_confirms}
use envelockserver.Platform.Alerts.{Alert, Store, own, resolve, resolve_row, feed, feeds_graph}

-- A Critical or High alert that is resolved by its own tenant makes the domain of its counterparty one
-- that is acted on, if another tenant has reported that domain as fraudulent before and this one has
-- not; had the alert been dismissed, the graph would be as it was.
pub resolve_confirms :
    (registrable : String → String) (id tenant actor domain : String) (now : ℕ) (store : Store)
    (graph : CounterpartyGraph) {alert : Alert} {e : GraphEntry}
    → lookup id store.alerts ≡ some alert
    → alert.tenant_id ≡ tenant
    → alert.counterparty_domain ≡ some domain
    → domain ≢ ""
    → feeds_graph alert.tier ≡ true
    → Graph.lookup registrable domain graph ≡ some e
    → e.verdict ≡ fraudulent
    → 1 ≤ e.confirmations
    → contains tenant (reporters_of registrable domain graph) ≡ false
    → let after = (resolve registrable id tenant actor false now store graph).1.1 in
      ((y : GraphEntry) × (Graph.lookup registrable domain after ≡ some y) × (actionable y ≡ true))
      × ((resolve registrable id tenant actor true now store graph).1.1 ≡ graph)
unfolding resolve resolve_row feed own
resolve_confirms registrable id tenant actor domain now store graph {alert} {e} found mine there
      named grave known fraud once fresh =
    let stands = (report_never_heals registrable domain fraudulent tenant none now graph).0 in
    let acts =
      report_any_confirms registrable domain fraudulent tenant none now graph known fraud once
        fresh in
    let filled : (domain == "") ≡ false = ground (arith, text_comparable.equal_iff domain "") in
    let same : (alert.tenant_id == tenant) ≡ true = (text_comparable.equal_iff _ _).1 mine in
    rw (found, same) (rw (there, filled, grave, mine) ((_, stands, acts), refl))
