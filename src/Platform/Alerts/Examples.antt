-- ===== src/Platform/Alerts/Examples.antt =====
-- The theorems on alerts at a concrete store.
use envelockserver.Prelude.{
  String, ◌≡◌, refl, true, false, none, some, [], ◌∷◌, arith, text_comparable, number_comparable,
}
use envelockserver.Core.Enums.{critical}
use envelockserver.Notify.Ladder.{admin_escalation_due}
use envelockserver.Platform.Graph
use envelockserver.Platform.Graph.{
  CounterpartyGraph, GraphEntry, fraudulent, actionable, reporters_of, key_for,
}
use envelockserver.Platform.Alerts.{Alert, Store, acknowledge, resolve, due_escalations}
use envelockserver.Platform.Alerts.Escalations.{targets, as_list, due_escalations_agree}
use envelockserver.Platform.Alerts.Isolation.{ClosedIn, closing_stops_escalation}
use envelockserver.Platform.Alerts.Sharing.{resolve_confirms}

abbrev itself : String → String
itself domain = domain

abbrev alarm : Alert
alarm = record {
  id = "a1";
  tenant_id = "t2";
  tier = critical;
  title = "Bank details changed.";
  body = "";
  counterparty_domain = some "evil.example";
  requires_callback = true;
  callback_phone = none;
  state = "open";
  created_at = 0;
  acknowledged_at = none;
  acknowledged_by = none;
  resolved_at = none;
  escalated_at = none;
}

abbrev store : Store
store = record { alerts = ("a1", alarm) ∷ []; findings = []; deliveries = []; audit = [] }

abbrev entry : GraphEntry
entry = record {
  registrable_domain = "evil.example";
  verdict = fraudulent;
  confirmations = 1;
  first_reported = 0;
  last_reported = 0;
  techniques = [];
}

abbrev graph : CounterpartyGraph
graph = record {
  entries = ("evil.example", entry) ∷ [];
  reporters = ("evil.example", "t1" ∷ []) ∷ [];
}

agree_example :
    targets (due_escalations none 1000000000 (alarm ∷ []))
    ≡ as_list (admin_escalation_due critical 0 1000000000 false)
agree_example = due_escalations_agree 1000000000 alarm refl refl

closing_example :
    ClosedIn "a1" store (acknowledge "a1" "t2" "u" 5 store).1
    × ClosedIn "a1" store (resolve itself "a1" "t2" "u" true 5 store graph).1.0
closing_example =
    closing_stops_escalation itself "a1" "t2" "u" true 5 store graph {alert = alarm} refl refl refl

sharing_example :
    let after = (resolve itself "a1" "t2" "u" false 5 store graph).1.1 in
    ((y : GraphEntry) × (Graph.lookup itself "evil.example" after ≡ some y) × (actionable y ≡ true))
    × ((resolve itself "a1" "t2" "u" true 5 store graph).1.1 ≡ graph)
unfolding Graph.lookup reporters_of key_for
sharing_example =
    resolve_confirms itself "a1" "t2" "u" "evil.example" 5 store graph {alert = alarm} {e = entry}
      refl refl refl (λ same. ground (arith, text_comparable.equal_iff "evil.example" "")) refl refl
      refl (omega arith) refl
