-- ===== src/Platform/Alerts/Escalations.antt =====
-- The sweep over open alerts (`due_escalations`) against the rule of the ladder
-- (`admin_escalation_due`).
use envelockserver.Prelude.{
  ℕ, ◌+◌, ◌*◌, ◌≤◌, ◌≡◌, ◌↔◌, false, Option, none, some, List, [], ◌∷◌, map, arith, text_comparable,
  number_comparable, all,
}
use envelockserver.Prelude.Time.{minute}
use envelockserver.Core.Enums.{critical, alert_tier_eq, alert_tier_iff}
use envelockserver.Notify.Ladder.{Target, it_admin, all_admins, admin_escalation_due}
use envelockserver.Notify.Ladder.Escalation.{reach, admin_escalation_due_grows}
use envelockserver.Platform.Alerts.{Alert, EscalationStep, due_escalations}

abbrev pub targets : List EscalationStep → List Target
targets steps = map (λ (s : EscalationStep). s.to) steps

abbrev pub as_list : Option Target → List Target
as_list none = []
as_list (some t) = t ∷ []

by_reach :
    (o : Option Target) (now : ℕ) (alert : Alert)
    → alert.state ≡ "open"
    → alert.escalated_at ≡ none
    → (1 ≤ reach o) ↔ ((alert.tier ≡ critical) × (alert.created_at + 15 * minute ≤ now))
    → (2 ≤ reach o) ↔ ((alert.tier ≡ critical) × (alert.created_at + 60 * minute ≤ now))
    → targets (due_escalations none now (alert ∷ [])) ≡ as_list o
unfolding due_escalations
by_reach none now alert is_open fresh first all =
    rw (is_open, fresh) (ground (arith, alert_tier_iff alert.tier critical))
by_reach (some it_admin) now alert is_open fresh first all =
    rw (is_open, fresh) (ground (arith, alert_tier_iff alert.tier critical))
by_reach (some all_admins) now alert is_open fresh first all =
    rw (is_open, fresh) (ground (arith, alert_tier_iff alert.tier critical))

-- For an open alert that nobody was told of yet, the sweep names the circle of administrators that the
-- ladder asks for at that time, and nobody where it asks for nobody.
pub due_escalations_agree :
    (now : ℕ) (alert : Alert)
    → alert.state ≡ "open"
    → alert.escalated_at ≡ none
    → targets (due_escalations none now (alert ∷ []))
      ≡ as_list (admin_escalation_due alert.tier alert.created_at now false)
due_escalations_agree now alert is_open fresh =
    let (grows, first, all) =
      admin_escalation_due_grows alert.tier alert.created_at now now (omega arith) in
    by_reach (admin_escalation_due alert.tier alert.created_at now false) now alert is_open fresh
      first all
