-- ===== src/Notify/Dispatch/Ignored.antt =====
-- An alert that nobody acknowledges is due in every sweep and stays so when it is escalated.
use mathlib.Core.Path.{subst}
use mathlib.Core.Option.{some-injective}
use envelockserver.Notify.Ladder.{rung_eq, Target}
use envelockserver.Prelude.{
  ℕ, ◌+◌, ◌-◌, ◌*◌, ◌/◌, ◌≤◌, String, ◌≡◌, refl, sym, ap, ◌∙◌, inl, inr, Bool, true, Option, none,
  some, List, [], ◌∷◌, map, arith, leb, Bool-cases, ◌==◌, eq_refl, text_comparable,
  number_comparable, All, any,
}
use envelockserver.Prelude.Time.{second, minute}
use envelockserver.Prelude.Dict.{Dict, lookup, insert, lookup-insert}
use envelockserver.Core.Enums.{
  source_mechanism_eq, mailbox_class_eq, protection_level_eq, alert_tier_eq, identity_event_kind_eq,
  critical,
}
use envelockserver.Platform.Alerts.{
  record_audit, due_escalations, mark_row, mark_escalated, Alert, Store, EscalationStep,
}
use envelockserver.Notify.Dispatch.{sms_destination, User}

-- Every alert stands under its number.
abbrev pub IsKeyed : Dict String Alert → Type 0
IsKeyed d = All (λ (e : String × Alert). e.1.id ≡ e.0) d

pub keyed :
    (k : String) (d : Dict String Alert) (a : Alert) → IsKeyed d → lookup k d ≡ some a → a.id ≡ k
keyed k [] a h found = cc
keyed k ((j, b) ∷ d) a h found = elim (Bool-cases (j == k)) [
  | inl here ↦
      let held : b ≡ a = some-injective _ _ (rw here at found) in
      ap (λ (c : Alert). c.id) (sym held) ∙ h.0 ∙ (text_comparable.equal_iff j k).0 here
  | inr there ↦ keyed k d a h.1 (rw there at found)
]

insert-IsKeyed :
    (k : String) (d : Dict String Alert) (a : Alert) → IsKeyed d → a.id ≡ k → IsKeyed (insert k a d)
insert-IsKeyed k [] a h same = (same, tt)
insert-IsKeyed k ((j, b) ∷ d) a h same = elim (Bool-cases (j == k)) [
  | inl here ↦ rw here (same, h.1)
  | inr there ↦ rw there (h.0, insert-IsKeyed k d a h.1 same)
]

-- The alert `id` is open, critical and at least an hour old, whether it was escalated before or not, and an
-- administrator of its tenant has proved the phone `phone`.
pub record IsIgnored (id phone : String) (users : List User) (now : ℕ) (store : Store)
    : Type 0 where
  pub alert : Alert
  pub stored : lookup id store.alerts ≡ some alert
  pub keys : IsKeyed store.alerts
  pub is_open : alert.state ≡ "open"
  pub is_critical : alert.tier ≡ critical
  pub old : alert.created_at + 60 * minute ≤ now
  pub admin : sms_destination alert.tenant_id users ≡ some phone

unfoldable pub is_step : String → EscalationStep → Bool
is_step id step = step.alert_id == id

abbrev pub alerts_of : Dict String Alert → List Alert
alerts_of d = map (λ (e : String × Alert). e.1) d

hour_old :
    (now created : ℕ) → created + 60 * minute ≤ now → leb 60 ((now - created) / second / 60) ≡ true
hour_old now created old = ground arith

pub due-is_step :
    (id : String) (now : ℕ) (d : Dict String Alert) (alert : Alert)
    → lookup id d ≡ some alert
    → alert.id ≡ id
    → alert.state ≡ "open"
    → alert.tier ≡ critical
    → alert.created_at + 60 * minute ≤ now
    → any (is_step id) (due_escalations none now (alerts_of d)) ≡ true
unfolding due_escalations is_step
due-is_step id now [] alert stored same is_open is_critical old = cc
due-is_step id now ((k, a) ∷ d) alert stored same is_open is_critical old =
    elim (Bool-cases (k == id)) [
      | inl here ↦
          let held : a ≡ alert = some-injective _ _ (rw here at stored) in
          let sixty = hour_old now alert.created_at old in
          rw (held, is_open, is_critical, sixty) (rw (same, eq_refl id) refl)
      | inr there ↦
          let rest = due-is_step id now d alert (rw there at stored) same is_open is_critical old in
          ground (arith, rest)
    ]

-- Marking an alert as escalated changes no other alert, and of that one only the time.
pub mark_escalated-IsIgnored :
    (id phone : String) (users : List User) (now at : ℕ) (other tenant : String) (to : Target)
    (store : Store)
    → IsIgnored id phone users now store
    → IsIgnored id phone users now (mark_escalated other tenant to at store)
unfolding mark_escalated record_audit
mark_escalated-IsIgnored id phone users now at other tenant to store h =
    by_row (lookup other store.alerts) refl
  where
    marked :
        (row : Alert)
        → row.id ≡ other
        → lookup other store.alerts ≡ some row
        → IsIgnored id phone users now (mark_row (some row) tenant to at store)
    marked row key found = elim (Bool-cases (row.id == id)) [
      | inl same ↦
          let there : other ≡ id = sym key ∙ (text_comparable.equal_iff row.id id).0 same in
          let one : h.alert ≡ row =
            some-injective _ _
              (sym h.stored ∙ ap (λ k. lookup k store.alerts) (sym there) ∙ found) in
          unfold mark_row in
          record {
            alert = record row { escalated_at = some at };
            stored =
                lookup-insert row.id id (record row { escalated_at = some at }) store.alerts
                ∙ (rw same refl);
            keys =
                insert-IsKeyed row.id store.alerts (record row { escalated_at = some at }) h.keys
                  refl;
            is_open = ap (λ (c : Alert). c.state) (sym one) ∙ h.is_open;
            is_critical = ap (λ (c : Alert). c.tier) (sym one) ∙ h.is_critical;
            old = subst (λ (c : Alert). c.created_at + 60 * minute ≤ now) one h.old;
            admin = ap (λ (c : Alert). sms_destination c.tenant_id users) (sym one) ∙ h.admin;
          }
      | inr differ ↦
          unfold mark_row in
          record {
            alert = h.alert;
            stored =
                lookup-insert row.id id (record row { escalated_at = some at }) store.alerts
                ∙ (rw differ h.stored);
            keys =
                insert-IsKeyed row.id store.alerts (record row { escalated_at = some at }) h.keys
                  refl;
            is_open = h.is_open;
            is_critical = h.is_critical;
            old = h.old;
            admin = h.admin;
          }
    ]

    by_row :
        (o : Option Alert)
        → lookup other store.alerts ≡ o
        → IsIgnored id phone users now (mark_row o tenant to at store)
    by_row none found = unfold mark_row in h
    by_row (some row) found =
        let key = keyed other store.alerts row h.keys found in
        unfold mark_row in marked row key found
