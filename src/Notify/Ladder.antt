-- ===== src/Notify/Ladder.antt =====
-- src/envelock/notify/ladder.py: which rungs of the notification ladder an alert uses. The texts of
-- `reason` are the constructors of `Reason`.
pub mod Rungs
pub mod Escalation
mod Examples
use envelockserver.Prelude.{
  ℕ, zero, suc, ◌+◌, ◌*◌, ◌/◌, String, ◌≡◌, refl, ◌↔◌, Bool, true, not, ◌&&◌, ◌||◌, Option, none,
  some, List, [], ◌∷◌, ◌++◌, leb, nat_beq, if◌then◌else◌, ◌==◌, number_comparable, text_comparable,
  truthy, coded_iff, Comparable,
}
use envelockserver.Prelude.Time.{second, minute}
use envelockserver.Core.Enums.{
  source_mechanism_eq, mailbox_class_eq, protection_level_eq, alert_tier_eq, identity_event_kind_eq,
  AlertTier, medium, high, critical,
}

pub data Rung : Type 0 where
  in_app push email sms : Rung

abbrev pub rung_code : Rung → ℕ
rung_code in_app = 0
rung_code push = 1
rung_code email = 2
rung_code sms = 3

rung_decode : ℕ → Option Rung
rung_decode zero = some in_app
rung_decode (suc zero) = some push
rung_decode (suc (suc zero)) = some email
rung_decode (suc (suc (suc zero))) = some sms
rung_decode _ = none

rung_back : (a : Rung) → rung_decode (rung_code a) ≡ some a
unfolding rung_decode
rung_back in_app = refl
rung_back push = refl
rung_back email = refl
rung_back sms = refl

pub rung_iff : (a b : Rung) → (nat_beq (rung_code a) (rung_code b) ≡ true) ↔ (a ≡ b)
rung_iff = coded_iff rung_code rung_decode rung_back

instance abbrev pub rung_eq : Comparable Rung
rung_eq = record { equal = λ a b. nat_beq (rung_code a) (rung_code b); equal_iff = rung_iff }

pub record Recipient : Type 0 where
  pub user_id : String
  pub is_admin : Bool
  pub has_push_subscription : Bool
  pub out_of_band_email : Option String
  pub phone : Option String
  pub has_sensor : Bool

pub data Reason : Type 0 where
  always high_or_critical no_sensor : Reason
  unacknowledged_minutes : ℕ → Reason
  unacknowledged_count : ℕ → Reason

pub record LadderDecision : Type 0 where
  pub rungs : List Rung
  pub reason : Reason

pub record EscalationPolicy : Type 0 where
  pub critical_after_seconds : ℕ
  pub unacked_count : ℕ

abbrev default_policy : EscalationPolicy
default_policy = record { critical_after_seconds = 900; unacked_count = 5 }

pub initial_rungs : AlertTier → Recipient → LadderDecision
initial_rungs tier recipient =
    let pushes =
      (tier == medium || tier == high || tier == critical) && recipient.has_push_subscription in
    let emails = (tier == high || tier == critical) && truthy recipient.out_of_band_email in
    let pays = tier == critical && not recipient.has_sensor && truthy recipient.phone in
    record {
      rungs =
          in_app
          ∷ ((if pushes then push ∷ [] else [])
              ++ ((if emails then email ∷ [] else []) ++ (if pays then sms ∷ [] else [])));
      reason = if pays then no_sensor else if emails then high_or_critical else always;
    }

policy_or : Option EscalationPolicy → EscalationPolicy
policy_or none = default_policy
policy_or (some policy) = policy

-- `now - raised_at >= delta` is written without the subtraction.
pub should_escalate_to_sms :
    AlertTier
    → (raised_at now : ℕ) (acknowledged : Bool) (unacked_total : ℕ) → Recipient
    → Option EscalationPolicy
    → Option LadderDecision
unfolding policy_or
should_escalate_to_sms tier raised_at now acknowledged unacked_total recipient given =
    let policy = policy_or given in
    if acknowledged || not (truthy recipient.phone)
    then none
    else if tier == critical && leb (raised_at + policy.critical_after_seconds * second) now
    then some (record {
      rungs = sms ∷ [];
      reason = unacknowledged_minutes (policy.critical_after_seconds / 60);
    })
    else if leb policy.unacked_count unacked_total
    then some (record { rungs = sms ∷ []; reason = unacknowledged_count unacked_total })
    else none

pub data Target : Type 0 where
  it_admin all_admins : Target

pub admin_escalation_due : AlertTier → (raised_at now : ℕ) (acknowledged : Bool) → Option Target
admin_escalation_due tier raised_at now acknowledged =
    if acknowledged || not (tier == critical)
    then none
    else if leb (raised_at + 60 * minute) now
    then some all_admins
    else if leb (raised_at + 15 * minute) now
    then some it_admin
    else none
