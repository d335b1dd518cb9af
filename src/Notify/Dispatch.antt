-- ===== src/Notify/Dispatch.antt =====
-- notify/dispatch.py: the queued deliveries of alerts are sent, and ignored critical alerts are escalated.
-- The senders (notify/senders.py) are one function, from a rung, an alert, a destination and the keys of a
-- push subscription to a result. A row has a rung of the ladder.
pub mod Once
pub mod Ignored
pub mod Cycles
mod Examples
use envelockserver.Prelude.{
  ℕ, ◌+◌, String, Bool, true, false, not, ◌&&◌, Option, none, some, List, [], ◌∷◌, ◌++◌, map,
  if◌then◌else◌, ◌==◌, text_comparable, truthy, number_comparable,
}
use envelockserver.Prelude.Text.{has_text}
use envelockserver.Prelude.Dict.{Dict, lookup}
use envelockserver.Notify.Ladder.{Target, Rung, in_app, push, email, sms, rung_eq}
use envelockserver.Platform.Alerts.{Alert, Store, EscalationStep, due_escalations, mark_escalated}

pub data DeliveryStatus : Type 0 where
  pending sent skipped failed : DeliveryStatus

pub record NotificationDelivery : Type 0 where
  pub alert_id : String
  pub tenant_id : String
  pub user_id : Option String
  pub rung : Rung
  pub status : DeliveryStatus
  pub error : Option String
  pub cost_micros : ℕ

pub record User : Type 0 where
  pub id : String
  pub tenant_id : String
  pub is_admin : Bool
  pub out_of_band_email : Option String
  pub phone : Option String
  pub phone_verified : Bool

pub record PushSubscription : Type 0 where
  pub user_id : String
  pub endpoint : String
  pub p256dh : String
  pub auth : String

pub record SendResult : Type 0 where
  pub delivered : Bool
  pub reason : String
  pub cost_micros : ℕ

-- The rows that a delivery reads.
pub record Directory : Type 0 where
  pub alerts : Dict String Alert
  pub users : Dict String User
  pub subscriptions : List PushSubscription

abbrev pub Senders : Type 0
Senders = Rung → Alert → (to : String) → (keys : Option (String × String)) → SendResult

find_subscription : String → List PushSubscription → Option PushSubscription
find_subscription user_id [] = none
find_subscription user_id (s ∷ rest) =
    if s.user_id == user_id then some s else find_subscription user_id rest

subscription_of : Directory → Option String → Option PushSubscription
unfolding find_subscription
subscription_of dir none = none
subscription_of dir (some user_id) = find_subscription user_id dir.subscriptions

endpoint_of : Option PushSubscription → Option String
endpoint_of none = none
endpoint_of (some s) = some s.endpoint

keys_of : Option PushSubscription → Option (String × String)
keys_of none = none
keys_of (some s) = some (s.p256dh, s.auth)

user_of : Directory → Option String → Option User
user_of dir none = none
user_of dir (some user_id) = lookup user_id dir.users

email_of : Option User → Option String
email_of none = none
email_of (some user) = user.out_of_band_email

phone_of : Option User → Option String
phone_of none = none
phone_of (some user) = user.phone

dashboard : Option String → String
dashboard none = "dashboard"
dashboard (some user_id) = user_id

-- `_destination`, for a delivery on the given rung.
destination : Directory → Rung → Option String → Option String
unfolding subscription_of endpoint_of user_of email_of phone_of dashboard
destination dir in_app user_id = some (dashboard user_id)
destination dir email user_id = email_of (user_of dir user_id)
destination dir sms user_id = phone_of (user_of dir user_id)
destination dir push user_id = endpoint_of (subscription_of dir user_id)

skip : String → NotificationDelivery → NotificationDelivery
skip reason row = record row { status = skipped; error = some reason }

record_result : SendResult → NotificationDelivery → NotificationDelivery
record_result result row =
    if result.delivered
    then record row { status = sent; cost_micros = result.cost_micros; error = none }
    else record row {
      status = if has_text "not configured" result.reason then skipped else failed;
      error = some result.reason;
    }

push_keys : Directory → NotificationDelivery → Option (String × String)
unfolding subscription_of keys_of
push_keys dir row = if row.rung == push then keys_of (subscription_of dir row.user_id) else none

send_to : Senders → Directory → NotificationDelivery → Alert → Option String → NotificationDelivery
unfolding skip record_result push_keys
send_to senders dir row alert none = skip "no destination" row
send_to senders dir row alert (some to) =
    if to == ""
    then skip "no destination" row
    else record_result (senders row.rung alert to (push_keys dir row)) row

send_alert : Senders → Directory → NotificationDelivery → Option Alert → NotificationDelivery
unfolding send_to destination skip
send_alert senders dir row none = skip "alert gone" row
send_alert senders dir row (some alert) =
    send_to senders dir row alert (destination dir row.rung row.user_id)

is_pending : DeliveryStatus → Bool
is_pending pending = true
is_pending _ = false

matches : Option String → String → Bool
matches none value = true
matches (some wanted) value = value == wanted

-- The rows that the query selects.
pub selected : (alert_id tenant_id : Option String) → NotificationDelivery → Bool
unfolding is_pending matches
selected alert_id tenant_id row =
    is_pending row.status && matches alert_id row.alert_id && matches tenant_id row.tenant_id

-- The rows afterwards, and those that were touched.
pub deliver_pending :
    Senders
    → Directory
    → (alert_id tenant_id : Option String) → List NotificationDelivery
    → List NotificationDelivery × List NotificationDelivery
unfolding selected send_alert
deliver_pending senders dir alert_id tenant_id [] = ([], [])
deliver_pending senders dir alert_id tenant_id (row ∷ rows) =
    let (after, touched) = deliver_pending senders dir alert_id tenant_id rows in
    let done = send_alert senders dir row (lookup row.alert_id dir.alerts) in
    if selected alert_id tenant_id row
    then (done ∷ after, done ∷ touched)
    else (row ∷ after, touched)

-- The phone of the first administrator of the tenant who has proved one.
pub sms_destination : (tenant_id : String) → List User → Option String
sms_destination tenant_id [] = none
sms_destination tenant_id (user ∷ users) =
    if user.tenant_id == tenant_id && user.is_admin && truthy user.phone && user.phone_verified
    then user.phone
    else sms_destination tenant_id users

pub record EscalationDone : Type 0 where
  pub alert_id : String
  pub to : Target
  pub minutes_open : ℕ
  pub sms_sent : Bool

-- One call of the paid sender: about which alert, and to which number.
pub record TextMessage : Type 0 where
  pub alert : Alert
  pub to : String

-- `dispatcher.sms.send`: what the sender answers, and the call as it was made.
send_sms : Senders → Alert → (to : String) → SendResult × List TextMessage
send_sms senders alert to = (senders sms alert to none, record { alert = alert; to = to } ∷ [])

text_admin : Senders → Alert → Option String → Bool × List TextMessage
unfolding send_sms
text_admin senders alert none = (false, [])
text_admin senders alert (some to) =
    let (result, calls) = send_sms senders alert to in (result.delivered, calls)

escalate_step :
    Senders
    → List User
    → (now : ℕ) → EscalationStep
    → Option Alert
    → Store
    → Store × (List EscalationDone × List TextMessage)
unfolding sms_destination text_admin
escalate_step senders users now step none store = (store, ([], []))
escalate_step senders users now step (some alert) store =
    let (sent_sms, calls) = text_admin senders alert (sms_destination alert.tenant_id users) in
    (
      mark_escalated step.alert_id alert.tenant_id step.to now store,
      (
        record {
          alert_id = step.alert_id;
          to = step.to;
          minutes_open = step.minutes_open;
          sms_sent = sent_sms;
        }
            ∷ [],
        calls,
      ),
    )

pub escalate_steps :
    Senders
    → List User
    → (now : ℕ) → List EscalationStep
    → Store
    → Store × (List EscalationDone × List TextMessage)
unfolding escalate_step
escalate_steps senders users now [] store = (store, ([], []))
escalate_steps senders users now (step ∷ steps) store =
    let (store', (first, calls)) =
      escalate_step senders users now step (lookup step.alert_id store.alerts) store in
    let (store'', (others, more)) = escalate_steps senders users now steps store' in
    (store'', (first ++ others, calls ++ more))

-- The store afterwards, what was done for each step, and the calls of the paid sender in their order.
pub run_escalation_cycle :
    Senders
    → List User
    → (tenant_id : Option String) → (now : ℕ) → Store
    → Store × (List EscalationDone × List TextMessage)
unfolding escalate_steps
run_escalation_cycle senders users tenant_id now store =
    escalate_steps senders users now
      (due_escalations tenant_id now (map (λ (e : String × Alert). e.1) store.alerts)) store
