-- ===== src/Notify/Dispatch/Once.antt =====
-- A delivery is attempted once.
use envelockserver.Prelude.{
  String, ◌≡◌, refl, inl, inr, false, Option, none, some, List, [], ◌∷◌, Bool-cases, ◌==◌,
  text_comparable, number_comparable,
}
use envelockserver.Prelude.Dict.{lookup}
use envelockserver.Platform.Alerts.{Alert}
use envelockserver.Notify.Dispatch.{
  push_keys, has_text, destination, skip, send_alert, is_pending, send_to, record_result, Senders,
  selected, deliver_pending, NotificationDelivery, SendResult, Directory,
}

skip-is_pending :
    (reason : String) (row : NotificationDelivery) → is_pending (skip reason row).status ≡ false
unfolding skip is_pending
skip-is_pending reason row = refl

record_result-is_pending :
    (result : SendResult) (row : NotificationDelivery)
    → is_pending (record_result result row).status ≡ false
unfolding record_result is_pending
record_result-is_pending result row = elim (Bool-cases result.delivered) [
  | inl there ↦ rw there refl
  | inr lost ↦ elim (Bool-cases (has_text "not configured" result.reason)) [
    | inl unset ↦ rw (lost, unset) refl
    | inr broken ↦ rw (lost, broken) refl
  ]
]

send_to-is_pending :
    (senders : Senders) (dir : Directory) (row : NotificationDelivery) (alert : Alert)
    (to : Option String)
    → is_pending (send_to senders dir row alert to).status ≡ false
unfolding send_to
send_to-is_pending senders dir row alert none = skip-is_pending "no destination" row
send_to-is_pending senders dir row alert (some to) = elim (Bool-cases (to == "")) [
  | inl empty ↦ rw empty (skip-is_pending "no destination" row)
  | inr full ↦
      rw full (record_result-is_pending (senders row.rung alert to (push_keys dir row)) row)
]

send_alert-is_pending :
    (senders : Senders) (dir : Directory) (row : NotificationDelivery) (o : Option Alert)
    → is_pending (send_alert senders dir row o).status ≡ false
unfolding send_alert
send_alert-is_pending senders dir row none = skip-is_pending "alert gone" row
send_alert-is_pending senders dir row (some alert) =
    send_to-is_pending senders dir row alert (destination dir row.rung row.user_id)

-- A row that was attempted is not selected again, under any query.
attempted :
    (a t : Option String) (row : NotificationDelivery)
    → is_pending row.status ≡ false
    → selected a t row ≡ false
unfolding selected
attempted a t row h = rw h refl

-- However the senders answer and whatever the tables hold at either time, a run of the same query after a
-- run touches nothing: no delivery is attempted twice.
pub deliver_pending_once :
    (senders later : Senders) (dir dir' : Directory) (a t : Option String)
    (rows : List NotificationDelivery)
    → deliver_pending later dir' a t (deliver_pending senders dir a t rows).0
      ≡ ((deliver_pending senders dir a t rows).0, [])
unfolding deliver_pending
deliver_pending_once senders later dir dir' a t [] = refl
deliver_pending_once senders later dir dir' a t (row ∷ rows) =
    let done = send_alert senders dir row (lookup row.alert_id dir.alerts) in
    let finished : selected a t done ≡ false =
      attempted a t done (send_alert-is_pending senders dir row (lookup row.alert_id dir.alerts)) in
    let rest = deliver_pending_once senders later dir dir' a t rows in
    elim (Bool-cases (selected a t row)) [
      | inl chosen ↦ rw (chosen, finished, rest) refl
      | inr other ↦ rw (other, rest) (rw other refl)
    ]
