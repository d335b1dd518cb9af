-- ===== src/Notify/Dispatch/Cycles.antt =====
-- A critical alert that nobody acknowledges for an hour is texted in every run of the cycle.
use envelockserver.Notify.Dispatch.Ignored.{
  keyed, is_step, alerts_of, due-is_step, mark_escalated-IsIgnored, IsIgnored,
}
use envelockserver.Notify.Ladder.{rung_eq}
use envelockserver.Prelude.{
  ℕ, ◌≤◌, String, ◌≡◌, refl, inl, inr, Bool, true, ◌&&◌, Option, none, some, List, [], ◌∷◌, ◌++◌,
  arith, Bool-cases, ◌==◌, eq_refl, text_comparable, number_comparable, All, any, all,
}
use envelockserver.Prelude.Dict.{lookup}
use envelockserver.Core.Enums.{
  source_mechanism_eq, mailbox_class_eq, protection_level_eq, alert_tier_eq, identity_event_kind_eq,
}
use envelockserver.Platform.Alerts.{due_escalations, Alert, Store, EscalationStep}
use envelockserver.Notify.Dispatch.{
  escalate_step, Senders, escalate_steps, run_escalation_cycle, User, TextMessage,
}

-- The call of the sender is about the alert and goes to the phone.
pub is_text : (id phone : String) → TextMessage → Bool
is_text id phone m = m.alert.id == id && m.to == phone

escalate_step-IsIgnored :
    (senders : Senders) (users : List User) (id phone : String) (now at : ℕ) (step : EscalationStep)
    (o : Option Alert) (store : Store)
    → IsIgnored id phone users now store
    → IsIgnored id phone users now (escalate_step senders users at step o store).0
unfolding escalate_step
escalate_step-IsIgnored senders users id phone now at step none store h = h
escalate_step-IsIgnored senders users id phone now at step (some a) store h =
    mark_escalated-IsIgnored id phone users now at step.alert_id a.tenant_id step.to store h

escalate_steps-IsIgnored :
    (senders : Senders) (users : List User) (id phone : String) (now at : ℕ)
    (steps : List EscalationStep) (store : Store)
    → IsIgnored id phone users now store
    → IsIgnored id phone users now (escalate_steps senders users at steps store).0
unfolding escalate_steps
escalate_steps-IsIgnored senders users id phone now at [] store h = h
escalate_steps-IsIgnored senders users id phone now at (step ∷ steps) store h =
    escalate_steps-IsIgnored senders users id phone now at steps
      (escalate_step senders users at step (lookup step.alert_id store.alerts) store).0
      (escalate_step-IsIgnored senders users id phone now at step
        (lookup step.alert_id store.alerts) store h)

any-append_left {ℓ} :
    {A : Type ℓ} → (p : A → Bool) (xs ys : List A) → any p xs ≡ true → any p (xs ++ ys) ≡ true
any-append_left p [] ys h = cc
any-append_left p (x ∷ xs) ys h = ground (arith, any-append_left p xs ys)

any-append_right {ℓ} :
    {A : Type ℓ} → (p : A → Bool) (xs ys : List A) → any p ys ≡ true → any p (xs ++ ys) ≡ true
any-append_right p [] ys h = h
any-append_right p (x ∷ xs) ys h = ground (arith, any-append_right p xs ys h)

escalate_step-is_text :
    (senders : Senders) (users : List User) (id phone : String) (now at : ℕ) (step : EscalationStep)
    (store : Store)
    → IsIgnored id phone users now store
    → is_step id step ≡ true
    → any
        (is_text id phone)
        (escalate_step senders users at step (lookup step.alert_id store.alerts) store).1.1
      ≡ true
unfolding escalate_step is_step is_text
escalate_step-is_text senders users id phone now at step store h same =
    let key = (text_comparable.equal_iff step.alert_id id).0 same in
    let named = keyed id store.alerts h.alert h.keys h.stored in
    rw (key, h.stored, h.admin) (rw (named, eq_refl id, eq_refl phone) refl)

escalate_steps-is_text :
    (senders : Senders) (users : List User) (id phone : String) (now at : ℕ)
    (steps : List EscalationStep) (store : Store)
    → IsIgnored id phone users now store
    → any (is_step id) steps ≡ true
    → any (is_text id phone) (escalate_steps senders users at steps store).1.1 ≡ true
unfolding escalate_steps
escalate_steps-is_text senders users id phone now at [] store h among = cc
escalate_steps-is_text senders users id phone now at (step ∷ steps) store h among =
    let first = escalate_step senders users at step (lookup step.alert_id store.alerts) store in
    elim (Bool-cases (is_step id step)) [
      | inl same ↦
          any-append_left (is_text id phone) first.1.1 _
            (escalate_step-is_text senders users id phone now at step store h same)
      | inr other ↦ any-append_right (is_text id phone) first.1.1 _ (
          escalate_steps-is_text senders users id phone now at steps first.0
            (escalate_step-IsIgnored senders users id phone now at step
              (lookup step.alert_id store.alerts) store h)
            (ground arith))
    ]

-- Which calls of the paid sender each of the runs at the given times made.
pub runs : Senders → List User → List ℕ → Store → List (List TextMessage)
runs senders users [] store = []
runs senders users (at ∷ times) store =
    let (store', (done, calls)) = run_escalation_cycle senders users none at store in
    calls ∷ runs senders users times store'

-- Where a critical alert is open, at least an hour old at time `now` and stored, as every alert, under its
-- number, and the first administrator of its tenant with a proved phone has the phone `phone`, each run in
-- a sequence of runs of the cycle from `now` on, with nothing in between, calls the text sender about that
-- alert and with that phone again, however often the alert was escalated before and whatever the senders
-- answer.
pub runs-all_text :
    (senders : Senders) (users : List User) (id phone : String) (now : ℕ) (times : List ℕ)
    (store : Store)
    → IsIgnored id phone users now store
    → All (λ at. now ≤ at) times
    → all (λ calls. any (is_text id phone) calls) (runs senders users times store) ≡ true
unfolding runs run_escalation_cycle
runs-all_text senders users id phone now [] store h later = refl
runs-all_text senders users id phone now (at ∷ times) store h later =
    let steps = due_escalations none at (alerts_of store.alerts) in
    let among =
      due-is_step id at store.alerts h.alert h.stored
        (keyed id store.alerts h.alert h.keys h.stored) h.is_open h.is_critical
        (omega (arith, h.old, later.0)) in
    rw
      (
        escalate_steps-is_text senders users id phone now at steps store h among,
        runs-all_text senders users id phone now times
            (escalate_steps senders users at steps store).0
            (escalate_steps-IsIgnored senders users id phone now at steps store h) later.1,
      )
      refl
