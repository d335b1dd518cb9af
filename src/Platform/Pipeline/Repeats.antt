-- ===== src/Platform/Pipeline/Repeats.antt =====
-- A message that arrives twice is analysed once.
use envelockserver.Prelude.{
  String, ◌≡◌, refl, ◌∙◌, inl, inr, true, not, ◌||◌, Option, none, some, List, ◌∷◌, Bool-cases,
  ◌==◌, eq_refl, text_comparable, truthy, number_comparable,
}
use envelockserver.Risk.Engine.{is_alertable, FindingResult, RiskAssessment}
use envelockserver.Platform.Learning.{
  source_of, learn, MailEvent, StoredMessage, PipelineStore, PipelineRules, Event, mail,
}
use envelockserver.Platform.Pipeline.{
  store_message, is_same_id, stored_message, learn_from, is_stored, alert_if_due, analyse_new,
  is_duplicate, duplicate_result, analyse_event, Run,
}

module _ {V : Type 0} (rules : PipelineRules V)
    (judged : PipelineStore V → Event → List FindingResult × Option RiskAssessment) where
  learn_messages :
      (event : MailEvent) (store : PipelineStore V)
      → (learn rules event store).messages ≡ store.messages
  unfolding learn
  learn_messages event store =
      elim (Bool-cases
        (not event.is_inbound || rules.registrable_domain event.sender_domain == "")) [
          | inl nothing ↦ rw nothing refl
          | inr learned ↦ rw learned refl
        ]

  alert_messages :
      (run : Run) (event : Event) (findings : List FindingResult) (o : Option RiskAssessment)
      (store : PipelineStore V)
      → (alert_if_due rules judged run event findings o store).1.messages ≡ store.messages
  unfolding alert_if_due
  alert_messages run event findings none store = refl
  alert_messages run event findings (some a) store = elim (Bool-cases (is_alertable a)) [
    | inl due ↦ rw due refl
    | inr quiet ↦ rw quiet refl
  ]

  -- What is stored of a message after its analysis.
  new_messages :
      (run : Run) (event : MailEvent) (store : PipelineStore V)
      → (analyse_new rules judged run (mail event) store).1.messages
        ≡ stored_message event (judged store (mail event)).1 ∷ store.messages
  unfolding analyse_new learn_from store_message
  new_messages run event store =
      let (findings, assessment) = judged store (mail event) in
      learn_messages event _
      ∙ alert_messages run (mail event) findings assessment
          (store_message rules judged (mail event) assessment store)

-- A message with the mailbox and the identifier of `event` counts as stored once `event` is.
stored_twice :
    (event event' : MailEvent) (o : Option RiskAssessment) (messages : List StoredMessage)
    → truthy event.rfc_message_id ≡ true
    → event'.mailbox_id ≡ event.mailbox_id
    → event'.rfc_message_id ≡ event.rfc_message_id
    → is_duplicate (mail event') (stored_message event o ∷ messages) ≡ true
unfolding is_duplicate is_stored stored_message
stored_twice event event' o messages named same_box same_id =
    rw (same_box, same_id, named, eq_refl event.mailbox_id, same_name event.rfc_message_id named)
      refl
  where
    same_name : (name : Option String) → truthy name ≡ true → is_same_id name name ≡ true
    same_name none h = cc
    same_name (some text) h = unfold is_same_id in eq_refl text

still_stored :
    (event event' : MailEvent) (messages : List StoredMessage)
    → event'.mailbox_id ≡ event.mailbox_id
    → event'.rfc_message_id ≡ event.rfc_message_id
    → is_duplicate (mail event) messages ≡ true
    → is_duplicate (mail event') messages ≡ true
unfolding is_duplicate is_stored
still_stored event event' messages same_box same_id h = rw (same_box, same_id) h

-- A message that has an identifier leaves the rows such that each message of its mailbox with that identifier,
-- however it would be judged then and by whomever it is run, is passed over as a duplicate and changes no
-- row: it raises no second alert and is not learned from again.
pub analyse_event_again :
    {V : Type 0} (rules : PipelineRules V)
    (judged later : PipelineStore V → Event → List FindingResult × Option RiskAssessment)
    (run run' : Run) (event event' : MailEvent) (store : PipelineStore V)
    → truthy event.rfc_message_id ≡ true
    → event'.mailbox_id ≡ event.mailbox_id
    → event'.rfc_message_id ≡ event.rfc_message_id
    → analyse_event rules later run'
        (mail event')
        (analyse_event rules judged run (mail event) store).1
      ≡ (duplicate_result event'.source, (analyse_event rules judged run (mail event) store).1)
unfolding analyse_event source_of
analyse_event_again rules judged later run run' event event' store named same_box same_id =
    elim (Bool-cases (is_duplicate (mail event) store.messages)) [
      | inl again ↦ rw (again, still_stored event event' store.messages same_box same_id again) refl
      | inr fresh ↦
          let there =
            stored_twice event event' (judged store (mail event)).1 store.messages named same_box
              same_id in
          rw (fresh, new_messages rules judged run event store, there) refl
    ]
