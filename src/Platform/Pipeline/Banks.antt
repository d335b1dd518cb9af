-- ===== src/Platform/Pipeline/Banks.antt =====
-- Which bank details a tenant's rows hold of a counterparty, and which of them count as known.
use envelockserver.Platform.Learning.Records.{
  banks_of, learn_banks-kept, learn_banks-first, known_bank_ids_same,
}
use envelockserver.Prelude.Dict.{lookup, lookup-insert}
use envelockserver.Prelude.{
  String, ◌≡◌, refl, ap, ◌∙◌, inl, inr, true, false, not, ◌||◌, Option, none, some, List, map,
  arith, is_some, Bool-cases, ◌==◌, text_comparable, number_comparable, filter, any,
}
use envelockserver.Risk.Engine.{is_alertable, FindingResult, RiskAssessment}
use envelockserver.Platform.Learning.{
  learn_text, add_dkim, seen_again, is_of, new_bank, known_bank_ids, learn, MailEvent,
  PipelineStore, PipelineRules, Event, mail,
}
use envelockserver.Platform.Pipeline.{
  learn_from, analyse_new, store_message, alert_if_due, is_duplicate, analyse_event, Run,
}

module _ {V : Type 0} (rules : PipelineRules V)
    (judged : PipelineStore V → Event → List FindingResult × Option RiskAssessment) where
  alert_banks :
      (run : Run) (event : Event) (findings : List FindingResult) (o : Option RiskAssessment)
      (store : PipelineStore V)
      → (alert_if_due rules judged run event findings o store).1.bank_records ≡ store.bank_records
  unfolding alert_if_due
  alert_banks run event findings none store = refl
  alert_banks run event findings (some a) store = elim (Bool-cases (is_alertable a)) [
    | inl due ↦ rw due refl
    | inr quiet ↦ rw quiet refl
  ]

  stored_banks :
      (event : MailEvent) (o : Option RiskAssessment) (store : PipelineStore V)
      → (store_message rules judged (mail event) o store).bank_records ≡ store.bank_records
  unfolding store_message
  stored_banks event o store = refl

  alert_rows :
      (run : Run) (event : Event) (findings : List FindingResult) (o : Option RiskAssessment)
      (store : PipelineStore V)
      → (alert_if_due rules judged run event findings o store).1.counterparties
        ≡ store.counterparties
  unfolding alert_if_due
  alert_rows run event findings none store = refl
  alert_rows run event findings (some a) store = elim (Bool-cases (is_alertable a)) [
    | inl due ↦ rw due refl
    | inr quiet ↦ rw quiet refl
  ]

  stored_rows :
      (event : MailEvent) (o : Option RiskAssessment) (store : PipelineStore V)
      → (store_message rules judged (mail event) o store).counterparties ≡ store.counterparties
  unfolding store_message
  stored_rows event o store = refl

  learn_rows :
      (d : String) (event : MailEvent) (store : PipelineStore V)
      → is_some (lookup d store.counterparties) ≡ true
      → is_some (lookup d (learn rules event store).counterparties) ≡ true
  unfolding learn
  learn_rows d event store there =
      elim (Bool-cases
        (not event.is_inbound || rules.registrable_domain event.sender_domain == "")) [
          | inl nothing ↦ rw nothing there
          | inr learned ↦ rw learned (
              ground (
                arith,
                lookup-insert (rules.registrable_domain event.sender_domain) d
                    (add_dkim event.dkim_domain (
                      seen_again event (
                        lookup (rules.registrable_domain event.sender_domain)
                          store.counterparties)))
                    store.counterparties,
              ))
        ]

  -- The rows of which an analysis of a mail learns, and that they hold the same bank details as before.
  learned_rows :
      (run : Run) (event : MailEvent) (store : PipelineStore V)
      → (rows : PipelineStore V) × ((analyse_new rules judged run (mail event) store).1
          ≡ learn rules event rows)
        × (rows.bank_records ≡ store.bank_records)
        × (rows.counterparties ≡ store.counterparties)
  unfolding analyse_new learn_from
  learned_rows run event store =
      let (findings, assessment) = judged store (mail event) in
      let kept = store_message rules judged (mail event) assessment store in
      (
        (alert_if_due rules judged run (mail event) findings assessment kept).1,
        refl,
        alert_banks run (mail event) findings assessment kept ∙ stored_banks event assessment store,
        alert_rows run (mail event) findings assessment kept ∙ stored_rows event assessment store,
      )

  learn-kept :
      (d : String) (event : MailEvent) (store : PipelineStore V)
      → any (is_of d) store.bank_records ≡ true
      → banks_of d (learn rules event store) ≡ banks_of d store
  unfolding learn
  learn-kept d event store known =
      elim (Bool-cases
        (not event.is_inbound || rules.registrable_domain event.sender_domain == "")) [
          | inl nothing ↦ rw nothing refl
          | inr learned ↦ rw learned (
              learn_banks-kept d (rules.registrable_domain event.sender_domain) event
                (rules.extract_bank_identifiers (learn_text event)) store.bank_records known)
        ]

  analyse_new-kept :
      (run : Run) (event : MailEvent) (store : PipelineStore V) (d : String)
      → any (is_of d) store.bank_records ≡ true
      → banks_of d (analyse_new rules judged run (mail event) store).1 ≡ banks_of d store
  analyse_new-kept run event store d known =
      let (rows, after, same, _) = learned_rows run event store in
      ap (λ s. banks_of d s) after
      ∙ learn-kept d event rows (ap (λ r. any (is_of d) r) same ∙ known)
      ∙ ap (λ r. filter (is_of d) r) same

  analyse_new_rows :
      (run : Run) (event : MailEvent) (store : PipelineStore V) (d : String)
      → is_some (lookup d store.counterparties) ≡ true
      → is_some (lookup d (analyse_new rules judged run (mail event) store).1.counterparties) ≡ true
  analyse_new_rows run event store d there =
      let (rows, after, _, same) = learned_rows run event store in
      ap (λ (s : PipelineStore V). is_some (lookup d s.counterparties)) after
      ∙ learn_rows d event rows (ap (λ c. is_some (lookup d c)) same ∙ there)

  -- Where a counterparty has a row and any bank record, in use or not, an analysis of a mail of whatever
  -- sender leaves its bank records as they are, and so the identifiers of those in use, which are what the
  -- context of its next message holds as known.
  pub analyse_event_keeps_banks :
      (run : Run) (event : MailEvent) (store : PipelineStore V) (d : String)
      → is_some (lookup d store.counterparties) ≡ true
      → any (is_of d) store.bank_records ≡ true
      → let after = (analyse_event rules judged run (mail event) store).1 in
        (banks_of d after ≡ banks_of d store) × (known_bank_ids d after ≡ known_bank_ids d store)
  unfolding analyse_event
  analyse_event_keeps_banks run event store d there known =
      elim (Bool-cases (is_duplicate (mail event) store.messages)) [
        | inl again ↦ rw again (refl, refl)
        | inr fresh ↦
            let kept = analyse_new-kept run event store d known in
            rw fresh (
              kept,
              known_bank_ids_same d store _ kept there (analyse_new_rows run event store d there),
            )
      ]

  learn-first :
      (event : MailEvent) (store : PipelineStore V)
      → event.is_inbound ≡ true
      → (rules.registrable_domain event.sender_domain == "") ≡ false
      → any (is_of (rules.registrable_domain event.sender_domain)) store.bank_records ≡ false
      → banks_of (rules.registrable_domain event.sender_domain) (learn rules event store)
        ≡ map
            (new_bank (rules.registrable_domain event.sender_domain) event)
            (rules.extract_bank_identifiers (learn_text event))
  unfolding learn
  learn-first event store inbound named lacks =
      let skipped : (not event.is_inbound || rules.registrable_domain event.sender_domain == "")
          ≡ false =
        ground arith in
      rw skipped (
        learn_banks-first (rules.registrable_domain event.sender_domain) event
          (rules.extract_bank_identifiers (learn_text event)) store.bank_records lacks)

  analyse_new-first :
      (run : Run) (event : MailEvent) (store : PipelineStore V)
      → event.is_inbound ≡ true
      → (rules.registrable_domain event.sender_domain == "") ≡ false
      → any (is_of (rules.registrable_domain event.sender_domain)) store.bank_records ≡ false
      → banks_of
          (rules.registrable_domain event.sender_domain)
          (analyse_new rules judged run (mail event) store).1
        ≡ map
            (new_bank (rules.registrable_domain event.sender_domain) event)
            (rules.extract_bank_identifiers (learn_text event))
  analyse_new-first run event store inbound named lacks =
      let domain = rules.registrable_domain event.sender_domain in
      let (rows, after, same, _) = learned_rows run event store in
      ap (λ s. banks_of domain s) after
      ∙ learn-first event rows inbound named (ap (λ r. any (is_of domain) r) same ∙ lacks)

  -- From the first inbound message of a counterparty with no record all bank details are taken over, whatever
  -- the findings and the assessment of that message are, an alert included.
  pub analyse_event_learns_flagged :
      (run : Run) (event : MailEvent) (store : PipelineStore V)
      → is_duplicate (mail event) store.messages ≡ false
      → event.is_inbound ≡ true
      → (rules.registrable_domain event.sender_domain == "") ≡ false
      → any (is_of (rules.registrable_domain event.sender_domain)) store.bank_records ≡ false
      → banks_of
          (rules.registrable_domain event.sender_domain)
          (analyse_event rules judged run (mail event) store).1
        ≡ map
            (new_bank (rules.registrable_domain event.sender_domain) event)
            (rules.extract_bank_identifiers (learn_text event))
  unfolding analyse_event
  analyse_event_learns_flagged run event store fresh inbound named lacks =
      rw fresh (analyse_new-first run event store inbound named lacks)
