-- ===== src/Governance/Retention/References.antt =====
-- When the purge goes through, and when a finding that outlives its alert blocks it.
use envelockserver.Prelude.{
  ℕ, ◌-◌, ◌*◌, ◌≤◌, ◌<◌, ◌≡◌, refl, ◌∙◌, inl, inr, Bool, true, false, not, ◌||◌, Option, none, some,
  List, [], ◌∷◌, ◌++◌, map, arith, nat_beq_iff, Bool-cases, ◌==◌, eq_refl, text_comparable,
  number_comparable, filter, any, all, all_in-filter, contains,
}
use envelockserver.Prelude.Time.{day}
use envelockserver.Governance.Retention.Statements.{purged, purge_expired_by}
use envelockserver.Governance.Retention.{
  cutoff_after, policy_for, cutoff, expired, old_alert_ids, refers_to, purge_expired, FindingRow,
  AlertRow, Tables, alert, finding,
}

abbrev ids : List AlertRow → List ℕ
ids alerts = map (λ (a : AlertRow). a.id) alerts

abbrev has_alert : List AlertRow → FindingRow → Bool
has_alert alerts f = elim f.alert_id [ none ↦ true | some id ↦ contains id (ids alerts) ]

-- Every delivery and every finding with an alert refers to an alert that is there: the foreign keys.
abbrev pub IsClosed : Tables → Type 0
IsClosed t =
    (all (λ d. contains d.alert_id (ids t.alerts)) t.notification_deliveries ≡ true)
    × (all (has_alert t.alerts) t.findings ≡ true)

kept_id :
    (old : List ℕ) (alerts : List AlertRow) (id : ℕ)
    → contains id (ids alerts) ≡ true
    → contains id old ≡ false
    → contains id (ids (filter (λ a. not (contains a.id old)) alerts)) ≡ true
kept_id old [] id h gone = h
kept_id old (a ∷ alerts) id h gone = elim (Bool-cases (id == a.id)) [
  | inl same ↦
      let here : contains a.id old ≡ false = rw ((nat_beq_iff id a.id).0 same) at gone in
      rw here (rw same refl)
  | inr other ↦ ground (arith, kept_id old alerts id)
]

kept_finding :
    (old : List ℕ) (alerts : List AlertRow) (f : FindingRow)
    → has_alert alerts f ≡ true
    → refers_to old f ≡ false
    → has_alert (filter (λ a. not (contains a.id old)) alerts) f ≡ true
unfolding refers_to
kept_finding old alerts f = by_reference f.alert_id
  where
    by_reference :
        (o : Option ℕ)
        → elim o [ none ↦ true | some id ↦ contains id (ids alerts) ] ≡ true
        → elim o [ none ↦ false | some id ↦ contains id old ] ≡ false
        → elim o [
          | none ↦ true
          | some id ↦ contains id (ids (filter (λ a. not (contains a.id old)) alerts))
        ]
          ≡ true
    by_reference none h gone = refl
    by_reference (some id) h gone = kept_id old alerts id h gone

kept_findings :
    (old : List ℕ) (alerts : List AlertRow) (fs : List FindingRow)
    → all (has_alert alerts) fs ≡ true
    → any (refers_to old) fs ≡ false
    → all (has_alert (filter (λ a. not (contains a.id old)) alerts)) fs ≡ true
kept_findings old alerts [] h none_of = refl
kept_findings old alerts (f ∷ fs) h none_of =
    ground (arith, kept_finding old alerts f, kept_findings old alerts fs)

-- A finding of an alert that is past the limit of alerts is past the limit of findings.
abbrev pub goes_first : (now : ℕ) → List AlertRow → FindingRow → Bool
goes_first now alerts f =
    not (refers_to (old_alert_ids (cutoff alert now) alerts) f)
    || expired (cutoff finding now) f.created_at

none_left :
    (old : List ℕ) (cut : Option ℕ) (fs : List FindingRow)
    → all (λ f. not (refers_to old f) || expired cut f.created_at) fs ≡ true
    → any (refers_to old) (filter (λ f. not (expired cut f.created_at)) fs) ≡ false
none_left old cut [] h = refl
none_left old cut (f ∷ fs) h = ground (arith, none_left old cut fs)

-- Where the foreign keys hold and every finding of an alert that is past its limit is past its own, no
-- statement of the purge is refused: it leaves exactly the rows that are not past the limit of their table,
-- with the old messages stripped of body and subject and without the deliveries of the alerts that go, and
-- the foreign keys hold afterwards.
pub purge_expired-IsClosed :
    (now : ℕ) (t : Tables)
    → IsClosed t
    → all (goes_first now t.alerts) t.findings ≡ true
    → (purge_expired now t ≡ some (purged now t)) × IsClosed (purged now t)
unfolding purged
purge_expired-IsClosed now t closed early =
    let old = old_alert_ids (cutoff alert now) t.alerts in
    let free = none_left old (cutoff finding now) t.findings early in
    (
      purge_expired_by now t ∙ (rw free refl),
      (
        all_in-filter _ _ _ t.notification_deliveries
            (λ d here gone. kept_id old t.alerts d.alert_id here (ground arith)) closed.0,
        kept_findings old t.alerts (purged now t).findings
            (all_in-filter _ _ _ t.findings (λ f here left. here) closed.1) free,
      ),
    )

old_id :
    (cut : ℕ) (before after : List AlertRow) (a : AlertRow)
    → a.created_at < cut
    → contains a.id (old_alert_ids (some cut) (before ++ (a ∷ after))) ≡ true
unfolding old_alert_ids expired
old_id cut [] after a early = ground (arith, eq_refl a.id)
old_id cut (b ∷ before) after a early = ground (arith, old_id cut before after a early)

left_finding :
    (old : List ℕ) (cut : ℕ) (before after : List FindingRow) (f : FindingRow)
    → refers_to old f ≡ true
    → cut ≤ f.created_at
    → any
        (refers_to old)
        (filter (λ g. not (expired (some cut) g.created_at)) (before ++ (f ∷ after)))
      ≡ true
unfolding expired
left_finding old cut [] after f refers late = ground arith
left_finding old cut (g ∷ before) after f refers late =
    ground (arith, left_finding old cut before after f refers late)

refers :
    (old : List ℕ) (f : FindingRow) (id : ℕ)
    → f.alert_id ≡ some id
    → refers_to old f ≡ contains id old
unfolding refers_to
refers old f id link = rw link refl

-- A finding that is made after its alert, with the cutoff of 730 days for both between the two, blocks the
-- purge: the finding is left, its alert is to go, and nothing at all is purged.
pub purge_expired_blocked :
    (now : ℕ) (t : Tables) (a : AlertRow) (f : FindingRow) (before after : List AlertRow)
    (earlier later : List FindingRow)
    → t.alerts ≡ before ++ (a ∷ after)
    → t.findings ≡ earlier ++ (f ∷ later)
    → f.alert_id ≡ some a.id
    → a.created_at < now - 730 * day
    → now - 730 * day ≤ f.created_at
    → purge_expired now t ≡ none
unfolding purged cutoff cutoff_after policy_for
purge_expired_blocked now t a f before after earlier later ha hf link early late =
    let cut = now - 730 * day in
    let old = old_alert_ids (some cut) (before ++ (a ∷ after)) in
    let goes : refers_to old f ≡ true = refers old f a.id link ∙ old_id cut before after a early in
    purge_expired_by now t ∙ (rw (ha, hf, left_finding old cut earlier later f goes late) refl)
