-- ===== src/Governance/Retention/Limits.antt =====
-- What is left after a purge, class by class, and what the report counts.
use mathlib.Core.Option.{some-injective}
use envelockserver.Prelude.{
  ℕ, ◌+◌, ◌-◌, ◌*◌, ◌≤◌, String, ◌≡◌, refl, sym, ◌∙◌, ◌⊎◌, inl, inr, Bool, true, false, not, ◌&&◌,
  Option, none, some, List, [], ◌∷◌, map, arith, ltb, is_some, Bool-cases, eq_refl, text_comparable,
  number_comparable, All, length, filter, any, contains,
}
use envelockserver.Prelude.Time.{day}
use envelockserver.Governance.Retention.Statements.{purged, purge_expired_by}
use envelockserver.Governance.Retention.{
  has_body, cutoff_after, purge_body, policy_for, cutoff, expired, old_alert_ids, count, refers_to,
  purge_expired, purge_counts, MessageRow, AlertRow, Tables, PurgeCounts, alert,
}

All-filter_in {ℓ κ} :
    {A : Type ℓ}
    → (P : A → Type κ) (q : A → Bool) (xs : List A) → ((x : A) → q x ≡ true → P x)
    → All P (filter q xs)
All-filter_in P q [] h = tt
All-filter_in P q (x ∷ xs) h = elim (Bool-cases (q x)) [
  | inl left ↦ rw left (h x left, All-filter_in P q xs h)
  | inr gone ↦ rw gone (All-filter_in P q xs h)
]

-- What is left and what is counted as deleted are together all there was.
count-filter {ℓ} :
    {A : Type ℓ}
    → (q : A → Bool) (xs : List A) → length (filter (λ x. not (q x)) xs) + count q xs ≡ length xs
unfolding count
count-filter q [] = refl
count-filter q (x ∷ xs) = ground (arith, count-filter q xs)

young :
    (days now at : ℕ) → not (expired (some (now - days * day)) at) ≡ true → now ≤ at + days * day
unfolding expired
young days now at kept = ground arith

-- The body and the subject are gone once the message is 30 days old and had a body.
pub IsStripped : (now : ℕ) → MessageRow → Type 0
IsStripped now m = (now ≤ m.received_at + 30 * day) ⊎ (m.body_storage_key ≡ none)

purge_body-IsStripped :
    (now : ℕ) (m : MessageRow) → IsStripped now (purge_body (some (now - 30 * day)) m)
unfolding IsStripped purge_body expired has_body
purge_body-IsStripped now m =
    elim (Bool-cases (ltb m.received_at (now - 30 * day) && is_some m.body_storage_key)) [
      | inl old ↦ rw old (inr refl)
      | inr kept ↦ rw kept (by_key m.body_storage_key kept)
    ]
  where
    by_key :
        (key : Option String)
        → (ltb m.received_at (now - 30 * day) && is_some key) ≡ false
        → (now ≤ m.received_at + 30 * day) ⊎ (key ≡ none)
    by_key none kept = inr refl
    by_key (some text) kept = inl (ground arith)

pub record IsWithinLimits (now : ℕ) (t : Tables) : Type 0 where
  pub bodies : All (IsStripped now) t.messages
  pub sessions : All (λ s. now ≤ s.last_seen_at + 365 * day) t.sensor_sessions
  pub audit : All (λ e. now ≤ e.created_at + 365 * day) t.audit_events
  pub evidence : All (λ f. now ≤ f.created_at + 730 * day) t.findings
  pub incidents : All (λ a. now ≤ a.created_at + 730 * day) t.alerts

All-map_in {ℓ κ} :
    {A : Type ℓ}
    → (P : A → Type κ) (f : A → A) (xs : List A) → ((x : A) → P (f x))
    → All P (map f xs)
All-map_in P f [] h = tt
All-map_in P f (x ∷ xs) h = (h x, All-map_in P f xs h)

left_alerts :
    (now : ℕ) (old : List ℕ) (alerts : List AlertRow)
    → ((id : ℕ)
        → contains id (old_alert_ids (some (now - 730 * day)) alerts) ≡ true
        → contains id old ≡ true)
    → All (λ a. now ≤ a.created_at + 730 * day) (filter (λ a. not (contains a.id old)) alerts)
unfolding old_alert_ids expired
left_alerts now old [] sub = tt
left_alerts now old (a ∷ alerts) sub =
    let rest = left_alerts now old alerts (λ id h. sub id (ground arith)) in
    elim (Bool-cases (contains a.id old)) [
      | inl gone ↦ rw gone rest
      | inr left ↦ rw left (ground (arith, sub a.id, eq_refl a.id), rest)
    ]

purged-IsWithinLimits : (now : ℕ) (t : Tables) → IsWithinLimits now (purged now t)
unfolding purged cutoff cutoff_after policy_for
purged-IsWithinLimits now t = record {
  bodies = All-map_in (IsStripped now) _ t.messages (purge_body-IsStripped now);
  sessions = All-filter_in _ _ t.sensor_sessions (λ s. young 365 now s.last_seen_at);
  audit = All-filter_in _ _ t.audit_events (λ e. young 365 now e.created_at);
  evidence = All-filter_in _ _ t.findings (λ f. young 730 now f.created_at);
  incidents =
      left_alerts now (old_alert_ids (some (now - 730 * day)) t.alerts) t.alerts (λ id h. h);
}

-- What a purge reports and what it leaves make up what there was, and no message row is lost.
pub record IsAccounted (c : PurgeCounts) (t t' : Tables) : Type 0 where
  pub messages : length t'.messages ≡ length t.messages
  pub sessions : length t'.sensor_sessions + c.identity_event ≡ length t.sensor_sessions
  pub audit : length t'.audit_events + c.audit_event ≡ length t.audit_events
  pub evidence : length t'.findings + c.finding ≡ length t.findings
  pub incidents : length t'.alerts + c.alert ≡ length t.alerts

length-map {ℓ} : {A : Type ℓ} → (f : A → A) (xs : List A) → length (map f xs) ≡ length xs
length-map f [] = refl
length-map f (x ∷ xs) = omega (arith, length-map f xs)

purged-IsAccounted : (now : ℕ) (t : Tables) → IsAccounted (purge_counts now t) t (purged now t)
unfolding purged purge_counts
purged-IsAccounted now t = record {
  messages = length-map _ t.messages;
  sessions = count-filter _ t.sensor_sessions;
  audit = count-filter _ t.audit_events;
  evidence = count-filter _ t.findings;
  incidents = count-filter _ t.alerts;
}

-- After a purge that succeeds no message older than 30 days has a body, no session and no audit event is
-- older than 365 days and no finding and no alert older than 730; the report counts exactly the rows of
-- the last four tables that are gone, and no row of a message is gone.
pub purge_expired-IsWithinLimits :
    (now : ℕ) (t t' : Tables)
    → purge_expired now t ≡ some t'
    → IsWithinLimits now t' × IsAccounted (purge_counts now t) t t'
purge_expired-IsWithinLimits now t t' done =
    let run = sym (purge_expired_by now t) ∙ done in
    let blocked =
      any (refers_to (old_alert_ids (cutoff alert now) t.alerts)) (purged now t).findings in
    elim (Bool-cases blocked) [
      | inl refused ↦ cc
      | inr free ↦
          let same : purged now t ≡ t' = some-injective _ _ (rw free at run) in
          rw (← same) (purged-IsWithinLimits now t, purged-IsAccounted now t)
    ]
