-- ===== src/Billing/Trial/Ledger.antt =====
-- The ledger forgets no trial.
use mathlib.Core.Path.{subst}
use mathlib.Core.Option.{some-injective}
use envelockserver.Prelude.{
  ℕ, String, ◌≡◌, refl, sym, ap, ◌∙◌, inl, inr, not, ◌&&◌, Option, none, some, List, [], ◌∷◌,
  is_some, Bool-cases, Option-cases, ◌==◌, text_comparable, truthy, number_comparable,
}
use envelockserver.Prelude.Dict.{lookup, lookup-insert}
use envelockserver.Billing.Trial.{
  related_rows, first_entry, lookup_domain, backfill_fingerprint, add_entry, Ledger, lockable,
  evaluate, allowed, start_signup_trial, confirm, activate_paid_plan, LedgerEntry, TrialRules,
  Tenant,
}

-- One write to the ledger, for a tenant and at a time.
pub data Operation : Type 0 where
  signed_up : (domain_part : String) → Operation
  confirmed : (identifier : String) (fingerprint : Option String) → Operation
  paid : (plan : Option String) (domain : String) → Operation

pub record Event : Type 0 where
  pub operation : Operation
  pub tenant : Tenant
  pub now : ℕ

apply : TrialRules → (trial_days : ℕ) → Operation → (now : ℕ) → Tenant × Ledger → Tenant × Ledger
apply rules days (signed_up domain_part) now s = start_signup_trial rules domain_part now days s
apply rules days (confirmed identifier fingerprint) now s =
    confirm rules identifier fingerprint now days s
apply rules days (paid plan domain) now s = activate_paid_plan rules plan domain now days s

pub run : TrialRules → (trial_days : ℕ) → List Event → Ledger → Ledger
unfolding apply
run rules days [] ledger = ledger
run rules days (e ∷ es) ledger =
    run rules days es (apply rules days e.operation e.now (e.tenant, ledger)).1

-- The same trial: when it began and for whom, and whether sales granted another.
abbrev pub IsSameTrial : LedgerEntry → Option LedgerEntry → Type 0
IsSameTrial e none = ⊥
IsSameTrial e (some e') =
    (e'.first_trial_at ≡ e.first_trial_at)
    × (e'.first_tenant_id ≡ e.first_tenant_id)
    × (e'.override_by ≡ e.override_by)

same-IsSameTrial : (e : LedgerEntry) (o : Option LedgerEntry) → o ≡ some e → IsSameTrial e o
same-IsSameTrial e none h = cc
same-IsSameTrial e (some e') h =
    let one = some-injective _ _ h in
    (
      ap (λ (x : LedgerEntry). x.first_trial_at) one,
      ap (λ (x : LedgerEntry). x.first_tenant_id) one,
      ap (λ (x : LedgerEntry). x.override_by) one,
    )

add_entry-IsSameTrial :
    (reg : String) (e entry : LedgerEntry) (where_to : Option String) (ledger : Ledger)
    → lookup reg ledger ≡ some e
    → IsSameTrial e (lookup reg (add_entry where_to entry ledger))
unfolding add_entry
add_entry-IsSameTrial reg e entry none ledger h = same-IsSameTrial e _ h
add_entry-IsSameTrial reg e entry (some r) ledger h = elim (Option-cases (lookup r ledger)) [
  | inl missing ↦ elim (Bool-cases (r == reg)) [
    | inl same ↦
        let there : r ≡ reg = (text_comparable.equal_iff r reg).0 same in
        let gone : lookup reg ledger ≡ none = subst (λ k. lookup k ledger ≡ none) there missing in
        cc
    | inr differ ↦
        rw missing (same-IsSameTrial e _ (lookup-insert r reg entry ledger ∙ (rw differ h)))
  ]
  | inr (e', found) ↦ rw found (same-IsSameTrial e _ h)
]

backfill-IsSameTrial :
    (reg : String) (e : LedgerEntry) (where_to fingerprint : Option String) (tenant : Tenant)
    (ledger : Ledger)
    → lookup reg ledger ≡ some e
    → IsSameTrial e (
        lookup reg
          (backfill_fingerprint where_to fingerprint tenant (lookup_domain where_to ledger) ledger))
unfolding backfill_fingerprint lookup_domain
backfill-IsSameTrial reg e none fingerprint tenant ledger h = same-IsSameTrial e _ h
backfill-IsSameTrial reg e (some r) fingerprint tenant ledger h = by_row (lookup r ledger) refl
  where
    by_row :
        (o : Option LedgerEntry)
        → lookup r ledger ≡ o
        → IsSameTrial e (lookup reg (backfill_fingerprint (some r) fingerprint tenant o ledger))
    by_row none found = same-IsSameTrial e _ h
    by_row (some row) found =
        let filled = record row { payment_fingerprint = fingerprint } in
        elim (Bool-cases (
          row.first_tenant_id == tenant.id
          && truthy fingerprint
          && not (truthy row.payment_fingerprint))) [
            | inr kept ↦ rw kept (same-IsSameTrial e _ h)
            | inl fill ↦ rw fill (elim (Bool-cases (r == reg)) [
              | inr differ ↦
                  same-IsSameTrial e _ (lookup-insert r reg filled ledger ∙ (rw differ h))
              | inl same ↦
                  let there : r ≡ reg = (text_comparable.equal_iff r reg).0 same in
                  let one : e ≡ row =
                    some-injective _ _ (sym h ∙ ap (λ k. lookup k ledger) (sym there) ∙ found) in
                  rw (lookup-insert r reg filled ledger, same)
                    (
                      ap (λ (x : LedgerEntry). x.first_trial_at) (sym one),
                      ap (λ (x : LedgerEntry). x.first_tenant_id) (sym one),
                      ap (λ (x : LedgerEntry). x.override_by) (sym one),
                    )
            ])
          ]

apply-IsSameTrial :
    (rules : TrialRules) (days : ℕ) (reg : String) (e : LedgerEntry) (op : Operation) (now : ℕ)
    (tenant : Tenant) (ledger : Ledger)
    → lookup reg ledger ≡ some e
    → IsSameTrial e (lookup reg (apply rules days op now (tenant, ledger)).1)
unfolding apply start_signup_trial confirm activate_paid_plan
apply-IsSameTrial rules days reg e (signed_up d) now tenant ledger h =
    elim (Bool-cases (is_some (lookup_domain (lockable rules d) ledger))) [
      | inl used ↦ rw used (same-IsSameTrial e _ h)
      | inr fresh ↦
          rw fresh
            (add_entry-IsSameTrial reg e (first_entry now tenant none) (lockable rules d) ledger h)
    ]
apply-IsSameTrial rules days reg e (paid plan d) now tenant ledger h =
    add_entry-IsSameTrial reg e (first_entry now tenant none) (lockable rules d) ledger h
apply-IsSameTrial rules days reg e (confirmed d fp) now tenant ledger h =
    let domain = lockable rules d in
    let decision =
      evaluate rules d (lookup_domain domain ledger) (related_rows domain fp ledger) fp now days in
    elim (Bool-cases (allowed decision.eligibility && not (is_some tenant.trial_started_at))) [
      | inl starts ↦
          rw starts (add_entry-IsSameTrial reg e (first_entry now tenant fp) domain ledger h)
      | inr stays ↦ rw stays (backfill-IsSameTrial reg e domain fp tenant ledger h)
    ]

entry_of :
    (e : LedgerEntry) (o : Option LedgerEntry)
    → IsSameTrial e o
    → (e' : LedgerEntry) × (o ≡ some e') × IsSameTrial e (some e')
entry_of e none same = elim same [ ]
entry_of e (some e') same = (e', refl, same)

run-from :
    (rules : TrialRules) (days : ℕ) (reg : String) (e e' : LedgerEntry) (events : List Event)
    (ledger : Ledger)
    → lookup reg ledger ≡ some e'
    → IsSameTrial e (some e')
    → IsSameTrial e (lookup reg (run rules days events ledger))
unfolding run
run-from rules days reg e e' [] ledger h same = rw h same
run-from rules days reg e e' (v ∷ events) ledger h same =
    let after = (apply rules days v.operation v.now (v.tenant, ledger)).1 in
    let step = apply-IsSameTrial rules days reg e' v.operation v.now v.tenant ledger h in
    let (e'', found, kept) = entry_of e' (lookup reg after) step in
    run-from rules days reg e e'' events after found
      (kept.0 ∙ same.0, kept.1 ∙ same.1, kept.2 ∙ same.2)

-- A trial that stands in the ledger stands there after any sign-ups, confirmations and payments of any
-- tenants, with its beginning, its tenant and the mark of a granted re-trial unchanged.
pub run_append_only :
    (rules : TrialRules) (days : ℕ) (reg : String) (e : LedgerEntry) (events : List Event)
    (ledger : Ledger)
    → lookup reg ledger ≡ some e
    → IsSameTrial e (lookup reg (run rules days events ledger))
run_append_only rules days reg e events ledger h =
    run-from rules days reg e e events ledger h (refl, refl, refl)
