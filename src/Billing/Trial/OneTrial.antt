-- ===== src/Billing/Trial/OneTrial.antt =====
-- One free trial for each domain that can be locked, and what escapes the lock.
use envelockserver.Prelude.{
  ℕ, String, ◌≡◌, refl, ◌∙◌, inl, inr, true, false, Option, none, some, List, is_some, Option-cases,
  eq_refl, text_comparable, truthy, number_comparable,
}
use envelockserver.Prelude.Dict.{lookup, lookup-insert}
use envelockserver.Billing.Trial.{
  begin_trial, first_entry, related_rows, lookup_domain, add_entry, Ledger, lockable, evaluate,
  allowed, start_signup_trial, confirm, LedgerEntry, TrialRules, Tenant,
}
use envelockserver.Billing.Trial.Ledger.{run, IsSameTrial, run_append_only, Event}

kept_row : (e : LedgerEntry) (o : Option LedgerEntry) → IsSameTrial e o → is_some o ≡ true
kept_row e none same = elim same [ ]
kept_row e (some e') same = refl

signed_up_row :
    (rules : TrialRules) (days now : ℕ) (d reg : String) (tenant : Tenant) (ledger : Ledger)
    → lockable rules d ≡ some reg
    → (e : LedgerEntry) × (lookup reg (start_signup_trial rules d now days (tenant, ledger)).1
        ≡ some e)
unfolding start_signup_trial lookup_domain add_entry
signed_up_row rules days now d reg tenant ledger lock = elim (Option-cases (lookup reg ledger)) [
  | inl missing ↦
      let entry = first_entry now tenant none in
      (entry, rw (lock, missing) (lookup-insert reg reg entry ledger ∙ (rw (eq_refl reg) refl)))
  | inr (e, found) ↦ (e, rw (lock, found) found)
]

-- For sign-ups from domains that have the same registrable domain, which is not one of free mail: after the
-- first, whatever sign-ups, cards and payments follow it, a later one starts no trial, changes nothing of
-- its tenant and writes nothing to the ledger.
pub one_signup_trial :
    (rules : TrialRules) (days : ℕ) (reg d d' : String) (now now' : ℕ) (tenant tenant' : Tenant)
    (events : List Event) (ledger : Ledger)
    → lockable rules d ≡ some reg
    → lockable rules d' ≡ some reg
    → start_signup_trial rules d' now' days
        (tenant', run rules days events (start_signup_trial rules d now days (tenant, ledger)).1)
      ≡ (tenant', run rules days events (start_signup_trial rules d now days (tenant, ledger)).1)
one_signup_trial rules days reg d d' now now' tenant tenant' events ledger lock lock' =
    let first = (start_signup_trial rules d now days (tenant, ledger)).1 in
    let (e, found) = signed_up_row rules days now d reg tenant ledger lock in
    let kept = run_append_only rules days reg e events first found in
    unfold start_signup_trial lookup_domain in
    rw (lock', kept_row e (lookup reg (run rules days events first)) kept) refl

-- Nor does a confirmed card give a trial to a tenant that asks for a domain with a row, unless sales granted
-- another; the tenant is let in as a paying one.
pub confirm_locked :
    (rules : TrialRules) (days now : ℕ) (reg d : String) (fingerprint : Option String)
    (tenant : Tenant) (ledger : Ledger) (e : LedgerEntry)
    → lockable rules d ≡ some reg
    → lookup reg ledger ≡ some e
    → truthy e.override_by ≡ false
    → (confirm rules d fingerprint now days (tenant, ledger)).0
      ≡ record tenant { payment_method_ok = true }
unfolding confirm lookup_domain evaluate allowed
confirm_locked rules days now reg d fingerprint tenant ledger e lock found plain =
    rw (lock, found, plain) refl

-- An identifier that cannot be locked, such as a free-mail address, always starts a trial for a tenant that
-- has none, whatever card was confirmed and however often it was used, and leaves no row.
pub confirm_unlockable :
    (rules : TrialRules) (days now : ℕ) (d : String) (fingerprint : Option String) (tenant : Tenant)
    (ledger : Ledger)
    → lockable rules d ≡ none
    → tenant.trial_started_at ≡ none
    → ((confirm rules d fingerprint now days (tenant, ledger)).0.trial_started_at ≡ some now)
      × ((confirm rules d fingerprint now days (tenant, ledger)).1 ≡ ledger)
unfolding confirm lookup_domain evaluate allowed related_rows add_entry begin_trial
confirm_unlockable rules days now d fingerprint tenant ledger lock none_yet =
    rw (lock, none_yet) (refl, refl)
