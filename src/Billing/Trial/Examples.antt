-- ===== src/Billing/Trial/Examples.antt =====
-- Two sign-ups of one company, and a confirmed card for a free-mail address.
use envelockserver.Prelude.{
  ◌*◌, String, ◌≡◌, refl, true, false, none, some, List, [], ◌∷◌, text_comparable,
  number_comparable,
}
use envelockserver.Prelude.Time.{day}
use envelockserver.Prelude.Dict.{lookup}
use envelockserver.Billing.Trial.{
  is_free_mail, Ledger, lockable, start_signup_trial, confirm, LedgerEntry, TrialRules, Tenant,
}
use envelockserver.Billing.Trial.Ledger.{run, IsSameTrial, run_append_only, Event, confirmed}
use envelockserver.Billing.Trial.OneTrial.{one_signup_trial, confirm_locked, confirm_unlockable}

abbrev plain : TrialRules
plain = record { registrable_domain = λ d. d; clean = λ d. d }

abbrev newcomer : String → Tenant
newcomer id = record {
  id = id;
  plan = "guard";
  trial_started_at = none;
  trial_ends_at = none;
  payment_method_ok = false;
}

abbrev first_trial : LedgerEntry
first_trial = record {
  first_trial_at = 0;
  first_tenant_id = "t1";
  payment_fingerprint = none;
  override_by = none;
}

abbrev used : Ledger
used = ("acme.example", first_trial) ∷ []

abbrev card_added : List Event
card_added =
    record { operation = confirmed "acme.example" (some "f1"); tenant = newcomer "t1"; now = day }
    ∷ []

ledger_example : IsSameTrial first_trial (lookup "acme.example" (run plain 15 card_added used))
ledger_example = run_append_only plain 15 "acme.example" first_trial card_added used refl

one_trial_example :
    start_signup_trial plain "acme.example" (400 * day) 15 (
      newcomer "t2",
      run plain 15 card_added (start_signup_trial plain "acme.example" 0 15 (newcomer "t1", [])).1,
    )
    ≡ (
      newcomer "t2",
      run plain 15 card_added (start_signup_trial plain "acme.example" 0 15 (newcomer "t1", [])).1,
    )
unfolding lockable is_free_mail
one_trial_example =
    one_signup_trial plain 15 "acme.example" "acme.example" "acme.example" 0 (400 * day)
      (newcomer "t1") (newcomer "t2") card_added [] refl refl

locked_example :
    (confirm plain "acme.example" (some "f2") day 15 (newcomer "t2", used)).0
    ≡ record (newcomer "t2") { payment_method_ok = true }
unfolding lockable is_free_mail
locked_example =
    confirm_locked plain 15 day "acme.example" "acme.example" (some "f2") (newcomer "t2") used
      first_trial refl refl refl

unlockable_example :
    ((confirm plain "gmail.com" (some "f1") day 15 (newcomer "t2", used)).0.trial_started_at
      ≡ some day)
    × ((confirm plain "gmail.com" (some "f1") day 15 (newcomer "t2", used)).1 ≡ used)
unfolding lockable is_free_mail
unlockable_example =
    confirm_unlockable plain 15 day "gmail.com" (some "f1") (newcomer "t2") used refl refl
