-- ===== src/Billing/Trial.antt =====
-- billing/trial.py, and the trials that start at the three places that write the ledger: at sign-up
-- (`_start_signup_trial` of api/auth.py), when a payment instrument is confirmed (the state that `confirm` of
-- api/billing.py changes, from the verified instrument on) and after a payment (`_activate_paid_plan` there). The ledger
-- is a dictionary by registrable domain. The public-suffix rules and the strip and lower case of a text are
-- parameters.
pub mod Ledger
pub mod OneTrial
mod Examples
use Prim.Native.String.{◌∷◌ as char_then, [] as no_text}
use envelockserver.Prelude.{
  ℕ, suc, ◌+◌, ◌*◌, String, Bool, true, false, not, ◌&&◌, ◌||◌, Option, none, some, List, [], ◌∷◌,
  leb, if◌then◌else◌, is_some, ◌==◌, text_comparable, truthy, number_comparable, filter, any,
  contains,
}
use envelockserver.Prelude.Time.{day}
use envelockserver.Prelude.Text.{text_or, concat, has_text, before_first}
use envelockserver.Prelude.Dict.{Dict, lookup, insert}

pub data Eligibility : Type 0 where
  eligible already_used review overridden : Eligibility

pub record LedgerEntry : Type 0 where
  pub first_trial_at : ℕ
  pub first_tenant_id : String
  pub payment_fingerprint : Option String
  pub override_by : Option String

abbrev pub Ledger : Type 0
Ledger = Dict String LedgerEntry

pub record TrialDecision : Type 0 where
  pub eligibility : Eligibility
  pub trial_key : String
  pub ends_at : Option ℕ

pub record TrialRules : Type 0 where
  pub registrable_domain : String → String
  pub clean : String → String

-- `_FREE_MAIL` of util/domains.py
abbrev pub free_mail : List String
free_mail =
    "gmail.com" ∷ "googlemail.com" ∷ "yahoo.com" ∷ "yahoo.co.uk" ∷ "outlook.com" ∷ "hotmail.com"
    ∷ "live.com" ∷ "msn.com" ∷ "aol.com" ∷ "icloud.com" ∷ "me.com" ∷ "proton.me" ∷ "protonmail.com"
    ∷ "gmx.com" ∷ "mail.com" ∷ "zoho.com" ∷ "qq.com" ∷ "163.com" ∷ "126.com" ∷ "sina.com"
    ∷ "foxmail.com" ∷ "naver.com" ∷ "yandex.com" ∷ "rediffmail.com" ∷ []

is_free_mail : TrialRules → String → Bool
is_free_mail rules domain = contains (rules.registrable_domain domain) free_mail

-- The domain that a trial is locked to, if the identifier has one.
pub lockable : TrialRules → String → Option String
unfolding is_free_mail
lockable rules identifier =
    let reg = rules.registrable_domain identifier in
    if not (reg == "") && not (is_free_mail rules reg) then some reg else none

mailbox_key : TrialRules → String → Option String → String
mailbox_key rules identifier fingerprint =
    let address = rules.clean identifier in
    elim fingerprint [
      | none ↦ concat ("mailbox:" ∷ address ∷ [])
      | some f ↦
          if f == ""
          then concat ("mailbox:" ∷ address ∷ [])
          else concat ("mailbox:" ∷ address ∷ "|" ∷ f ∷ [])
    ]

pub trial_key : TrialRules → String → Option String → String
unfolding mailbox_key
trial_key rules identifier fingerprint = elim (lockable rules identifier) [
  | some reg ↦ concat ("domain:" ∷ reg ∷ [])
  | none ↦ mailbox_key rules identifier fingerprint
]

text_length : String → ℕ
text_length no_text = 0
text_length (char_then c text) = suc (text_length text)

-- `_related`
related : String → String → Bool
unfolding text_length
related a b =
    let la = before_first "." a in
    let lb = before_first "." b in
    if la == "" || lb == "" || la == lb
    then false
    else (has_text la lb || has_text lb la) && leb 4 (text_length la) && leb 4 (text_length lb)

same_instrument : Option String → Option String → Bool
same_instrument none other = false
same_instrument (some f) none = false
same_instrument (some f) (some g) = g == f

resembles : String → Option String → String × LedgerEntry → Bool
unfolding related same_instrument
resembles reg fingerprint (domain, entry) =
    same_instrument fingerprint entry.payment_fingerprint || (not (reg == "") && related reg domain)

-- `evaluate`, from the entry of the domain if there is one, and the entries that may be related.
pub evaluate :
    TrialRules
    → (identifier : String) → Option LedgerEntry
    → Ledger
    → (payment_fingerprint : Option String) → (now trial_days : ℕ) → TrialDecision
unfolding resembles
evaluate rules identifier (some existing) related_entries fingerprint now trial_days =
    let key = trial_key rules identifier fingerprint in
    if truthy existing.override_by
    then record {
      eligibility = overridden;
      trial_key = key;
      ends_at = some (now + trial_days * day);
    }
    else record { eligibility = already_used; trial_key = key; ends_at = none }
evaluate rules identifier none related_entries fingerprint now trial_days = record {
  eligibility =
      if any (resembles (rules.registrable_domain identifier) fingerprint) related_entries
      then review
      else eligible;
  trial_key = trial_key rules identifier fingerprint;
  ends_at = some (now + trial_days * day);
}

pub allowed : Eligibility → Bool
allowed already_used = false
allowed _ = true

pub backfill_days : (in_trial : Bool) (trial_days full_days : ℕ) → ℕ
backfill_days in_trial trial_days full_days = if in_trial then trial_days else full_days

pub record Tenant : Type 0 where
  pub id : String
  pub plan : String
  pub trial_started_at : Option ℕ
  pub trial_ends_at : Option ℕ
  pub payment_method_ok : Bool

begin_trial : (now trial_days : ℕ) → Tenant → Tenant
begin_trial now trial_days tenant = record tenant {
  trial_started_at = some now;
  trial_ends_at = some (now + trial_days * day);
}

first_entry : (now : ℕ) → Tenant → Option String → LedgerEntry
first_entry now tenant fingerprint = record {
  first_trial_at = now;
  first_tenant_id = tenant.id;
  payment_fingerprint = fingerprint;
  override_by = none;
}

lookup_domain : Option String → Ledger → Option LedgerEntry
lookup_domain none ledger = none
lookup_domain (some reg) ledger = lookup reg ledger

-- A row for the domain, unless there is one.
add_entry : Option String → LedgerEntry → Ledger → Ledger
add_entry none entry ledger = ledger
add_entry (some reg) entry ledger =
    if is_some (lookup reg ledger) then ledger else insert reg entry ledger

-- `_start_signup_trial`, for the domain part of the address.
pub start_signup_trial :
    TrialRules → (domain_part : String) → (now trial_days : ℕ) → Tenant × Ledger → Tenant × Ledger
unfolding begin_trial first_entry lookup_domain add_entry
start_signup_trial rules domain_part now trial_days (tenant, ledger) =
    let reg = lockable rules domain_part in
    if is_some (lookup_domain reg ledger) then (tenant, ledger) else (
      begin_trial now trial_days (record tenant { plan = "complete" }),
      add_entry reg (first_entry now tenant none) ledger,
    )

-- The rows with the same instrument, of other domains.
shared_instrument : (reg : String) → Option String → Ledger → Ledger
unfolding same_instrument
shared_instrument reg fingerprint ledger =
    filter
      (λ (e : String × LedgerEntry).
        same_instrument fingerprint e.1.payment_fingerprint && not (e.0 == reg))
      ledger

related_rows : Option String → Option String → Ledger → Ledger
unfolding shared_instrument
related_rows none fingerprint ledger = []
related_rows (some reg) fingerprint ledger =
    if truthy fingerprint then shared_instrument reg fingerprint ledger else []

-- The row of the tenant's own trial gets the instrument that is on file now, unless it has one.
backfill_fingerprint : Option String → Option String → Tenant → Option LedgerEntry → Ledger → Ledger
backfill_fingerprint none fingerprint tenant row ledger = ledger
backfill_fingerprint (some reg) fingerprint tenant none ledger = ledger
backfill_fingerprint (some reg) fingerprint tenant (some row) ledger =
    if row.first_tenant_id == tenant.id
      && truthy fingerprint
      && not (truthy row.payment_fingerprint)
    then insert reg (record row { payment_fingerprint = fingerprint }) ledger
    else ledger

-- What `confirm` changes, once the instrument is verified.
pub confirm :
    TrialRules
    → (identifier : String) → (fingerprint : Option String) → (now trial_days : ℕ) → Tenant × Ledger
    → Tenant × Ledger
unfolding begin_trial first_entry lookup_domain add_entry related_rows backfill_fingerprint
confirm rules identifier fingerprint now trial_days (tenant, ledger) =
    let reg = lockable rules identifier in
    let row = lookup_domain reg ledger in
    let decision =
      evaluate rules identifier row (related_rows reg fingerprint ledger) fingerprint now
        trial_days in
    let paying = record tenant { payment_method_ok = true } in
    if allowed decision.eligibility && not (is_some tenant.trial_started_at)
    then (
      begin_trial now trial_days paying,
      add_entry reg (first_entry now tenant fingerprint) ledger,
    )
    else (paying, backfill_fingerprint reg fingerprint tenant row ledger)

-- `plan in _PAID_PLANS`
is_paid_plan : Option String → Bool
is_paid_plan none = false
is_paid_plan (some plan) = contains plan ("essential" ∷ "complete" ∷ [])

bought_plan : Option String → Tenant → Tenant
unfolding is_paid_plan
bought_plan plan tenant =
    if is_paid_plan plan then record tenant { plan = text_or "" plan } else tenant

-- What `_activate_paid_plan` changes of these.
pub activate_paid_plan :
    TrialRules
    → (plan : Option String) (domain : String) (now trial_days : ℕ) → Tenant × Ledger
    → Tenant × Ledger
unfolding begin_trial first_entry add_entry bought_plan
activate_paid_plan rules plan domain now trial_days (tenant, ledger) =
    let paying = bought_plan plan (record tenant { payment_method_ok = true }) in
    (
      if is_some tenant.trial_started_at then paying else begin_trial now trial_days paying,
      add_entry (lockable rules domain) (first_entry now tenant none) ledger,
    )
