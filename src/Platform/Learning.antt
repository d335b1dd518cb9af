-- ===== src/Platform/Learning.antt =====
-- platform/pipeline.py: the rows that an analysis of mail changes, what `learn` writes to them, and the bank
-- identifiers that `_counterparty_state` reads from them. The rows are those of one tenant, to which all queries
-- are confined. The search for bank identifiers, the features of a style with their running mean and the
-- public-suffix rules are `PipelineRules`. Columns that neither `learn` nor these questions read or write are
-- left out.
pub mod Records
use envelockserver.Core.Enums.{SourceMechanism}
use envelockserver.Core.Capabilities.{Capability}
use envelockserver.Prelude.{
  ℕ, ◌+◌, String, Bool, true, not, ◌&&◌, ◌||◌, Option, none, some, List, [], ◌∷◌, ◌++◌, map, leb,
  if◌then◌else◌, ◌==◌, text_comparable, number_comparable, length, any, contains,
}
use envelockserver.Prelude.Text.{text_or, concat}
use envelockserver.Prelude.Dict.{Dict, lookup, insert}
use envelockserver.Notify.Ladder.{rung_eq}
use envelockserver.Platform.Alerts.{Store}

pub record MailEvent : Type 0 where
  pub mailbox_id : String
  pub rfc_message_id : Option String
  pub is_inbound : Bool
  pub sender_address : String
  pub sender_domain : String
  pub sender_display : Option String
  pub subject : Option String
  pub body_text : Option String
  pub extracted_texts : List (Option String)
  pub dkim_domain : Option String
  pub occurred_at : ℕ
  pub source : SourceMechanism

-- An event of another channel changes none of these rows but through its alert.
pub data Event : Type 0 where
  mail : MailEvent → Event
  other_event : SourceMechanism → Event

unfoldable pub source_of : Event → SourceMechanism
source_of (mail event) = event.source
source_of (other_event source) = source

pub record BankIdentifier : Type 0 where
  pub scheme : String
  pub identifier : String

pub record BankRecord : Type 0 where
  pub counterparty : String
  pub bank : BankIdentifier
  pub first_seen_at : ℕ
  pub is_active : Bool

pub record Counterparty : Type 0 where
  pub display_name : Option String
  pub first_seen_at : ℕ
  pub last_seen_at : ℕ
  pub message_count : ℕ
  pub known_dkim_domains : List String

pub record SenderProfile (V : Type 0) : Type 0 where
  pub sample_count : ℕ
  pub features : Dict String V

pub record StoredMessage : Type 0 where
  pub mailbox_id : String
  pub rfc_message_id : Option String
  pub risk_score : ℕ

pub record PipelineStore (V : Type 0) : Type 0 where
  pub messages : List StoredMessage
  pub counterparties : Dict String Counterparty
  pub bank_records : List BankRecord
  pub profiles : Dict String (SenderProfile V)
  pub alerts : Store

-- `inactive_for` is that of detections/base.py with the registry; `mean old n value` is `((old * (n - 1)) + value) / n`.
pub record PipelineRules (V : Type 0) : Type 0 where
  pub registrable_domain : String → String
  pub extract_bank_identifiers : String → List BankIdentifier
  pub style_features : String → Dict String V
  pub mean : V → ℕ → V → V
  pub inactive_for : List Capability → List String

join_words : List String → String
join_words [] = ""
join_words (w ∷ []) = w
join_words (w ∷ v ∷ ws) = concat (w ∷ " " ∷ join_words (v ∷ ws) ∷ [])

given_texts : List (Option String) → List String
given_texts [] = []
given_texts (none ∷ rest) = given_texts rest
given_texts (some text ∷ rest) = if text == "" then given_texts rest else text ∷ given_texts rest

pub learn_text : MailEvent → String
unfolding join_words given_texts
learn_text event =
    join_words (given_texts (event.subject ∷ event.body_text ∷ event.extracted_texts))

pub add_dkim : Option String → Counterparty → Counterparty
add_dkim none row = row
add_dkim (some dkim) row =
    if dkim == "" || contains dkim row.known_dkim_domains
    then row
    else record row { known_dkim_domains = row.known_dkim_domains ++ (dkim ∷ []) }

pub seen_again : MailEvent → Option Counterparty → Counterparty
seen_again event none = record {
  display_name = event.sender_display;
  first_seen_at = event.occurred_at;
  last_seen_at = event.occurred_at;
  message_count = 1;
  known_dkim_domains = [];
}
seen_again event (some row) = record row {
  message_count = row.message_count + 1;
  last_seen_at = event.occurred_at;
}

unfoldable pub is_of : String → BankRecord → Bool
is_of domain b = b.counterparty == domain

pub new_bank : String → MailEvent → BankIdentifier → BankRecord
new_bank domain event bank = record {
  counterparty = domain;
  bank = bank;
  first_seen_at = event.occurred_at;
  is_active = true;
}

pub learn_banks :
    (bank_ids : List BankIdentifier) (domain : String)
    → MailEvent
    → List BankRecord
    → List BankRecord
unfolding is_of new_bank
learn_banks bank_ids domain event records =
    if any (is_of domain) records then records else records ++ map (new_bank domain event) bank_ids

pub active_ids : String → List BankRecord → List String
unfolding is_of
active_ids domain [] = []
active_ids domain (b ∷ records) =
    let rest = active_ids domain records in
    if is_of domain b && b.is_active then b.bank.identifier ∷ rest else rest

pub ids_of_row : String → List BankRecord → Option Counterparty → Option (List String)
unfolding active_ids
ids_of_row domain records none = none
ids_of_row domain records (some row) = some (active_ids domain records)

-- `known_bank_ids` of `_counterparty_state`, a set there; none when the counterparty has no row.
pub known_bank_ids : {V : Type 0} → (domain : String) → PipelineStore V → Option (List String)
unfolding ids_of_row
known_bank_ids domain store =
    ids_of_row domain store.bank_records (lookup domain store.counterparties)

value_or {ℓ} : {A : Type ℓ} → A → Option A → A
value_or default none = default
value_or default (some a) = a

module _ {V : Type 0} (rules : PipelineRules V) where
  merge_features : (n : ℕ) → Dict String V → Dict String V → Dict String V
  unfolding value_or
  merge_features n [] merged = merged
  merge_features n ((key, value) ∷ features) merged =
      let old = value_or value (lookup key merged) in
      merge_features n features (insert key (rules.mean old n value) merged)

  learn_style : Dict String V → Option (SenderProfile V) → SenderProfile V
  unfolding merge_features
  learn_style features none = record { sample_count = 1; features = features }
  learn_style features (some profile) =
      let n = profile.sample_count + 1 in
      record { sample_count = n; features = merge_features n features profile.features }

  pub learn_profile : MailEvent → Dict String (SenderProfile V) → Dict String (SenderProfile V)
  unfolding learn_style
  learn_profile event profiles =
      let features = rules.style_features (text_or "" event.body_text) in
      if leb (length features) 0
      then profiles
      else insert event.sender_address (learn_style features (lookup event.sender_address profiles))
          profiles

  unfoldable pub learn : MailEvent → PipelineStore V → PipelineStore V
  unfolding add_dkim seen_again learn_banks learn_profile
  learn event store =
      let domain = rules.registrable_domain event.sender_domain in
      if not event.is_inbound || domain == "" then store else record store {
        counterparties =
            insert domain
              (add_dkim event.dkim_domain (seen_again event (lookup domain store.counterparties)))
              store.counterparties;
        bank_records =
            learn_banks (rules.extract_bank_identifiers (learn_text event)) domain event
              store.bank_records;
        profiles = learn_profile event store.profiles;
      }
