-- ===== src/Platform/Pipeline/Examples.antt =====
-- A first message with new bank details, which is flagged and arrives twice.
use envelockserver.Prelude.{
  ℕ, ◌≡◌, refl, true, false, Option, none, some, List, [], ◌∷◌, map, text_comparable,
  number_comparable,
}
use envelockserver.Core.Enums.{
  source_mechanism_eq, mailbox_class_eq, protection_level_eq, alert_tier_eq, identity_event_kind_eq,
  imap_poll, critical,
}
use envelockserver.Risk.Engine.{FindingResult, RiskAssessment}
use envelockserver.Platform.Learning.{
  is_of, new_bank, known_bank_ids, MailEvent, BankIdentifier, PipelineStore, PipelineRules, Event,
  mail,
}
use envelockserver.Platform.Pipeline.{is_duplicate, duplicate_result, analyse_event, Run}
use envelockserver.Platform.Pipeline.Repeats.{analyse_event_again}
use envelockserver.Platform.Learning.Records.{banks_of}
use envelockserver.Platform.Pipeline.Banks.{analyse_event_keeps_banks, analyse_event_learns_flagged}

abbrev iban : BankIdentifier
iban = record { scheme = "iban"; identifier = "DE00" }

abbrev simple : PipelineRules ℕ
simple = record {
  registrable_domain = λ d. d;
  extract_bank_identifiers = λ text. iban ∷ [];
  style_features = λ text. [];
  mean = λ old n value. old;
  inactive_for = λ capabilities. [];
}

abbrev alarming : RiskAssessment
alarming = record {
  tier = critical;
  score = 95;
  title = "Payment fraud";
  body = "Call back.";
  services = "A2" ∷ "A3" ∷ [];
  requires_callback = true;
  callback_phone = none;
  rationale = [];
}

abbrev flags : PipelineStore ℕ → Event → List FindingResult × Option RiskAssessment
flags store event = ([], some alarming)

abbrev letter : MailEvent
letter = record {
  mailbox_id = "m1";
  rfc_message_id = some "<1@acrne.example>";
  is_inbound = true;
  sender_address = "billing@acrne.example";
  sender_domain = "acrne.example";
  sender_display = none;
  subject = some "Invoice";
  body_text = some "Please pay to DE00";
  extracted_texts = [];
  dkim_domain = none;
  occurred_at = 5;
  source = imap_poll;
}

abbrev setting : Run
setting = record {
  tenant_id = "t1";
  owned_domains = "office.example" ∷ [];
  recipients = [];
  new_id = "a1";
  now = 6;
  capabilities = [];
}

abbrev fresh_store : PipelineStore ℕ
fresh_store = record {
  messages = [];
  counterparties = [];
  bank_records = [];
  profiles = [];
  alerts = record { alerts = []; findings = []; deliveries = []; audit = [] };
}

again_example :
    analyse_event simple flags setting
      (mail letter)
      (analyse_event simple flags setting (mail letter) fresh_store).1
    ≡ (duplicate_result imap_poll, (analyse_event simple flags setting (mail letter) fresh_store).1)
again_example =
    analyse_event_again simple flags flags setting setting letter letter fresh_store refl refl refl

flagged_example :
    banks_of "acrne.example" (analyse_event simple flags setting (mail letter) fresh_store).1
    ≡ map (new_bank "acrne.example" letter) (iban ∷ [])
unfolding is_duplicate
flagged_example =
    analyse_event_learns_flagged simple flags setting letter fresh_store refl refl refl refl

-- One bank record in use and one that was retired.
abbrev known_store : PipelineStore ℕ
known_store = record fresh_store {
  counterparties =
      (
        "acrne.example",
        record {
          display_name = none;
          first_seen_at = 1;
          last_seen_at = 1;
          message_count = 1;
          known_dkim_domains = [];
        },
      )
      ∷ [];
  bank_records =
      record { counterparty = "acrne.example"; bank = iban; first_seen_at = 1; is_active = true }
      ∷ record { counterparty = "acrne.example"; bank = iban; first_seen_at = 0; is_active = false }
      ∷ [];
}

keeps_example :
    let after = (analyse_event simple flags setting (mail letter) known_store).1 in
    (banks_of "acrne.example" after ≡ banks_of "acrne.example" known_store)
    × (known_bank_ids "acrne.example" after ≡ known_bank_ids "acrne.example" known_store)
unfolding is_of
keeps_example =
    analyse_event_keeps_banks simple flags setting letter known_store "acrne.example" refl refl
