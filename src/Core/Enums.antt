-- ===== src/Core/Enums.antt =====
-- src/envelock/core/enums.py: the shared vocabulary. Each enumeration is a data type with a
-- numbering, from which its equality test comes.
use envelockserver.Prelude.{
  ◌↔◌, true, ◌≡◌, ℕ, zero, suc, refl, Option, none, some, Comparable, coded_iff, nat_beq,
}

pub data SourceMechanism : Type 0 where
  graph_api gmail_api admin_api imap_idle imap_poll forward_ingest journal entra_logs google_reports
        client_sensor imap_flags cert_transparency zone_file rdap dmarc_rua threat_feed :
      SourceMechanism

abbrev pub source_mechanism_code : SourceMechanism → ℕ
source_mechanism_code graph_api = 0
source_mechanism_code gmail_api = 1
source_mechanism_code admin_api = 2
source_mechanism_code imap_idle = 3
source_mechanism_code imap_poll = 4
source_mechanism_code forward_ingest = 5
source_mechanism_code journal = 6
source_mechanism_code entra_logs = 7
source_mechanism_code google_reports = 8
source_mechanism_code client_sensor = 9
source_mechanism_code imap_flags = 10
source_mechanism_code cert_transparency = 11
source_mechanism_code zone_file = 12
source_mechanism_code rdap = 13
source_mechanism_code dmarc_rua = 14
source_mechanism_code threat_feed = 15

source_mechanism_decode : ℕ → Option SourceMechanism
source_mechanism_decode zero = some graph_api
source_mechanism_decode (suc zero) = some gmail_api
source_mechanism_decode (suc (suc zero)) = some admin_api
source_mechanism_decode (suc (suc (suc zero))) = some imap_idle
source_mechanism_decode (suc (suc (suc (suc zero)))) = some imap_poll
source_mechanism_decode (suc (suc (suc (suc (suc zero))))) = some forward_ingest
source_mechanism_decode (suc (suc (suc (suc (suc (suc zero)))))) = some journal
source_mechanism_decode (suc (suc (suc (suc (suc (suc (suc zero))))))) = some entra_logs
source_mechanism_decode (suc (suc (suc (suc (suc (suc (suc (suc zero)))))))) = some google_reports
source_mechanism_decode (suc (suc (suc (suc (suc (suc (suc (suc (suc zero))))))))) =
    some client_sensor
source_mechanism_decode (suc (suc (suc (suc (suc (suc (suc (suc (suc (suc zero)))))))))) =
    some imap_flags
source_mechanism_decode (suc (suc (suc (suc (suc (suc (suc (suc (suc (suc (suc zero))))))))))) =
    some cert_transparency
source_mechanism_decode
      (suc (suc (suc (suc (suc (suc (suc (suc (suc (suc (suc (suc zero)))))))))))) =
    some zone_file
source_mechanism_decode
      (suc (suc (suc (suc (suc (suc (suc (suc (suc (suc (suc (suc (suc zero))))))))))))) =
    some rdap
source_mechanism_decode
      (suc (suc (suc (suc (suc (suc (suc (suc (suc (suc (suc (suc (suc (suc zero)))))))))))))) =
    some dmarc_rua
source_mechanism_decode
      (suc
        (suc (suc (suc (suc (suc (suc (suc (suc (suc (suc (suc (suc (suc (suc zero))))))))))))))) =
    some threat_feed
source_mechanism_decode _ = none

source_mechanism_back :
    (a : SourceMechanism) → source_mechanism_decode (source_mechanism_code a) ≡ some a
unfolding source_mechanism_decode
source_mechanism_back graph_api = refl
source_mechanism_back gmail_api = refl
source_mechanism_back admin_api = refl
source_mechanism_back imap_idle = refl
source_mechanism_back imap_poll = refl
source_mechanism_back forward_ingest = refl
source_mechanism_back journal = refl
source_mechanism_back entra_logs = refl
source_mechanism_back google_reports = refl
source_mechanism_back client_sensor = refl
source_mechanism_back imap_flags = refl
source_mechanism_back cert_transparency = refl
source_mechanism_back zone_file = refl
source_mechanism_back rdap = refl
source_mechanism_back dmarc_rua = refl
source_mechanism_back threat_feed = refl

pub source_mechanism_iff :
    (a b : SourceMechanism)
    → (nat_beq (source_mechanism_code a) (source_mechanism_code b) ≡ true) ↔ (a ≡ b)
source_mechanism_iff = coded_iff source_mechanism_code source_mechanism_decode source_mechanism_back

instance abbrev pub source_mechanism_eq : Comparable SourceMechanism
source_mechanism_eq = record {
  equal = λ a b. nat_beq (source_mechanism_code a) (source_mechanism_code b);
  equal_iff = source_mechanism_iff;
}

pub data MailboxClass : Type 0 where
  protected monitored : MailboxClass

abbrev pub mailbox_class_code : MailboxClass → ℕ
mailbox_class_code protected = 0
mailbox_class_code monitored = 1

mailbox_class_decode : ℕ → Option MailboxClass
mailbox_class_decode zero = some protected
mailbox_class_decode (suc zero) = some monitored
mailbox_class_decode _ = none

mailbox_class_back : (a : MailboxClass) → mailbox_class_decode (mailbox_class_code a) ≡ some a
unfolding mailbox_class_decode
mailbox_class_back protected = refl
mailbox_class_back monitored = refl

pub mailbox_class_iff :
    (a b : MailboxClass) → (nat_beq (mailbox_class_code a) (mailbox_class_code b) ≡ true) ↔ (a ≡ b)
mailbox_class_iff = coded_iff mailbox_class_code mailbox_class_decode mailbox_class_back

instance abbrev pub mailbox_class_eq : Comparable MailboxClass
mailbox_class_eq = record {
  equal = λ a b. nat_beq (mailbox_class_code a) (mailbox_class_code b);
  equal_iff = mailbox_class_iff;
}

pub data ProtectionLevel : Type 0 where
  full standard limited : ProtectionLevel

abbrev pub protection_level_code : ProtectionLevel → ℕ
protection_level_code full = 0
protection_level_code standard = 1
protection_level_code limited = 2

protection_level_decode : ℕ → Option ProtectionLevel
protection_level_decode zero = some full
protection_level_decode (suc zero) = some standard
protection_level_decode (suc (suc zero)) = some limited
protection_level_decode _ = none

protection_level_back :
    (a : ProtectionLevel) → protection_level_decode (protection_level_code a) ≡ some a
unfolding protection_level_decode
protection_level_back full = refl
protection_level_back standard = refl
protection_level_back limited = refl

pub protection_level_iff :
    (a b : ProtectionLevel)
    → (nat_beq (protection_level_code a) (protection_level_code b) ≡ true) ↔ (a ≡ b)
protection_level_iff = coded_iff protection_level_code protection_level_decode protection_level_back

instance abbrev pub protection_level_eq : Comparable ProtectionLevel
protection_level_eq = record {
  equal = λ a b. nat_beq (protection_level_code a) (protection_level_code b);
  equal_iff = protection_level_iff;
}

pub data AlertTier : Type 0 where
  low medium high critical : AlertTier

abbrev pub alert_tier_code : AlertTier → ℕ
alert_tier_code low = 0
alert_tier_code medium = 1
alert_tier_code high = 2
alert_tier_code critical = 3

alert_tier_decode : ℕ → Option AlertTier
alert_tier_decode zero = some low
alert_tier_decode (suc zero) = some medium
alert_tier_decode (suc (suc zero)) = some high
alert_tier_decode (suc (suc (suc zero))) = some critical
alert_tier_decode _ = none

alert_tier_back : (a : AlertTier) → alert_tier_decode (alert_tier_code a) ≡ some a
unfolding alert_tier_decode
alert_tier_back low = refl
alert_tier_back medium = refl
alert_tier_back high = refl
alert_tier_back critical = refl

pub alert_tier_iff :
    (a b : AlertTier) → (nat_beq (alert_tier_code a) (alert_tier_code b) ≡ true) ↔ (a ≡ b)
alert_tier_iff = coded_iff alert_tier_code alert_tier_decode alert_tier_back

instance abbrev pub alert_tier_eq : Comparable AlertTier
alert_tier_eq = record {
  equal = λ a b. nat_beq (alert_tier_code a) (alert_tier_code b);
  equal_iff = alert_tier_iff;
}

pub data IdentityEventKind : Type 0 where
  sign_in session_start session_heartbeat message_opened flag_changed rule_changed delegate_changed
        oauth_grant signature_changed credential_changed mfa_changed :
      IdentityEventKind

abbrev pub identity_event_kind_code : IdentityEventKind → ℕ
identity_event_kind_code sign_in = 0
identity_event_kind_code session_start = 1
identity_event_kind_code session_heartbeat = 2
identity_event_kind_code message_opened = 3
identity_event_kind_code flag_changed = 4
identity_event_kind_code rule_changed = 5
identity_event_kind_code delegate_changed = 6
identity_event_kind_code oauth_grant = 7
identity_event_kind_code signature_changed = 8
identity_event_kind_code credential_changed = 9
identity_event_kind_code mfa_changed = 10

identity_event_kind_decode : ℕ → Option IdentityEventKind
identity_event_kind_decode zero = some sign_in
identity_event_kind_decode (suc zero) = some session_start
identity_event_kind_decode (suc (suc zero)) = some session_heartbeat
identity_event_kind_decode (suc (suc (suc zero))) = some message_opened
identity_event_kind_decode (suc (suc (suc (suc zero)))) = some flag_changed
identity_event_kind_decode (suc (suc (suc (suc (suc zero))))) = some rule_changed
identity_event_kind_decode (suc (suc (suc (suc (suc (suc zero)))))) = some delegate_changed
identity_event_kind_decode (suc (suc (suc (suc (suc (suc (suc zero))))))) = some oauth_grant
identity_event_kind_decode (suc (suc (suc (suc (suc (suc (suc (suc zero)))))))) =
    some signature_changed
identity_event_kind_decode (suc (suc (suc (suc (suc (suc (suc (suc (suc zero))))))))) =
    some credential_changed
identity_event_kind_decode (suc (suc (suc (suc (suc (suc (suc (suc (suc (suc zero)))))))))) =
    some mfa_changed
identity_event_kind_decode _ = none

identity_event_kind_back :
    (a : IdentityEventKind) → identity_event_kind_decode (identity_event_kind_code a) ≡ some a
unfolding identity_event_kind_decode
identity_event_kind_back sign_in = refl
identity_event_kind_back session_start = refl
identity_event_kind_back session_heartbeat = refl
identity_event_kind_back message_opened = refl
identity_event_kind_back flag_changed = refl
identity_event_kind_back rule_changed = refl
identity_event_kind_back delegate_changed = refl
identity_event_kind_back oauth_grant = refl
identity_event_kind_back signature_changed = refl
identity_event_kind_back credential_changed = refl
identity_event_kind_back mfa_changed = refl

pub identity_event_kind_iff :
    (a b : IdentityEventKind)
    → (nat_beq (identity_event_kind_code a) (identity_event_kind_code b) ≡ true) ↔ (a ≡ b)
identity_event_kind_iff =
    coded_iff identity_event_kind_code identity_event_kind_decode identity_event_kind_back

instance abbrev pub identity_event_kind_eq : Comparable IdentityEventKind
identity_event_kind_eq = record {
  equal = λ a b. nat_beq (identity_event_kind_code a) (identity_event_kind_code b);
  equal_iff = identity_event_kind_iff;
}
