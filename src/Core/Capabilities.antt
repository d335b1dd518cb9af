-- ===== src/Core/Capabilities.antt =====
-- src/envelock/core/capabilities.py: what each mechanism can do, and the protection level that is
-- derived from it. A frozenset is a list, read only by membership. The lists of requirements stand
-- in the order of the capabilities' values, so what filters them is sorted by value as the source
-- sorts it. `_CAPABILITY_GUIDANCE` is prose and is left out.
pub mod Coverage
mod Advice
mod Examples
use envelockserver.Prelude.{
  ◌↔◌, ℕ, zero, suc, ◌≡◌, refl, Option, none, some, Comparable, coded_iff, nat_beq, Bool, true,
  false, not, List, [], ◌∷◌, ◌++◌, map, contains, subset, filter, if◌then◌else◌,
}
use envelockserver.Core.Enums.{
  SourceMechanism, graph_api, gmail_api, admin_api, imap_idle, imap_poll, forward_ingest, journal,
  entra_logs, google_reports, client_sensor, imap_flags, cert_transparency, zone_file, rdap,
  dmarc_rua, threat_feed, ProtectionLevel, full, standard, limited, source_mechanism_eq,
}

pub data Capability : Type 0 where
  read_inbound read_outbound read_history modify_message read_flags read_signin_logs read_sessions
        read_device_fingerprint read_server_rules read_oauth_grants read_mfa_state observe_domain
        observe_dmarc :
      Capability

abbrev pub capability_code : Capability → ℕ
capability_code read_inbound = 0
capability_code read_outbound = 1
capability_code read_history = 2
capability_code modify_message = 3
capability_code read_flags = 4
capability_code read_signin_logs = 5
capability_code read_sessions = 6
capability_code read_device_fingerprint = 7
capability_code read_server_rules = 8
capability_code read_oauth_grants = 9
capability_code read_mfa_state = 10
capability_code observe_domain = 11
capability_code observe_dmarc = 12

capability_decode : ℕ → Option Capability
capability_decode zero = some read_inbound
capability_decode (suc zero) = some read_outbound
capability_decode (suc (suc zero)) = some read_history
capability_decode (suc (suc (suc zero))) = some modify_message
capability_decode (suc (suc (suc (suc zero)))) = some read_flags
capability_decode (suc (suc (suc (suc (suc zero))))) = some read_signin_logs
capability_decode (suc (suc (suc (suc (suc (suc zero)))))) = some read_sessions
capability_decode (suc (suc (suc (suc (suc (suc (suc zero))))))) = some read_device_fingerprint
capability_decode (suc (suc (suc (suc (suc (suc (suc (suc zero)))))))) = some read_server_rules
capability_decode (suc (suc (suc (suc (suc (suc (suc (suc (suc zero))))))))) =
    some read_oauth_grants
capability_decode (suc (suc (suc (suc (suc (suc (suc (suc (suc (suc zero)))))))))) =
    some read_mfa_state
capability_decode (suc (suc (suc (suc (suc (suc (suc (suc (suc (suc (suc zero))))))))))) =
    some observe_domain
capability_decode (suc (suc (suc (suc (suc (suc (suc (suc (suc (suc (suc (suc zero)))))))))))) =
    some observe_dmarc
capability_decode _ = none

capability_back : (a : Capability) → capability_decode (capability_code a) ≡ some a
unfolding capability_decode
capability_back read_inbound = refl
capability_back read_outbound = refl
capability_back read_history = refl
capability_back modify_message = refl
capability_back read_flags = refl
capability_back read_signin_logs = refl
capability_back read_sessions = refl
capability_back read_device_fingerprint = refl
capability_back read_server_rules = refl
capability_back read_oauth_grants = refl
capability_back read_mfa_state = refl
capability_back observe_domain = refl
capability_back observe_dmarc = refl

pub capability_iff :
    (a b : Capability) → (nat_beq (capability_code a) (capability_code b) ≡ true) ↔ (a ≡ b)
capability_iff = coded_iff capability_code capability_decode capability_back

instance abbrev pub capability_eq : Comparable Capability
capability_eq = record {
  equal = λ a b. nat_beq (capability_code a) (capability_code b);
  equal_iff = capability_iff;
}

-- `MECHANISM_CAPABILITIES`. Every mechanism has an entry, so the default of `.get` is never taken.
abbrev pub mechanism_capabilities : SourceMechanism → List Capability
mechanism_capabilities graph_api =
    read_inbound ∷ read_outbound ∷ read_history ∷ modify_message ∷ read_flags ∷ read_server_rules
    ∷ read_oauth_grants ∷ []
mechanism_capabilities gmail_api =
    read_inbound ∷ read_outbound ∷ read_history ∷ modify_message ∷ read_flags ∷ read_server_rules
    ∷ read_oauth_grants ∷ []
mechanism_capabilities admin_api =
    read_inbound ∷ read_outbound ∷ read_history ∷ modify_message ∷ read_flags ∷ []
mechanism_capabilities imap_idle =
    read_inbound ∷ read_outbound ∷ read_history ∷ modify_message ∷ read_flags ∷ []
mechanism_capabilities imap_poll = read_inbound ∷ read_outbound ∷ read_history ∷ read_flags ∷ []
mechanism_capabilities forward_ingest = read_inbound ∷ []
mechanism_capabilities journal = read_inbound ∷ read_outbound ∷ []
mechanism_capabilities entra_logs =
    read_signin_logs ∷ read_sessions ∷ read_mfa_state ∷ read_oauth_grants ∷ []
mechanism_capabilities google_reports =
    read_signin_logs ∷ read_sessions ∷ read_mfa_state ∷ read_oauth_grants ∷ []
mechanism_capabilities client_sensor = read_sessions ∷ read_device_fingerprint ∷ []
mechanism_capabilities imap_flags = read_flags ∷ []
mechanism_capabilities cert_transparency = observe_domain ∷ []
mechanism_capabilities zone_file = observe_domain ∷ []
mechanism_capabilities rdap = observe_domain ∷ []
mechanism_capabilities dmarc_rua = observe_dmarc ∷ []
mechanism_capabilities threat_feed = observe_domain ∷ []

-- The union over the configured sources.
pub capabilities_for : List SourceMechanism → List Capability
capabilities_for [] = []
capabilities_for (source ∷ sources) = mechanism_capabilities source ++ capabilities_for sources

abbrev pub full_requirements : List Capability
full_requirements =
    modify_message ∷ read_history ∷ read_inbound ∷ read_outbound ∷ read_server_rules ∷ read_sessions
    ∷ []

abbrev pub standard_requirements : List Capability
standard_requirements = modify_message ∷ read_inbound ∷ []

pub protection_level : List Capability → ProtectionLevel
protection_level capabilities =
    if subset full_requirements capabilities
    then full
    else if subset standard_requirements capabilities
    then standard
    else limited

abbrev all_mechanisms : List SourceMechanism
all_mechanisms =
    graph_api ∷ gmail_api ∷ admin_api ∷ imap_idle ∷ imap_poll ∷ forward_ingest ∷ journal
    ∷ entra_logs ∷ google_reports ∷ client_sensor ∷ imap_flags ∷ cert_transparency ∷ zone_file
    ∷ rdap ∷ dmarc_rua ∷ threat_feed ∷ []

-- `_sources_granting`, in the order of the table and not sorted by name.
sources_granting : Capability → List SourceMechanism
sources_granting capability =
    filter (λ s. contains capability (mechanism_capabilities s)) all_mechanisms

-- An entry of `missing`: the capability and `provided_by`.
pub record Missing : Type 0 where
  pub capability : Capability
  pub provided_by : List SourceMechanism

pub record ProtectionAdvice : Type 0 where
  pub level : ProtectionLevel
  pub is_max : Bool
  pub next_level : Option ProtectionLevel
  pub missing : List Missing

next_level_of : ProtectionLevel → ProtectionLevel
next_level_of limited = standard
next_level_of _ = full

requirements_of : ProtectionLevel → List Capability
requirements_of standard = standard_requirements
requirements_of _ = full_requirements

describe : Capability → Missing
describe cap = record { capability = cap; provided_by = sources_granting cap }

missing_for : List Capability → List Capability → List Missing
unfolding describe
missing_for required caps = map describe (filter (λ c. not (contains c caps)) required)

advise : ProtectionLevel → List Capability → ProtectionAdvice
unfolding next_level_of requirements_of missing_for
advise full caps = record { level = full; is_max = true; next_level = none; missing = [] }
advise level caps = record {
  level = level;
  is_max = false;
  next_level = some (next_level_of level);
  missing = missing_for (requirements_of (next_level_of level)) caps;
}

pub protection_advice : List SourceMechanism → ProtectionAdvice
unfolding advise
protection_advice sources =
    let caps = capabilities_for sources in advise (protection_level caps) caps
