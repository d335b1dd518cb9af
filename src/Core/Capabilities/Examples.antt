-- ===== src/Core/Capabilities/Examples.antt =====
-- Runs of the capability model, and its theorems at concrete sources.
use envelockserver.Prelude.{◌≡◌, refl, ◌↔◌, true, List, [], ◌∷◌, any}
use envelockserver.Core.Enums.{
  SourceMechanism, full, standard, imap_idle, forward_ingest, client_sensor, source_mechanism_eq,
}
use envelockserver.Core.Capabilities.{capabilities_for, protection_level, capability_eq}
use envelockserver.Core.Capabilities.Coverage.{
  is_suite, is_session_source, protection_level-full_iff,
}

abbrev imap_with_sensor : List SourceMechanism
imap_with_sensor = imap_idle ∷ client_sensor ∷ []

abbrev forwarding : List SourceMechanism
forwarding = forward_ingest ∷ []

imap_with_sensor_standard : protection_level (capabilities_for imap_with_sensor) ≡ standard
unfolding protection_level capabilities_for
imap_with_sensor_standard = refl

full_iff_example :
    (protection_level (capabilities_for imap_with_sensor) ≡ full)
    ↔ ((any is_suite imap_with_sensor ≡ true) × (any is_session_source imap_with_sensor ≡ true))
full_iff_example = protection_level-full_iff imap_with_sensor
