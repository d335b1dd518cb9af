-- ===== src/Platform/Remediation/Plans.antt =====
-- When a remediation is promised.
use envelockserver.Prelude.{
  ◌≡◌, ◌≢◌, ◌↔◌, true, List, arith, text_comparable, number_comparable, any,
}
use envelockserver.Core.Enums.{
  source_mechanism_eq, mailbox_class_eq, protection_level_eq, alert_tier_eq, identity_event_kind_eq,
  SourceMechanism, forward_ingest, journal,
}
use envelockserver.Core.Capabilities.{capability_eq, capabilities_for, modify_message}
use envelockserver.Core.Capabilities.Coverage.{grants, contains-capabilities_for}
use envelockserver.Platform.Remediation.{can_remediate, plan_remediation, RemediationAction}

-- For a mailbox that is connected by `sources`, an action on a message is promised exactly when one of these
-- grants to modify messages and the message came neither by forwarding nor by journaling.
pub plan_remediation_iff :
    (action : RemediationAction) (sources : List SourceMechanism) (source : SourceMechanism)
    → ((plan_remediation action (capabilities_for sources) source).succeeded ≡ true) ↔ (
        (source ≢ forward_ingest)
        × (source ≢ journal)
        × (any (grants modify_message) sources ≡ true))
unfolding plan_remediation can_remediate
plan_remediation_iff action sources source = ground (
  arith,
  contains-capabilities_for modify_message sources,
  source_mechanism_eq.equal_iff source forward_ingest,
  source_mechanism_eq.equal_iff source journal,
)
