-- ===== src/Detections/Sessions/Coherence.antt =====
-- Each detection of detections/sessions.py speaks once, under its name and with a fitting score.
use envelockserver.Prelude.{
  String, ◌≡◌, refl, true, Option, none, some, List, arith, text_comparable, number_comparable,
}
use envelockserver.Core.Enums.{
  source_mechanism_eq, mailbox_class_eq, protection_level_eq, alert_tier_eq, identity_event_kind_eq,
}
use envelockserver.Risk.Engine.{FindingResult}
use envelockserver.Detections.Context.{IdentityEvent, PreviousSession, DetectionContext, Builtins}
use envelockserver.Detections.Coherent.{speaks}
use envelockserver.Detections.Sessions.{
  on_previous, delegate_change, signature_tampering, impossible_travel, location_change,
  network_classification, new_device, mfa_posture, counterparty_travel,
}

pub speaks-on_previous :
    {V : Type 0} (f : PreviousSession V → List FindingResult) (o : Option (PreviousSession V))
    (service : String)
    → ((prev : PreviousSession V) → speaks service (f prev) ≡ true)
    → speaks service (on_previous f o) ≡ true
unfolding on_previous
speaks-on_previous f none service h = refl
speaks-on_previous f (some prev) service h = h prev

module _ (b : Builtins) (ctx : DetectionContext b.Value) (ev : IdentityEvent b.Value) where
  pub speaks-delegate_change : speaks "C3" (delegate_change b ctx ev) ≡ true
  unfolding delegate_change
  speaks-delegate_change = ground arith

  pub speaks-signature_tampering : speaks "C5" (signature_tampering b ev) ≡ true
  unfolding signature_tampering
  speaks-signature_tampering = ground arith

  pub speaks-network_classification : speaks "C9" (network_classification b ev) ≡ true
  unfolding network_classification
  speaks-network_classification = ground arith

  pub speaks-new_device : speaks "C10" (new_device b ctx ev) ≡ true
  unfolding new_device
  speaks-new_device = ground arith

  pub speaks-mfa_posture : speaks "C13" (mfa_posture b ctx ev) ≡ true
  unfolding mfa_posture
  speaks-mfa_posture = ground arith

module _ (b : Builtins) (ev : IdentityEvent b.Value) (prev : PreviousSession b.Value) where
  pub speaks-impossible_travel : speaks "C7" (impossible_travel b ev prev) ≡ true
  unfolding impossible_travel
  speaks-impossible_travel = ground arith

  pub speaks-location_change : speaks "C8" (location_change b ev prev) ≡ true
  unfolding location_change
  speaks-location_change = ground arith

  pub speaks-counterparty_travel : speaks "C14" (counterparty_travel b ev prev) ≡ true
  unfolding counterparty_travel
  speaks-counterparty_travel = ground arith
