-- ===== src/Detections/Identity/Coherence.antt =====
-- Each detection of detections/identity.py speaks once, under its name and with a fitting score.
use envelockserver.Prelude.{
  String, ◌≡◌, refl, true, Option, none, some, List, arith, text_comparable, number_comparable,
}
use envelockserver.Core.Enums.{
  source_mechanism_eq, mailbox_class_eq, protection_level_eq, alert_tier_eq, identity_event_kind_eq,
}
use envelockserver.Risk.Engine.{FindingResult}
use envelockserver.Detections.Context.{IdentityEvent, DetectionContext, Builtins}
use envelockserver.Detections.Coherent.{speaks}
use envelockserver.Detections.Identity.{
  on_identity, external_forward, rule_tampering, new_grant, concurrency, silent_access,
  credential_change,
}

pub speaks-on_identity :
    {V : Type 0} (f : IdentityEvent V → List FindingResult) (o : Option (IdentityEvent V))
    (service : String)
    → ((ev : IdentityEvent V) → speaks service (f ev) ≡ true)
    → speaks service (on_identity f o) ≡ true
unfolding on_identity
speaks-on_identity f none service h = refl
speaks-on_identity f (some ev) service h = h ev

module _ (b : Builtins) (ctx : DetectionContext b.Value) (ev : IdentityEvent b.Value) where
  pub speaks-external_forward : speaks "C1" (external_forward b ctx ev) ≡ true
  unfolding external_forward
  speaks-external_forward = ground arith

  pub speaks-rule_tampering : speaks "C2" (rule_tampering b ev) ≡ true
  unfolding rule_tampering
  speaks-rule_tampering = ground arith

  pub speaks-new_grant : speaks "C4" (new_grant b ev) ≡ true
  unfolding new_grant
  speaks-new_grant = ground arith

  pub speaks-concurrency : speaks "C6" (concurrency b ctx ev) ≡ true
  unfolding concurrency
  speaks-concurrency = ground arith

  pub speaks-silent_access : speaks "C11" (silent_access b ctx ev) ≡ true
  unfolding silent_access
  speaks-silent_access = ground arith

  pub speaks-credential_change : speaks "C12" (credential_change b ev) ≡ true
  unfolding credential_change
  speaks-credential_change = ground arith
