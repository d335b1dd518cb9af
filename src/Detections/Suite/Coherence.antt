-- ===== src/Detections/Suite/Coherence.antt =====
-- What group C reports as a whole, and what the risk engine makes of it.
use envelockserver.Prelude.{
  ◌≤◌, String, ◌≡◌, Bool, true, some, List, [], ◌∷◌, if◌then◌else◌, text_comparable,
  number_comparable, All, length, All-append,
}
use envelockserver.Core.Enums.{
  source_mechanism_eq, mailbox_class_eq, protection_level_eq, alert_tier_eq, identity_event_kind_eq,
}
use envelockserver.Core.Capabilities.{capability_eq}
use envelockserver.Risk.Engine.{order, assess, FindingResult, RiskAssessment, Float}
use envelockserver.Risk.Engine.Tiers.{assess_tier_ge}
use envelockserver.Risk.Engine.Score.{InRange, assess_score_bounds}
use envelockserver.Detections.Context.{IdentityEvent, PreviousSession, DetectionContext, Builtins}
use envelockserver.Detections.Base.{active_for, run_all}
use envelockserver.Detections.Base.Registry.{is_active}
use envelockserver.Detections.Coherent.{tier_of, speaks}
use envelockserver.Detections.Base.Reports.{AllSpeak, reports, run_all-IsSound, IsSound}
use envelockserver.Detections.Identity.{
  on_identity, external_forward, rule_tampering, new_grant, concurrency, silent_access,
  credential_change,
}
use envelockserver.Detections.Sessions.{
  on_previous, delegate_change, signature_tampering, network_classification, new_device,
  mfa_posture,
}
use envelockserver.Detections.Identity.Coherence.{
  speaks-on_identity, speaks-external_forward, speaks-rule_tampering, speaks-new_grant,
  speaks-concurrency, speaks-silent_access, speaks-credential_change,
}
use envelockserver.Detections.Sessions.Coherence.{
  speaks-on_previous, speaks-delegate_change, speaks-signature_tampering,
  speaks-network_classification, speaks-new_device, speaks-mfa_posture, speaks-impossible_travel,
  speaks-location_change, speaks-counterparty_travel,
}
use envelockserver.Detections.Suite.{identity_detections, session_detections, group_c, registry}

module _ (names : String → Bool) where
  IsSound-InRange : (fs : List FindingResult) → All (IsSound names) fs → InRange fs
  IsSound-InRange [] h = tt
  IsSound-InRange (f ∷ fs) h = (h.0.bounded, IsSound-InRange fs h.1)

  IsSound-both :
      (fs : List FindingResult) (a : RiskAssessment)
      → All (IsSound names) fs
      → All (λ f. f.score ≤ a.score) fs
      → All (λ f. order f.tier ≤ order a.tier) fs
      → All (λ f. (f.score ≤ a.score) × (order (tier_of f.score) ≤ order a.tier)) fs
  IsSound-both [] a h k l = tt
  IsSound-both (f ∷ fs) a h k l = ((k.0, rw h.0.fits at l.0), IsSound-both fs a h.1 k.1 l.1)

module _ (b : Builtins) (ctx : DetectionContext b.Value) where
  group_c-AllSpeak : AllSpeak ctx (group_c b)
  group_c-AllSpeak =
      All-append (λ d. speaks d.service (d.evaluate ctx) ≡ true) (identity_detections b)
        (session_detections b)
        (
          heard _ (external_forward b ctx) (speaks-external_forward b ctx),
          (
            heard _ (rule_tampering b) (speaks-rule_tampering b ctx),
            (
              heard _ (new_grant b) (speaks-new_grant b ctx),
              (
                heard _ (concurrency b ctx) (speaks-concurrency b ctx),
                (
                  heard _ (silent_access b ctx) (speaks-silent_access b ctx),
                  (heard _ (credential_change b) (speaks-credential_change b ctx), tt),
                ),
              ),
            ),
          ),
        )
        (
          heard _ (delegate_change b ctx) (speaks-delegate_change b ctx),
          (
            heard _ (signature_tampering b) (speaks-signature_tampering b ctx),
            (
              heard _ _ (λ ev. followed _ _ (speaks-impossible_travel b ev)),
              (
                heard _ _ (λ ev. followed _ _ (speaks-location_change b ev)),
                (
                  heard _ (network_classification b) (speaks-network_classification b ctx),
                  (
                    heard _ (new_device b ctx) (speaks-new_device b ctx),
                    (
                      heard _ (mfa_posture b ctx) (speaks-mfa_posture b ctx),
                      (heard _ _ (λ ev. followed _ _ (speaks-counterparty_travel b ev)), tt),
                    ),
                  ),
                ),
              ),
            ),
          ),
        )
    where
      heard :
          (service : String) (f : IdentityEvent b.Value → List FindingResult)
          → ((ev : IdentityEvent b.Value) → speaks service (f ev) ≡ true)
          → speaks service (on_identity f ctx.identity) ≡ true
      heard service f h = speaks-on_identity f ctx.identity service h

      followed :
          (service : String) (f : PreviousSession b.Value → List FindingResult)
          → ((prev : PreviousSession b.Value) → speaks service (f prev) ≡ true)
          → speaks service (on_previous f ctx.previous_session) ≡ true
      followed service f h = speaks-on_previous f ctx.previous_session service h

  -- Every finding that group C reports on an event has a score of at most 100, the tier that belongs to
  -- its score, and the name of a detection that is active on the mailbox. Under any one name there is at
  -- most one finding, and none unless the detection of that name is active; so there are no more findings
  -- than active detections.
  pub run_all-group_c :
      (s : String)
      → All (IsSound (is_active ctx.capabilities (registry b))) (run_all (registry b) ctx)
        × (reports s (run_all (registry b) ctx)
            ≤ (if is_active ctx.capabilities (registry b) s then 1 else 0))
        × (length (run_all (registry b) ctx) ≤ length (active_for ctx.capabilities (registry b)))
  run_all-group_c s = run_all-IsSound ctx (group_c b) s group_c-AllSpeak

  -- Where the risk engine assesses what group C reports, no finding has a higher score or a higher tier
  -- than the assessment, whose score is at most 100.
  pub assess_group_c :
      (fl : Float) {a : RiskAssessment}
      → assess fl (run_all (registry b) ctx) ≡ some a
      → (a.score ≤ 100)
        × All
            (λ (f : FindingResult). (f.score ≤ a.score) × (order (tier_of f.score) ≤ order a.tier))
            (run_all (registry b) ctx)
  assess_group_c fl {a} h =
      let fs = run_all (registry b) ctx in
      let sound = (run_all-group_c "").0 in
      let (top, scores) = assess_score_bounds fl fs h (IsSound-InRange _ fs sound) in
      (top, IsSound-both _ fs a sound scores (assess_tier_ge fl fs h))
