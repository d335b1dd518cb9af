-- ===== src/Detections/Identity.antt =====
-- src/envelock/detections/identity.py: the six detections of that file. Of the evidence of a
-- finding the entries whose value is a text are kept.
pub mod Access
pub mod Coherence
use envelockserver.Prelude.{
  ℕ, ◌-◌, ◌/◌, String, Bool, not, ◌&&◌, ◌||◌, Option, none, some, List, [], ◌∷◌, ltb, leb,
  if◌then◌else◌, ◌==◌, text_comparable, number_comparable, contains,
}
use envelockserver.Prelude.Dict.{Dict}
use envelockserver.Core.Enums.{
  source_mechanism_eq, mailbox_class_eq, protection_level_eq, alert_tier_eq, identity_event_kind_eq,
  standard, AlertTier, high, critical, IdentityEventKind, session_start, flag_changed, rule_changed,
  oauth_grant, credential_changed, mfa_changed,
}
use envelockserver.Core.Capabilities.{capability_eq, Capability}
use envelockserver.Risk.Engine.{FindingResult}
use envelockserver.Prelude.Text.{has_text, has_any, concat, text_or, shown, texts}
use envelockserver.Detections.Context.{NetworkContext, IdentityEvent, DetectionContext, Builtins}
use envelockserver.Detections.Base.{Detection}

abbrev pub finding : String → AlertTier → ℕ → String → Dict String String → FindingResult
finding service tier score summary evidence = record {
  service = service;
  tier = tier;
  score = score;
  summary = summary;
  evidence = evidence;
}

-- `ev = ctx.identity`, and nothing when there is none.
unfoldable pub on_identity :
    {V : Type 0}
    → (IdentityEvent V → List FindingResult)
    → Option (IdentityEvent V)
    → List FindingResult
on_identity f none = []
on_identity f (some ev) = f ev

abbrev pub suspicious_words : List String
suspicious_words = "delete" ∷ "trash" ∷ "junk" ∷ "archive" ∷ "mark as read" ∷ []

abbrev pub finance_words : List String
finance_words = "invoice" ∷ "payment" ∷ "bank" ∷ "wire" ∷ "remit" ∷ "swift" ∷ "iban" ∷ []

abbrev pub mail_scopes : List String
mail_scopes = "mail.read" ∷ "mail.readwrite" ∷ "imap.accessasuser" ∷ "https://mail.google.com" ∷ []

-- `is_vpn or is_hosting or is_tor`
abbrev pub on_risky_network : {V : Type 0} → NetworkContext V → Bool
on_risky_network net = net.is_vpn || net.is_hosting || net.is_tor

-- `ev.kind.value`, at the kinds that reach the evidence of a credential change.
abbrev kind_value : IdentityEventKind → String
kind_value mfa_changed = "mfa_changed"
kind_value _ = "credential_changed"

module _ (b : Builtins) where
  -- `_C1ExternalForward`
  pub external_forward : DetectionContext b.Value → IdentityEvent b.Value → List FindingResult
  external_forward ctx ev =
      let target = b.lower (text_or "" ev.after) in
      let destination = b.registrable_domain target in
      if not (ev.kind == rule_changed)
      then []
      else if not (has_text "@" target)
      then []
      else if destination == "" || contains destination ctx.owned_domains
      then []
      else finding "C1" critical 100
          (concat (
            "A rule was created forwarding mail to " ∷ destination ∷ ", outside your organisation."
            ∷ []))
          (texts (("rule", ev.target) ∷ ("destination", some destination) ∷ ("raw", ev.after) ∷ []))
        ∷ []

  -- `_C2RuleTampering`
  pub rule_tampering : IdentityEvent b.Value → List FindingResult
  rule_tampering ev =
      let blob = b.lower (concat (text_or "" ev.target ∷ " " ∷ text_or "" ev.after ∷ [])) in
      if not (ev.kind == rule_changed)
      then []
      else if not (has_any suspicious_words blob && has_any finance_words blob)
      then []
      else finding "C2" critical 95
          "A rule was created that hides finance-related mail — the standard way an attacker conceals invoice fraud."
          (texts (("rule", ev.target) ∷ ("definition", ev.after) ∷ []))
        ∷ []

  -- `_C4OAuthGrant`
  pub new_grant : IdentityEvent b.Value → List FindingResult
  new_grant ev =
      let scopes = b.lower (text_or "" ev.after) in
      if not (ev.kind == oauth_grant)
      then []
      else if not (has_any mail_scopes scopes)
      then []
      else finding "C4" critical 100
          (concat (
            "An application (\""
            ∷ shown ev.target
            ∷ "\") was granted permission to read this mailbox. This survives password changes and MFA."
            ∷ []))
          (texts (("application", ev.target) ∷ ("scopes", ev.after) ∷ []))
        ∷ []

  -- `_C6Concurrency`
  pub concurrency : DetectionContext b.Value → IdentityEvent b.Value → List FindingResult
  concurrency ctx ev =
      let net = ev.network in
      if not (ev.kind == session_start)
      then []
      else if leb ctx.active_sessions 1
      then []
      else if not (on_risky_network net)
      then []
      else finding "C6" high 80
          (concat (
            "A concurrent session opened from "
            ∷ text_or "an unknown country" net.country
            ∷ " on an anonymising or hosting network while other sessions were active."
            ∷ []))
          (texts (
            ("ip", net.ip)
            ∷ ("country", net.country)
            ∷ ("asn_name", net.asn_name)
            ∷ ("browser", ev.device.browser)
            ∷ ("mail_client", ev.device.mail_client)
            ∷ []))
        ∷ []

  -- `_C11SilentAccess`
  unfoldable pub silent_access :
      DetectionContext b.Value → IdentityEvent b.Value → List FindingResult
  silent_access ctx ev =
      if not (ev.kind == flag_changed)
      then []
      else if ev.sensor_attested || ltb 0 ctx.active_sessions
      then []
      else if not (text_or "" ev.after == "seen")
      then []
      else finding "C11" critical 95
          "A message was marked as read while none of your devices were signed in. Someone else may be in this mailbox — change the password now."
          (texts (("message", ev.target) ∷ ("occurred_at", some (b.isoformat ev.occurred_at)) ∷ []))
        ∷ []

  -- `_C12CredentialChange`
  pub credential_change : IdentityEvent b.Value → List FindingResult
  credential_change ev =
      let removed = ev.kind == mfa_changed && has_text "remov" (b.lower (text_or "" ev.after)) in
      if not (ev.kind == credential_changed || ev.kind == mfa_changed)
      then []
      else finding "C12" (if removed then critical else high) (if removed then 95 else 70)
          (if removed
            then "Multi-factor authentication was removed from this account."
            else "Account credentials or recovery details were changed.")
          (texts (
            ("kind", some (kind_value ev.kind)) ∷ ("before", ev.before) ∷ ("after", ev.after) ∷ []))
        ∷ []

  abbrev pub detect :
      String
      → List Capability
      → (DetectionContext b.Value → IdentityEvent b.Value → List FindingResult)
      → Detection b.Value
  detect service requires f = record {
    service = service;
    requires = requires;
    evaluate = λ ctx. on_identity (f ctx) ctx.identity;
  }
