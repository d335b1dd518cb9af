-- ===== src/Detections/Suite.antt =====
-- The detections of group C as they are registered, by the calls of `register` at the end of
-- detections/identity.py, then of detections/sessions.py.
pub mod Coherence
use envelockserver.Prelude.{◌+◌, String, List, [], ◌∷◌, ◌++◌, text_comparable, number_comparable}
use envelockserver.Prelude.Dict.{Dict}
use envelockserver.Core.Capabilities.{
  capability_eq, read_outbound, read_flags, read_sessions, read_device_fingerprint,
  read_server_rules, read_oauth_grants, read_mfa_state,
}
use envelockserver.Detections.Context.{Builtins}
use envelockserver.Detections.Base.{registered, Detection}
use envelockserver.Detections.Identity.{
  external_forward, rule_tampering, new_grant, concurrency, silent_access, credential_change,
  detect,
}
use envelockserver.Detections.Sessions.{
  on_previous, delegate_change, signature_tampering, impossible_travel, location_change,
  network_classification, new_device, mfa_posture, counterparty_travel,
}

module _ (b : Builtins) where
  abbrev pub identity_detections : List (Detection b.Value)
  identity_detections =
      detect b "C1" (read_server_rules ∷ []) (external_forward b)
      ∷ detect b "C2" (read_server_rules ∷ []) (λ _. rule_tampering b)
      ∷ detect b "C4" (read_oauth_grants ∷ []) (λ _. new_grant b)
      ∷ detect b "C6" (read_sessions ∷ []) (concurrency b)
      ∷ detect b "C11" (read_flags ∷ []) (silent_access b)
      ∷ detect b "C12" (read_sessions ∷ []) (λ _. credential_change b)
      ∷ []

  abbrev pub session_detections : List (Detection b.Value)
  session_detections =
      detect b "C3" (read_server_rules ∷ []) (delegate_change b)
      ∷ detect b "C5" (read_outbound ∷ []) (λ _. signature_tampering b)
      ∷ detect b "C7" (read_sessions ∷ [])
          (λ ctx ev. on_previous (impossible_travel b ev) ctx.previous_session)
      ∷ detect b "C8" (read_sessions ∷ [])
          (λ ctx ev. on_previous (location_change b ev) ctx.previous_session)
      ∷ detect b "C9" (read_sessions ∷ []) (λ _. network_classification b)
      ∷ detect b "C10" (read_device_fingerprint ∷ []) (new_device b)
      ∷ detect b "C13" (read_mfa_state ∷ []) (mfa_posture b)
      ∷ detect b "C14" (read_sessions ∷ [])
          (λ ctx ev. on_previous (counterparty_travel b ev) ctx.previous_session)
      ∷ []

  abbrev pub group_c : List (Detection b.Value)
  group_c = identity_detections ++ session_detections

  abbrev pub registry : Dict String (Detection b.Value)
  registry = registered (group_c) []
