-- ===== src/Detections/Identity/Access.antt =====
-- When the detections of a takeover fire.
use envelockserver.Prelude.{
  ◌≤◌, ◌≡◌, ◌≢◌, ◌↔◌, true, false, arith, text_comparable, number_comparable, length, contains,
}
use envelockserver.Core.Enums.{
  source_mechanism_eq, mailbox_class_eq, protection_level_eq, alert_tier_eq,
  identity_event_kind_iff, identity_event_kind_eq, flag_changed, rule_changed,
}
use envelockserver.Prelude.Text.{has_text, text_or}
use envelockserver.Detections.Context.{IdentityEvent, DetectionContext, Builtins}
use envelockserver.Detections.Identity.{external_forward, silent_access}

module _ (b : Builtins) where
  -- A flag that changed raises an alarm exactly when the message was marked as read, no
  -- sensor reported it and no session of the mailbox is open.
  pub silent_access_iff :
      (ctx : DetectionContext b.Value) (ev : IdentityEvent b.Value)
      → (1 ≤ length (silent_access b ctx ev)) ↔ (
          (ev.kind ≡ flag_changed)
          × (ev.sensor_attested ≡ false)
          × (ctx.active_sessions ≡ 0)
          × (text_or "" ev.after ≡ "seen"))
  unfolding silent_access
  silent_access_iff ctx ev = ground (
    arith,
    identity_event_kind_iff ev.kind flag_changed,
    text_comparable.equal_iff (text_or "" ev.after) "seen",
  )

  -- A forwarding alarm is raised exactly when a rule changed, its new value names an address, and
  -- the address belongs to a domain, which is none of the organisation's own.
  pub external_forward_iff :
      (ctx : DetectionContext b.Value) (ev : IdentityEvent b.Value)
      → let target = b.lower (text_or "" ev.after) in
        let destination = b.registrable_domain target in
        (1 ≤ length (external_forward b ctx ev)) ↔ (
          (ev.kind ≡ rule_changed)
          × (has_text "@" target ≡ true)
          × (destination ≢ "")
          × (contains destination ctx.owned_domains ≡ false))
  unfolding external_forward
  external_forward_iff ctx ev =
      let target = b.lower (text_or "" ev.after) in
      let destination = b.registrable_domain target in
      ground (
        arith,
        identity_event_kind_iff ev.kind rule_changed,
        text_comparable.equal_iff destination "",
      )
