-- ===== src/Core/Capabilities/Coverage.antt =====
-- Which levels the configured sources reach (`protection_level` over `capabilities_for`).
use envelockserver.Prelude.{
  ℕ, ◌≤◌, ◌≡◌, refl, ◌↔◌, ◌∙◌, sym, Bool, true, false, ◌||◌, List, [], ◌∷◌, arith, contains, ◌==◌,
  ap, fun_ext, any_imp, contains-append, any, any_mono,
}
use envelockserver.Core.Enums.{
  SourceMechanism, ProtectionLevel, full, standard, limited, graph_api, gmail_api, admin_api,
  imap_idle, entra_logs, google_reports, client_sensor, source_mechanism_eq,
}
use envelockserver.Core.Capabilities.{
  Capability, capability_eq, modify_message, read_inbound, read_outbound, read_history,
  read_server_rules, read_sessions, mechanism_capabilities, capabilities_for, protection_level,
}

abbrev pub rank : ProtectionLevel → ℕ
rank limited = 0
rank standard = 1
rank full = 2

abbrev pub grants : Capability → SourceMechanism → Bool
grants c s = contains c (mechanism_capabilities s)

pub contains-capabilities_for :
    (c : Capability) (sources : List SourceMechanism)
    → contains c (capabilities_for sources) ≡ any (grants c) sources
unfolding capabilities_for
contains-capabilities_for c [] = refl
contains-capabilities_for c (s ∷ sources) =
    contains-append c (mechanism_capabilities s) (capabilities_for sources)
    ∙ (λ i. grants c s || contains-capabilities_for c sources i)

-- The level of a larger set of capabilities is at least as high.
pub protection_level_mono :
    (cs ds : List Capability)
    → ((c : Capability) → contains c cs ≡ true → contains c ds ≡ true)
    → rank (protection_level cs) ≤ rank (protection_level ds)
unfolding protection_level
protection_level_mono cs ds sub = ground (
  arith,
  sub modify_message,
  sub read_inbound,
  sub read_outbound,
  sub read_history,
  sub read_server_rules,
  sub read_sessions,
)

-- A mailbox whose sources include all the sources of another is at least as well protected, in
-- whatever order they are listed and however often: a source added never lowers the level, and a
-- source lost never raises it.
pub protection_level-capabilities_for_mono :
    (xs ys : List SourceMechanism)
    → ((s : SourceMechanism) → contains s xs ≡ true → contains s ys ≡ true)
    → rank (protection_level (capabilities_for xs)) ≤ rank (protection_level (capabilities_for ys))
protection_level-capabilities_for_mono xs ys sub =
    protection_level_mono (capabilities_for xs) (capabilities_for ys) λ c h.
      contains-capabilities_for c ys
      ∙ any_mono (grants c) xs ys sub (sym (contains-capabilities_for c xs) ∙ h)

-- Microsoft 365 and Google Workspace.
abbrev pub is_suite : SourceMechanism → Bool
is_suite s = s == graph_api || s == gmail_api

-- The sources that see sign-in sessions.
abbrev pub is_session_source : SourceMechanism → Bool
is_session_source s = s == entra_logs || s == google_reports || s == client_sensor

-- The direct connections that can move a message.
abbrev pub is_writable : SourceMechanism → Bool
is_writable s = s == graph_api || s == gmail_api || s == admin_api || s == imap_idle

grants-read_server_rules : (s : SourceMechanism) → grants read_server_rules s ≡ is_suite s
grants-read_server_rules graph_api = refl
grants-read_server_rules _ = refl

grants-read_sessions : (s : SourceMechanism) → grants read_sessions s ≡ is_session_source s
grants-read_sessions graph_api = refl
grants-read_sessions _ = refl

grants-modify_message : (s : SourceMechanism) → grants modify_message s ≡ is_writable s
grants-modify_message graph_api = refl
grants-modify_message _ = refl

suite_grants :
    (s : SourceMechanism)
    → is_suite s ≡ true
    → (grants modify_message s ≡ true)
      × (grants read_inbound s ≡ true)
      × (grants read_outbound s ≡ true)
      × (grants read_history s ≡ true)
suite_grants graph_api h = (refl, refl, refl, refl)
suite_grants gmail_api h = (refl, refl, refl, refl)
suite_grants _ h = cc

writable_reads : (s : SourceMechanism) → is_writable s ≡ true → grants read_inbound s ≡ true
writable_reads graph_api h = refl
writable_reads _ h = ground arith

-- Full protection needs exactly two things: a Microsoft 365 or Google Workspace connection, and a
-- source of sign-in sessions. So IMAP, forwarding and the sensor never reach it together.
pub protection_level-full_iff :
    (xs : List SourceMechanism)
    → (protection_level (capabilities_for xs) ≡ full)
      ↔ ((any is_suite xs ≡ true) × (any is_session_source xs ≡ true))
unfolding protection_level
protection_level-full_iff xs =
    let suite : any (grants read_server_rules) xs ≡ any is_suite xs =
      ap (λ p. any p xs) (fun_ext grants-read_server_rules) in
    let sessions : any (grants read_sessions) xs ≡ any is_session_source xs =
      ap (λ p. any p xs) (fun_ext grants-read_sessions) in
    let modify = any_imp is_suite (grants modify_message) xs (λ s h. (suite_grants s h).0) in
    let inbound = any_imp is_suite (grants read_inbound) xs (λ s h. (suite_grants s h).1) in
    let outbound = any_imp is_suite (grants read_outbound) xs (λ s h. (suite_grants s h).2) in
    let history = any_imp is_suite (grants read_history) xs (λ s h. (suite_grants s h).3) in
    simp contains-capabilities_for
      (rw (suite, sessions) (ground (arith, modify, inbound, outbound, history)))

-- A mailbox is at least Standard exactly when one of its sources can move a message: forwarding and
-- journals never suffice.
pub protection_level-limited_iff :
    (xs : List SourceMechanism)
    → (protection_level (capabilities_for xs) ≡ limited) ↔ (any is_writable xs ≡ false)
unfolding protection_level
protection_level-limited_iff xs =
    let writable : any (grants modify_message) xs ≡ any is_writable xs =
      ap (λ p. any p xs) (fun_ext grants-modify_message) in
    let inbound = any_imp is_writable (grants read_inbound) xs writable_reads in
    simp contains-capabilities_for (rw writable (ground (arith, inbound)))
