-- ===== src/Detections/Sessions.antt =====
-- src/envelock/detections/sessions.py: the eight detections of that file. Of the
-- evidence of a finding the entries whose value is a text are kept. The difference of two times stops
-- at zero; where the source has a negative one, the minimum of one minute takes its place as well.
pub mod Travel
pub mod Coherence
use envelockserver.Prelude.{
  ℕ, ◌-◌, ◌/◌, String, Bool, true, false, not, ◌&&◌, ◌||◌, Option, none, some, List, [], ◌∷◌, ltb,
  leb, if◌then◌else◌, ◌==◌, text_comparable, number_comparable, length, filter, all, contains,
}
use envelockserver.Core.Enums.{
  source_mechanism_eq, mailbox_class_eq, protection_level_eq, alert_tier_eq, identity_event_kind_eq,
  low, medium, high, critical, IdentityEventKind, sign_in, session_start, delegate_changed,
  signature_changed, mfa_changed,
}
use envelockserver.Core.Capabilities.{capability_eq}
use envelockserver.Risk.Engine.{FindingResult}
use envelockserver.Prelude.Text.{has_text, first_chars, concat, text_or, shown, texts}
use envelockserver.Detections.Context.{
  NetworkContext, IdentityEvent, PreviousSession, DetectionContext, Builtins,
}
use envelockserver.Detections.Identity.{finding, on_risky_network}

-- `kind in (SIGN_IN, SESSION_START)`
abbrev pub signs_in : IdentityEventKind → Bool
signs_in kind = kind == sign_in || kind == session_start

-- `is_vpn or is_proxy or is_tor`
abbrev pub hides_location : {V : Type 0} → NetworkContext V → Bool
hides_location net = net.is_vpn || net.is_proxy || net.is_tor

-- `prev = ctx.previous_session`, and nothing when there is none.
pub on_previous :
    {V : Type 0}
    → (PreviousSession V → List FindingResult)
    → Option (PreviousSession V)
    → List FindingResult
on_previous f none = []
on_previous f (some prev) = f prev

-- `flag is not False`
abbrev pub not_disabled : Option Bool → Bool
not_disabled none = true
not_disabled (some enabled) = enabled

-- The names of the kinds of network that hide where a sign-in comes from.
abbrev named : Bool → String → List String → List String
named flag name names = if flag then name ∷ names else names

pub network_kinds : {V : Type 0} → NetworkContext V → List String
network_kinds net = named net.is_tor "Tor" (
    named net.is_hosting "hosting/datacenter"
      (named net.is_proxy "proxy" (named net.is_vpn "VPN" [])))

-- Both are there.
unfoldable pub position : {V : Type 0} → Option V → Option V → Option (V × V)
position (some latitude) (some longitude) = some (latitude, longitude)
position _ _ = none

first_name : List String → String
first_name [] = ""
first_name (n ∷ ns) = n

module _ (b : Builtins) where
  abbrev pub max_travel_kmh : b.Value
  max_travel_kmh = b.whole 900

  abbrev pub min_travel_km : b.Value
  min_travel_km = b.whole 500

  -- `math.sin(x / 2) ** 2`
  half_sine_squared : b.Value → b.Value
  half_sine_squared x = let s = b.sin (b.over x (b.whole 2)) in b.times s s

  -- `asin` gives a value here for every argument, where `math.asin` raises when rounding puts the square
  -- root above 1, which only points on opposite sides of the globe come near.
  unfoldable pub haversine_km : (lat1 lon1 lat2 lon2 : b.Value) → b.Value
  unfolding half_sine_squared
  haversine_km lat1 lon1 lat2 lon2 =
      let p1 = b.radians lat1 in
      let p2 = b.radians lat2 in
      let dp = b.radians (b.minus lat2 lat1) in
      let dl = b.radians (b.minus lon2 lon1) in
      let a =
        b.plus (half_sine_squared dp)
          (b.times (b.times (b.cos p1) (b.cos p2)) (half_sine_squared dl)) in
      b.times (b.times (b.whole 2) (b.whole 6371)) (b.asin (b.sqrt a))

  -- `latitude`, with `longitude or 0`.
  pub loose_position : Option b.Value → Option b.Value → Option (b.Value × b.Value)
  loose_position none _ = none
  loose_position (some latitude) none = some (latitude, b.whole 0)
  loose_position (some latitude) (some longitude) = some (latitude, longitude)

  pub distance_between : Option (b.Value × b.Value) → Option (b.Value × b.Value) → Option b.Value
  distance_between (some (lat1, lon1)) (some (lat2, lon2)) = some (haversine_km lat1 lon1 lat2 lon2)
  distance_between _ _ = none

  -- `max((now - at).total_seconds() / 3600, 1 / 60)`
  unfoldable pub hours_between : (at now : ℕ) → b.Value
  hours_between at now =
      b.largest (b.over (b.over (b.whole (now - at)) (b.whole 1000000)) (b.whole 3600))
        (b.over (b.whole 1) (b.whole 60))

  -- `distance / hours > MAX_TRAVEL_KMH`, and not when there is no distance.
  pub too_fast : (hours : b.Value) → Option b.Value → Bool
  too_fast hours none = false
  too_fast hours (some distance) = b.less max_travel_kmh (b.over distance hours)

  -- `distance < MIN_TRAVEL_KM or distance / hours <= MAX_TRAVEL_KMH`, and so when there is no distance.
  pub plausible : (hours : b.Value) → Option b.Value → Bool
  plausible hours none = true
  plausible hours (some distance) =
      b.less distance min_travel_km || b.at_most (b.over distance hours) max_travel_kmh

  -- `_C3DelegateChange`
  pub delegate_change : DetectionContext b.Value → IdentityEvent b.Value → List FindingResult
  delegate_change ctx ev =
      let target = b.lower (text_or "" ev.after) in
      let external =
        has_text "@" target && not (contains (b.registrable_domain target) ctx.owned_domains) in
      if not (ev.kind == delegate_changed)
      then []
      else finding "C3" (if external then critical else high) (if external then 95 else 65)
          (concat (
            "Mailbox access was granted to "
            ∷ shown ev.after
            ∷ (if external then " — an address outside your organisation." else ".")
            ∷ []))
          (texts (("delegate", ev.after) ∷ ("before", ev.before) ∷ []))
        ∷ []

  -- `after_ids - before_ids`
  added_identifiers : IdentityEvent b.Value → List String
  added_identifiers ev =
      let before_ids = b.bank_identifiers (text_or "" ev.before) in
      filter (λ x. not (contains x before_ids)) (b.bank_identifiers (text_or "" ev.after))

  -- `_C5SignatureTampering`
  pub signature_tampering : IdentityEvent b.Value → List FindingResult
  unfolding added_identifiers
  signature_tampering ev =
      if not (ev.kind == signature_changed)
      then []
      else if ltb 0 (length (added_identifiers ev))
      then finding "C5" critical 95
          "Bank details in the mail signature were changed. Every message this mailbox sends now carries the new account."
          []
        ∷ []
      else finding "C5" low 15 "Mail signature was changed." (
          ("before", first_chars 200 (text_or "" ev.before))
          ∷ ("after", first_chars 200 (text_or "" ev.after))
          ∷ [])
        ∷ []

  travel_summary : PreviousSession b.Value → IdentityEvent b.Value → Option b.Value → String
  travel_summary prev ev none = ""
  travel_summary prev ev (some distance) = concat (
      "Sign-in from "
      ∷ text_or "an unknown country" ev.network.country
      ∷ " "
      ∷ b.show_whole distance
      ∷ "km away, "
      ∷ b.show_tenths (hours_between prev.at ev.occurred_at)
      ∷ "h after the previous sign-in from "
      ∷ text_or "elsewhere" prev.country
      ∷ " — not physically possible."
      ∷ [])

  -- `_C7ImpossibleTravel`
  pub impossible_travel : IdentityEvent b.Value → PreviousSession b.Value → List FindingResult
  unfolding travel_summary
  impossible_travel ev prev =
      let net = ev.network in
      let distance =
        distance_between (position prev.latitude prev.longitude)
          (position net.latitude net.longitude) in
      if not (signs_in ev.kind)
      then []
      else if hides_location net
      then []
      else if plausible (hours_between prev.at ev.occurred_at) distance
      then []
      else finding "C7" high 85 (travel_summary prev ev distance) (
          texts
            (("from_country", prev.country) ∷ ("to_country", net.country) ∷ ("ip", net.ip) ∷ []))
        ∷ []

  -- `_C8LocationChange`
  pub location_change : IdentityEvent b.Value → PreviousSession b.Value → List FindingResult
  location_change ev prev =
      let net = ev.network in
      let here = text_or "" net.country in
      let there = text_or "" prev.country in
      let distance =
        distance_between (loose_position prev.latitude prev.longitude)
          (loose_position net.latitude net.longitude) in
      if not (signs_in ev.kind)
      then []
      else if here == "" || there == "" || here == there
      then []
      else if too_fast (hours_between prev.at ev.occurred_at) distance
      then []
      else finding "C8" medium 40
          (concat ("Sign-in from " ∷ here ∷ ", previously " ∷ there ∷ "." ∷ []))
          (texts (
            ("from_country", prev.country)
            ∷ ("to_country", net.country)
            ∷ ("asn_name", net.asn_name)
            ∷ []))
        ∷ []

  -- `_C9NetworkClassification`
  pub network_classification : IdentityEvent b.Value → List FindingResult
  unfolding first_name network_kinds
  network_classification ev =
      let net = ev.network in
      let kinds = network_kinds net in
      let grave = net.is_tor || net.is_hosting in
      if not (signs_in ev.kind)
      then []
      else if leb (length kinds) 0
      then []
      else finding "C9" (if grave then high else medium) (if grave then 70 else 40)
          (concat (
            "Sign-in through "
            ∷ first_name kinds
            ∷ ". The real location cannot be established — treat the network itself as the signal."
            ∷ []))
          (texts (("asn_name", net.asn_name) ∷ ("claimed_country", net.country) ∷ []))
        ∷ []

  -- `_C10NewDevice`
  pub new_device : DetectionContext b.Value → IdentityEvent b.Value → List FindingResult
  new_device ctx ev =
      let fingerprint = text_or "" ev.device.fingerprint in
      let name = text_or (text_or "" ev.device.mail_client) ev.device.browser in
      let risky = on_risky_network ev.network in
      if fingerprint == ""
      then []
      else if not (signs_in ev.kind)
      then []
      else if contains fingerprint ctx.known_devices
      then []
      else if leb (length ctx.known_devices) 0
      then []
      else finding "C10" (if risky then medium else low) (if risky then 45 else 20)
          (concat (
            "First sign-in from a new device"
            ∷ (if name == "" then "" else concat (" (" ∷ name ∷ ")" ∷ []))
            ∷ (if risky then " on an anonymising network." else ".")
            ∷ []))
          (texts (
            ("fingerprint", ev.device.fingerprint)
            ∷ ("browser", ev.device.browser)
            ∷ ("os", ev.device.os)
            ∷ ("mail_client", ev.device.mail_client)
            ∷ []))
        ∷ []

  -- `_C13MfaPosture`
  pub mfa_posture : DetectionContext b.Value → IdentityEvent b.Value → List FindingResult
  mfa_posture ctx ev =
      if not_disabled ctx.mfa_enabled
      then []
      else if not (ev.kind == sign_in || ev.kind == mfa_changed)
      then []
      else finding "C13" medium 50
          "This mailbox has no multi-factor authentication. A stolen password is all an attacker needs."
          []
        ∷ []

  -- `_C14CounterpartyTravel`
  pub counterparty_travel : IdentityEvent b.Value → PreviousSession b.Value → List FindingResult
  counterparty_travel ev prev =
      let distance =
        distance_between (loose_position prev.latitude prev.longitude)
          (loose_position ev.network.latitude ev.network.longitude) in
      if not (ev.kind == sign_in)
      then []
      else if not ev.counterparty_shared
      then []
      else if plausible (hours_between prev.at ev.occurred_at) distance
      then []
      else finding "C14" high 80
          "A counterparty who also uses Envelock shows impossible travel — their account may be compromised."
          []
        ∷ []
