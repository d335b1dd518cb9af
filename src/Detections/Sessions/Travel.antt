-- ===== src/Detections/Sessions/Travel.antt =====
-- How the detections of travel and of hidden networks share the sign-ins between them.
use envelockserver.Prelude.{
  ◌+◌, ◌≤◌, ◌≡◌, refl, ◌↔◌, inl, inr, Bool, true, false, ◌||◌, Option, none, some, [], arith, leb,
  Bool-cases, text_comparable, number_comparable, All, length,
}
use envelockserver.Core.Enums.{
  source_mechanism_eq, mailbox_class_eq, protection_level_eq, alert_tier_eq, identity_event_kind_eq,
  high,
}
use envelockserver.Risk.Engine.{FindingResult}
use envelockserver.Detections.Context.{NetworkContext, IdentityEvent, PreviousSession, Builtins}
use envelockserver.Detections.Sessions.{
  signs_in, hides_location, network_kinds, position, max_travel_kmh, min_travel_km, haversine_km,
  loose_position, distance_between, hours_between, too_fast, plausible, impossible_travel,
  location_change, network_classification,
}

abbrev pub on_tor_or_hosting : {V : Type 0} → IdentityEvent V → Bool
on_tor_or_hosting ev = ev.network.is_tor || ev.network.is_hosting

module _ (b : Builtins) where
  -- Where both positions are complete, the position with a default is the same.
  loose_of_position :
      (lat lon : Option b.Value) {p : b.Value × b.Value}
      → position lat lon ≡ some p
      → loose_position b lat lon ≡ some p
  unfolding position loose_position
  loose_of_position none none h = absurd (cc h)
  loose_of_position none (some y) h = absurd (cc h)
  loose_of_position (some x) none h = absurd (cc h)
  loose_of_position (some x) (some y) h = h

  distance_between-some :
      (p q : Option (b.Value × b.Value)) {d : b.Value}
      → distance_between b p q ≡ some d
      → (x : b.Value × b.Value) × (y : b.Value × b.Value) × (p ≡ some x) × (q ≡ some y)
  unfolding distance_between
  distance_between-some none none h = absurd (cc h)
  distance_between-some none (some q) h = absurd (cc h)
  distance_between-some (some p) none h = absurd (cc h)
  distance_between-some (some p) (some q) h = (p, q, refl, refl)

  -- A distance that impossible travel measures is the one that a change of location measures.
  loose_distance :
      (lat1 lon1 lat2 lon2 : Option b.Value) {d : b.Value}
      → distance_between b (position lat1 lon1) (position lat2 lon2) ≡ some d
      → distance_between b (loose_position b lat1 lon1) (loose_position b lat2 lon2) ≡ some d
  loose_distance lat1 lon1 lat2 lon2 h =
      let (x, y, p, q) = distance_between-some _ _ h in
      let before = loose_of_position lat1 lon1 p in let now = loose_of_position lat2 lon2 q in cc

  implausible_too_fast :
      (hours : b.Value) (near loose : Option b.Value)
      → ((d : b.Value) → near ≡ some d → loose ≡ some d)
      → plausible b hours near ≡ false
      → too_fast b hours loose ≡ true
  unfolding plausible too_fast
  implausible_too_fast hours none loose same h = absurd (cc h)
  implausible_too_fast hours (some d) loose same h =
      rw (same d refl) (ground (arith, b.at_most-less (b.over d hours) (max_travel_kmh b)))

  -- No sign-in is reported both as impossible travel and as a change of location.
  pub travel_once :
      (ev : IdentityEvent b.Value) (prev : PreviousSession b.Value)
      → length (impossible_travel b ev prev) + length (location_change b ev prev) ≤ 1
  unfolding impossible_travel location_change
  travel_once ev prev =
      let net = ev.network in
      let hours = hours_between b prev.at ev.occurred_at in
      let near =
        distance_between b (position prev.latitude prev.longitude)
          (position net.latitude net.longitude) in
      let loose =
        distance_between b (loose_position b prev.latitude prev.longitude)
          (loose_position b net.latitude net.longitude) in
      elim (Bool-cases (plausible b hours near)) [
        | inl fine ↦ rw fine (ground arith)
        | inr fast ↦
            let other : too_fast b hours loose ≡ true =
              implausible_too_fast hours near loose
                (λ d h. loose_distance prev.latitude prev.longitude net.latitude net.longitude h)
                fast in
            rw other (ground arith)
      ]

  kinds_of_hidden :
      (net : NetworkContext b.Value)
      → hides_location net ≡ true
      → leb (length (network_kinds net)) 0 ≡ false
  unfolding network_kinds
  kinds_of_hidden net hides = ground arith

  -- A sign-in, or the start of a session, through a VPN, a proxy or Tor is never reported as impossible
  -- travel; the network itself is reported, once, and with the tier High exactly when it is Tor or a
  -- hosting network.
  pub hidden_sign_in :
      (ev : IdentityEvent b.Value) (prev : PreviousSession b.Value)
      → signs_in ev.kind ≡ true
      → hides_location ev.network ≡ true
      → (impossible_travel b ev prev ≡ [])
        × (length (network_classification b ev) ≡ 1)
        × All
            (λ (f : FindingResult). (f.tier ≡ high) ↔ (on_tor_or_hosting ev ≡ true))
            (network_classification b ev)
  unfolding impossible_travel network_classification
  hidden_sign_in ev prev signs hides =
      rw (signs, hides)
        (
          refl,
          rw (kinds_of_hidden ev.network hides) refl,
          elim (Bool-cases (leb (length (network_kinds ev.network)) 0)) [
            | inl none_found ↦ rw none_found tt
            | inr found ↦ rw found (ground arith, tt)
          ],
        )

  -- Where both positions are known and less than 500 km apart, a sign-in that takes a speed of more than
  -- 900 km an hour is reported neither as impossible travel nor as a change of location, also between
  -- two countries.
  pub short_hop_unreported :
      (ev : IdentityEvent b.Value) (prev : PreviousSession b.Value) (lat1 lon1 lat2 lon2 : b.Value)
      → position prev.latitude prev.longitude ≡ some (lat1, lon1)
      → position ev.network.latitude ev.network.longitude ≡ some (lat2, lon2)
      → b.less (haversine_km b lat1 lon1 lat2 lon2) (min_travel_km b) ≡ true
      → b.less
          (max_travel_kmh b)
          (b.over (haversine_km b lat1 lon1 lat2 lon2) (hours_between b prev.at ev.occurred_at))
        ≡ true
      → (impossible_travel b ev prev ≡ []) × (location_change b ev prev ≡ [])
  unfolding impossible_travel location_change distance_between plausible too_fast
  short_hop_unreported ev prev lat1 lon1 lat2 lon2 there here near fast =
      rw
        (
          there,
          here,
          loose_of_position prev.latitude prev.longitude there,
          loose_of_position ev.network.latitude ev.network.longitude here,
          near,
          fast,
        )
        (ground arith)
