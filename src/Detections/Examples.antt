-- ===== src/Detections/Examples.antt =====
-- The theorems on the detections at a concrete mailbox.
use envelockserver.Prelude.{
  ℕ, ◌+◌, ◌-◌, ◌*◌, ◌/◌, ◌≤◌, String, ◌≡◌, refl, Bool, true, false, not, ◌&&◌, ◌||◌, Option, none,
  some, List, [], ◌∷◌, arith, ltb, leb, if◌then◌else◌, is_some, ◌==◌, text_comparable,
  number_comparable, All, length, contains,
}
use envelockserver.Prelude.Dict.{lookup}
use envelockserver.Core.Enums.{
  source_mechanism_eq, mailbox_class_eq, protection_level_eq, alert_tier_eq, identity_event_kind_eq,
  IdentityEventKind, sign_in, flag_changed, rule_changed,
}
use envelockserver.Core.Capabilities.{capability_eq, Capability, read_flags}
use envelockserver.Risk.Engine.{assess, RiskAssessment, Float}
use envelockserver.Risk.Engine.Score.{assess_total}
use envelockserver.Detections.Context.{
  NetworkContext, IdentityEvent, PreviousSession, DetectionContext, Builtins,
}
use envelockserver.Detections.Base.{
  register, active_for, inactive_for, evaluate_all, run_all, registered,
}
use envelockserver.Detections.Base.Registry.{is_active, active_or_inactive}
use envelockserver.Detections.Base.Reports.{reports, IsSound}
use envelockserver.Detections.Identity.{on_identity, silent_access}
use envelockserver.Detections.Sessions.{impossible_travel, location_change}
use envelockserver.Detections.Sessions.Travel.{travel_once}
use envelockserver.Detections.Suite.{group_c, registry}
use envelockserver.Detections.Suite.Coherence.{run_all-group_c}

leb-ltb : (x y : ℕ) → leb x y ≡ not (ltb y x)
leb-ltb x y = ground arith

-- Numbers with three decimals stand in for the floats, and the functions of `math` for themselves at
-- small angles.
abbrev decimals : Builtins
decimals = record {
  Value = ℕ;
  whole = λ n. n * 1000;
  plus = λ x y. x + y;
  minus = λ x y. x - y;
  times = λ x y. x * y / 1000;
  over = λ x y. x * 1000 / y;
  largest = λ x y. if leb x y then y else x;
  sin = λ x. x;
  cos = λ x. 1000;
  asin = λ x. x;
  sqrt = λ x. x;
  radians = λ x. x;
  less = ltb;
  at_most = leb;
  at_most-less = leb-ltb;
  show_whole = λ x. "280";
  show_tenths = λ x. "0.1";
  lower = λ t. t;
  registrable_domain = λ t. if t == "eve@evil.example" then "evil.example" else t;
  bank_identifiers = λ t. if t == "" then [] else t ∷ [];
  isoformat = λ t. "2026-01-01T00:00:00";
}

abbrev place : Option String → ℕ → Bool → NetworkContext ℕ
place country latitude vpn = record {
  ip = some "192.0.2.1";
  asn = none;
  asn_name = none;
  country = country;
  is_vpn = vpn;
  is_proxy = false;
  is_hosting = false;
  is_tor = false;
  latitude = some latitude;
  longitude = some 0;
}

abbrev event : IdentityEventKind → NetworkContext ℕ → Option String → IdentityEvent ℕ
event kind network after = record {
  occurred_at = 1000;
  kind = kind;
  network = network;
  device = record { fingerprint = none; browser = none; os = none; mail_client = none };
  target = none;
  before = none;
  after = after;
  counterparty_shared = false;
  sensor_attested = false;
}

abbrev in_france : PreviousSession ℕ
in_france = record {
  at = 0;
  country = some "FR";
  latitude = some 0;
  longitude = some 0;
  asn = none;
}

abbrev context : IdentityEvent ℕ → List Capability → DetectionContext ℕ
context ev capabilities = record {
  identity = some ev;
  capabilities = capabilities;
  owned_domains = "own.example" ∷ [];
  active_sessions = 0;
  known_devices = [];
  previous_session = some in_france;
  mfa_enabled = none;
}

abbrev read_alone : IdentityEvent ℕ
read_alone = event flag_changed (place none 0 false) (some "seen")

abbrev watched : DetectionContext ℕ
watched = context read_alone (read_flags ∷ [])

abbrev rule_to_eve : IdentityEvent ℕ
rule_to_eve = event rule_changed (place none 0 false) (some "eve@evil.example")

abbrev in_spain : IdentityEvent ℕ
in_spain = event sign_in (place (some "ES") 300 false) none

travel_example :
    length (impossible_travel decimals in_spain in_france)
      + length (location_change decimals in_spain in_france)
    ≤ 1
travel_example = travel_once decimals in_spain in_france

abbrev by_vpn : IdentityEvent ℕ
by_vpn = event sign_in (place (some "ES") 3000 true) none

listing_example :
    let reg = registered (group_c decimals) [] in
    ((is_active (read_flags ∷ []) reg "C1" || contains "C1" (inactive_for (read_flags ∷ []) reg))
      ≡ is_some (lookup "C1" reg))
    × ((is_active (read_flags ∷ []) reg "C1" && contains "C1" (inactive_for (read_flags ∷ []) reg))
        ≡ false)
listing_example = active_or_inactive (group_c decimals) (read_flags ∷ []) "C1"

group_c_example :
    All
      (IsSound (is_active (read_flags ∷ []) (registry decimals)))
      (run_all (registry decimals) watched)
    × (reports "C5" (run_all (registry decimals) watched)
        ≤ (if is_active (read_flags ∷ []) (registry decimals) "C5" then 1 else 0))
    × (length (run_all (registry decimals) watched)
        ≤ length (active_for (read_flags ∷ []) (registry decimals)))
group_c_example = run_all-group_c decimals watched "C5"

abbrev integers : Float
integers = record {
  Value = ℕ;
  nothing = 0;
  quotient = λ s k. s / k;
  plus = λ x y. x + y;
  int = λ x. x;
  int-quotient_one = λ s h. omega arith;
  int-plus-le = λ x s k. omega arith;
}

one_alarm : length (run_all (registry decimals) watched) ≡ 1
unfolding run_all registered register active_for evaluate_all on_identity silent_access
one_alarm = refl

assessed : (a : RiskAssessment) × (assess integers (run_all (registry decimals) watched) ≡ some a)
assessed = assess_total integers (run_all (registry decimals) watched) (omega (arith, one_alarm))
