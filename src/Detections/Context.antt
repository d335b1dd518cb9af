-- ===== src/Detections/Context.antt =====
-- What a detection is given: the records of core/events.py and `DetectionContext` of
-- detections/base.py, with the fields that group C reads. The event is kept as `identity`, which is
-- none when the event is of another channel. A time is a number of microseconds, a mailbox and its
-- clock aside. Coordinates are floats, of the type `V`.
use envelockserver.Prelude.{
  ℕ, String, ◌≡◌, Bool, not, Option, List, text_comparable, number_comparable,
}
use envelockserver.Core.Enums.{IdentityEventKind}
use envelockserver.Core.Capabilities.{Capability}

pub record NetworkContext (V : Type 0) : Type 0 where
  pub ip : Option String
  pub asn : Option ℕ
  pub asn_name : Option String
  pub country : Option String
  pub is_vpn : Bool
  pub is_proxy : Bool
  pub is_hosting : Bool
  pub is_tor : Bool
  pub latitude : Option V
  pub longitude : Option V

pub record DeviceContext : Type 0 where
  pub fingerprint : Option String
  pub browser : Option String
  pub os : Option String
  pub mail_client : Option String

pub record IdentityEvent (V : Type 0) : Type 0 where
  pub occurred_at : ℕ
  pub kind : IdentityEventKind
  pub network : NetworkContext V
  pub device : DeviceContext
  pub target : Option String
  pub before : Option String
  pub after : Option String
  pub counterparty_shared : Bool
  pub sensor_attested : Bool

pub record PreviousSession (V : Type 0) : Type 0 where
  pub at : ℕ
  pub country : Option String
  pub latitude : Option V
  pub longitude : Option V
  pub asn : Option ℕ

pub record DetectionContext (V : Type 0) : Type 0 where
  pub identity : Option (IdentityEvent V)
  pub capabilities : List Capability
  pub owned_domains : List String
  pub active_sessions : ℕ
  pub known_devices : List String
  pub previous_session : Option (PreviousSession V)
  pub mfa_enabled : Option Bool

-- Python's floats and `math`, and what the program takes from elsewhere: the lower case of a text,
-- the public-suffix rules behind `registrable_domain` of util/domains.py, the regular expressions
-- behind `extract_bank_identifiers` of util/payments.py, and the printing of numbers and times. Of
-- the floats it is assumed that none is NaN, so that one of `x <= y` and `y < x` holds.
pub record Builtins : Type 1 where
  pub Value : Type 0
  pub whole : ℕ → Value
  pub plus : Value → Value → Value
  pub minus : Value → Value → Value
  pub times : Value → Value → Value
  pub over : Value → Value → Value
  pub largest : Value → Value → Value
  pub sin : Value → Value
  pub cos : Value → Value
  pub asin : Value → Value
  pub sqrt : Value → Value
  pub radians : Value → Value
  pub less : Value → Value → Bool
  pub at_most : Value → Value → Bool
  pub at_most-less : (x y : Value) → at_most x y ≡ not (less y x)
  pub show_whole : Value → String
  pub show_tenths : Value → String
  pub lower : String → String
  pub registrable_domain : String → String
  pub bank_identifiers : String → List String
  pub isoformat : ℕ → String
