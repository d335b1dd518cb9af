-- ===== src/Detections/Attachments.antt =====
-- src/envelock/detections/cascade.py: the cache of verdicts and the cascade over an attachment, from
-- the free layers to the metered ones. `_reputation` and `_detonate` are methods that a service
-- overrides; they are arguments, and what the source has for them stands at the end. The two readings
-- of the clock in a call, at the look-up and at the store, are two arguments.
pub mod Condemned
pub mod Malicious
pub mod Accounts
mod Examples
use envelockserver.Prelude.{
  ℕ, ◌+◌, ◌*◌, String, Bool, not, ◌&&◌, ◌||◌, Option, none, some, List, [], ◌∷◌, ◌++◌, ltb, leb,
  if◌then◌else◌, ◌==◌, text_comparable, number_comparable,
}
use envelockserver.Prelude.Dict.{Dict, lookup, insert, remove}
use envelockserver.Prelude.Time.{day}
use envelockserver.Detections.Triage.{
  Verdict, clean, malicious, unknown, verdict_eq, Bytes, StaticVerdict, static_triage,
}

pub data Layer : Type 0 where
  cache_layer static_layer reputation_layer detonation_layer : Layer

-- `IntEnum`
abbrev pub layer_rank : Layer → ℕ
layer_rank cache_layer = 0
layer_rank static_layer = 1
layer_rank reputation_layer = 2
layer_rank detonation_layer = 3

pub record CascadeResult : Type 0 where
  pub sha256 : String
  pub verdict : Verdict
  pub layer : Layer
  pub reasons : List String
  pub cost_micros : ℕ

pub reached_paid_layer : CascadeResult → Bool
reached_paid_layer r = leb (layer_rank reputation_layer) (layer_rank r.layer)

pub record CascadeMetrics : Type 0 where
  pub seen : ℕ
  pub cache_hits : ℕ
  pub static_resolved : ℕ
  pub reputation_calls : ℕ
  pub detonations : ℕ
  pub cost_micros : ℕ

abbrev pub no_metrics : CascadeMetrics
no_metrics = record {
  seen = 0;
  cache_hits = 0;
  static_resolved = 0;
  reputation_calls = 0;
  detonations = 0;
  cost_micros = 0;
}

pub record VerdictCache : Type 0 where
  pub ttl : ℕ
  pub entries : Dict String (Verdict × ℕ)

pub new_cache : (clean_ttl_days : ℕ) → VerdictCache
new_cache clean_ttl_days = record { ttl = clean_ttl_days * day; entries = [] }

get_entry : String → ℕ → VerdictCache → Option (Verdict × ℕ) → Option Verdict × VerdictCache
get_entry sha256 now cache none = (none, cache)
get_entry sha256 now cache (some (verdict, stored_at)) =
    if verdict == malicious
    then (some verdict, cache)
    else if ltb (stored_at + cache.ttl) now
    then (none, record cache { entries = remove sha256 cache.entries })
    else (some verdict, cache)

pub get : (sha256 : String) (now : ℕ) → VerdictCache → Option Verdict × VerdictCache
unfolding get_entry
get sha256 now cache = get_entry sha256 now cache (lookup sha256 cache.entries)

pub put : (sha256 : String) → Verdict → (now : ℕ) → VerdictCache → VerdictCache
put sha256 verdict now cache = record cache { entries = insert sha256 (verdict, now) cache.entries }

pub record AttachmentCascade : Type 0 where
  pub cache : VerdictCache
  pub detonation_enabled : Bool
  pub reputation_available : Bool
  pub metrics : CascadeMetrics

-- What an analysis is told of a file.
pub record Attachment : Type 0 where
  pub sha256 : String
  pub filename : String
  pub payload : Bytes
  pub declared_mime : Option String

-- The services behind the metered layers.
pub record Services : Type 0 where
  pub reputation : String → Option Verdict
  pub detonate : Bytes → Verdict

result : Attachment → Verdict → Layer → List String → ℕ → CascadeResult
result att verdict layer reasons cost = record {
  sha256 = att.sha256;
  verdict = verdict;
  layer = layer;
  reasons = reasons;
  cost_micros = cost;
}

store : Attachment → Verdict → ℕ → AttachmentCascade → AttachmentCascade
store att verdict now c = record c { cache = put att.sha256 verdict now c.cache }

-- Only unknown, risky files of a protected mailbox reach the metered layer.
pub detonation_step :
    Services
    → (protected_mailbox : Bool) → Attachment
    → StaticVerdict
    → ℕ
    → AttachmentCascade
    → CascadeResult × AttachmentCascade
unfolding result store
detonation_step services protected_mailbox att static later c =
    let verdict = services.detonate att.payload in
    if c.detonation_enabled && protected_mailbox
    then (
      result att verdict detonation_layer ("dynamic analysis" ∷ []) 5000,
      store att verdict later (record c {
        metrics = record c.metrics {
          detonations = c.metrics.detonations + 1;
          cost_micros = c.metrics.cost_micros + 5000;
        };
      }),
    )
    else (
      result att static.verdict static_layer (static.reasons ++ ("detonation not enabled" ∷ [])) 0,
      c,
    )

after_reputation :
    Option Verdict
    → Services
    → Bool
    → Attachment
    → StaticVerdict
    → ℕ
    → AttachmentCascade
    → CascadeResult × AttachmentCascade
unfolding result store
after_reputation (some verdict) services protected_mailbox att static later c =
    (result att verdict reputation_layer ("hash reputation" ∷ []) 100, store att verdict later c)
after_reputation none services protected_mailbox att static later c =
    detonation_step services protected_mailbox att static later c

pub reputation_step :
    Services
    → Bool
    → Attachment
    → StaticVerdict
    → ℕ
    → AttachmentCascade
    → CascadeResult × AttachmentCascade
unfolding after_reputation
reputation_step services protected_mailbox att static later c =
    if c.reputation_available
    then after_reputation (services.reputation att.sha256) services protected_mailbox att static
        later
        (record c {
          metrics = record c.metrics {
            reputation_calls = c.metrics.reputation_calls + 1;
            cost_micros = c.metrics.cost_micros + 100;
          };
        })
    else detonation_step services protected_mailbox att static later c

pub static_step :
    Services
    → Bool
    → Attachment
    → StaticVerdict
    → ℕ
    → AttachmentCascade
    → CascadeResult × AttachmentCascade
unfolding result store
static_step services protected_mailbox att static later c =
    if static.verdict == malicious || static.verdict == clean
    then (
      result att static.verdict static_layer static.reasons 0,
      store att static.verdict later (record c {
        metrics = record c.metrics { static_resolved = c.metrics.static_resolved + 1 };
      }),
    )
    else reputation_step services protected_mailbox att static later c

-- What follows the look-up in the cache.
after_cache :
    Option Verdict
    → Services
    → Bool
    → Attachment
    → StaticVerdict
    → ℕ
    → AttachmentCascade
    → CascadeResult × AttachmentCascade
unfolding result
after_cache (some cached) services protected_mailbox att static later c = (
  result att cached cache_layer ("shared verdict cache" ∷ []) 0,
  record c { metrics = record c.metrics { cache_hits = c.metrics.cache_hits + 1 } },
)
after_cache none services protected_mailbox att static later c =
    static_step services protected_mailbox att static later c

module _ (lower : String → String) (services : Services) where
  pub analyse :
      (protected_mailbox : Bool)
      → Attachment
      → (now later : ℕ) → AttachmentCascade
      → CascadeResult × AttachmentCascade
  unfolding after_cache
  analyse protected_mailbox att now later c =
      let (cached, cache) = get att.sha256 now c.cache in
      after_cache cached services protected_mailbox att
        (static_triage lower att.filename att.payload att.declared_mime) later
        (record c { cache = cache; metrics = record c.metrics { seen = c.metrics.seen + 1 } })

-- `_reputation` and `_detonate` as they stand.
pub no_services : Services
no_services = record { reputation = λ sha256. none; detonate = λ payload. unknown }
