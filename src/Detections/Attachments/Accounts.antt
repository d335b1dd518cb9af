-- ===== src/Detections/Attachments/Accounts.antt =====
-- The meters of the cascade, and what the metered layers cost.
use envelockserver.Prelude.{
  ℕ, ◌+◌, ◌*◌, ◌≤◌, String, ◌≡◌, inl, inr, Bool, true, false, ◌&&◌, ◌||◌, Option, none, some, arith,
  Bool-cases, ◌==◌, text_comparable, number_comparable,
}
use envelockserver.Detections.Triage.{
  verdict_eq, static_triage, StaticVerdict, Verdict, clean, suspicious, malicious,
}
use envelockserver.Detections.Attachments.{
  after_cache, after_reputation, get, detonation_step, reputation_step, static_step, analyse,
  CascadeMetrics, VerdictCache, AttachmentCascade, Attachment, Services,
}

-- The cost is that of the calls, and no file is counted twice: each one seen is counted by the cache,
-- by the triage or by the reputation, or by none of these; and likewise for the detonation.
pub record IsAccounted (m : CascadeMetrics) : Type 0 where
  pub priced : m.cost_micros ≡ 100 * m.reputation_calls + 5000 * m.detonations
  pub once : m.cache_hits + m.static_resolved + m.reputation_calls ≤ m.seen
  pub once_detonated : m.cache_hits + m.static_resolved + m.detonations ≤ m.seen

-- What a step may do to the meters, between `m` and `m'`.
pub record Metered (allowed : Bool) (m m' : CascadeMetrics) : Type 0 where
  pub sound : IsAccounted m'
  pub one_seen : m'.seen ≡ m.seen + 1
  pub at_most_one : m'.detonations ≤ m.detonations + 1
  pub only_allowed : allowed ≡ false → m'.detonations ≡ m.detonations

-- Before the detonation: the file is counted, and may still be detonated.
record Ready (m m' : CascadeMetrics) : Type 0 where
  priced : m'.cost_micros ≡ 100 * m'.reputation_calls + 5000 * m'.detonations
  once : m'.cache_hits + m'.static_resolved + m'.reputation_calls ≤ m'.seen
  once_detonated : m'.cache_hits + m'.static_resolved + m'.detonations + 1 ≤ m'.seen
  one_seen : m'.seen ≡ m.seen + 1
  none_yet : m'.detonations ≡ m.detonations

module _ (services : Services) (guarded : Bool) (att : Attachment) (static : StaticVerdict)
    (later : ℕ) where
  detonation_step-Metered :
      (m : CascadeMetrics) (c : AttachmentCascade)
      → Ready m c.metrics
      → Metered
          (c.detonation_enabled && guarded)
          m
          (detonation_step services guarded att static later c).1.metrics
  unfolding detonation_step
  detonation_step-Metered m c r = elim (Bool-cases (c.detonation_enabled && guarded)) [
    | inl metered ↦ rw metered (ground arith)
    | inr free ↦ rw free (ground arith)
  ]

  after_reputation-Metered :
      (o : Option Verdict) (m : CascadeMetrics) (c : AttachmentCascade)
      → Ready m c.metrics
      → Metered
          (c.detonation_enabled && guarded)
          m
          (after_reputation o services guarded att static later c).1.metrics
  unfolding after_reputation
  after_reputation-Metered none m c r = detonation_step-Metered m c r
  after_reputation-Metered (some v) m c r = ground arith

  after_cache-Metered :
      (o : Option Verdict) (c : AttachmentCascade) (cache : VerdictCache)
      → IsAccounted c.metrics
      → Metered
          (c.detonation_enabled && guarded)
          c.metrics
          (after_cache o services guarded att static later (record c {
            cache = cache;
            metrics = record c.metrics { seen = c.metrics.seen + 1 };
          })).1.metrics
  unfolding after_cache static_step reputation_step
  after_cache-Metered (some v) c cache fine = ground arith
  after_cache-Metered none c cache fine =
      elim (Bool-cases (static.verdict == malicious || static.verdict == clean)) [
        | inl settled ↦ rw settled (ground arith)
        | inr open_case ↦ elim (Bool-cases c.reputation_available) [
          | inl asked ↦
              rw (open_case, asked)
                (after_reputation-Metered (services.reputation att.sha256) c.metrics _
                  (ground arith))
          | inr free ↦ rw (open_case, free) (detonation_step-Metered c.metrics _ (ground arith))
        ]
      ]

module _ (lower : String → String) (services : Services) where
  -- Every analysis keeps the meters right: the cost stays 100 for each look-up of a hash and 5000 for
  -- each detonation, no file is counted twice, one more is seen; and a file is detonated at most once,
  -- and only where detonation is enabled and the mailbox is protected.
  pub analyse-Metered :
      (guarded : Bool) (att : Attachment) (now later : ℕ) (c : AttachmentCascade)
      → IsAccounted c.metrics
      → Metered
          (c.detonation_enabled && guarded)
          c.metrics
          (analyse lower services guarded att now later c).1.metrics
  unfolding analyse
  analyse-Metered guarded att now later c fine =
      after_cache-Metered services guarded att
        (static_triage lower att.filename att.payload att.declared_mime) later
        (get att.sha256 now c.cache).0 c (get att.sha256 now c.cache).1 fine

  -- A file that is in no cache, that the triage leaves open, whose hash is unknown to the reputation
  -- service and that is then detonated, is reported to cost 5000, while 5100 is added to the cost.
  pub analyse_underreports :
      (att : Attachment) (now later : ℕ) (c : AttachmentCascade)
      → (get att.sha256 now c.cache).0 ≡ none
      → (static_triage lower att.filename att.payload att.declared_mime).verdict ≡ suspicious
      → c.reputation_available ≡ true
      → c.detonation_enabled ≡ true
      → services.reputation att.sha256 ≡ none
      → let (r, after) = analyse lower services true att now later c in
        (r.cost_micros ≡ 5000) × (after.metrics.cost_micros ≡ c.metrics.cost_micros + 5100)
  unfolding analyse after_cache static_step reputation_step after_reputation detonation_step
  analyse_underreports att now later c uncached risky asked enabled unheard =
      rw uncached (rw (risky, asked, enabled, unheard) (ground arith))
