-- ===== src/Detections/Attachments/Malicious.antt =====
-- A malicious verdict is kept by whichever layer gives it, and is never forgotten.
use envelockserver.Detections.Attachments.Condemned.{
  Condemned, get-Condemned, analyse_all, analyse-Condemned, Request,
}
use envelockserver.Prelude.{
  ℕ, ◌+◌, String, ◌≡◌, refl, ap, ◌∙◌, inl, inr, Bool, true, false, ◌&&◌, ◌||◌, Option, none, some,
  List, [], ◌∷◌, arith, ltb, if◌then◌else◌, Bool-cases, ◌==◌, eq_refl, text_comparable,
  number_comparable,
}
use mathlib.Core.Option.{some-injective}
use envelockserver.Prelude.Dict.{lookup, lookup-insert}
use envelockserver.Detections.Triage.{
  verdict_eq, verdict_iff, StaticVerdict, Verdict, clean, malicious, static_triage,
}
use envelockserver.Detections.Attachments.{
  CascadeResult, get_entry, after_cache, after_reputation, get, put, detonation_step,
  reputation_step, static_step, analyse, VerdictCache, AttachmentCascade, Attachment, Services,
  cache_layer,
}

get_entry-Condemned :
    (sha256 : String) (now : ℕ) (cache : VerdictCache) (entry : Option (Verdict × ℕ))
    → lookup sha256 cache.entries ≡ entry
    → (get_entry sha256 now cache entry).0 ≡ some malicious
    → Condemned sha256 (get_entry sha256 now cache entry).1
unfolding get_entry
get_entry-Condemned sha256 now cache none found h = cc
get_entry-Condemned sha256 now cache (some (v, t)) found h = elim (Bool-cases (v == malicious)) [
  | inl bad ↦ rw bad (t, found ∙ ap (λ w. some (w, t)) ((verdict_iff v malicious).0 bad))
  | inr good ↦ elim (Bool-cases (ltb (t + cache.ttl) now)) [
    | inl stale ↦ cc
    | inr fresh ↦
        let v_bad : v ≡ malicious = some-injective _ _ (rw (good, fresh) at h) in
        absurd (ground (arith, rw v_bad at good))
  ]
]

module _ (services : Services) (guarded : Bool) (att : Attachment) (static : StaticVerdict)
    (later : ℕ) where
  put-Condemned :
      (v : Verdict) (cache : VerdictCache)
      → v ≡ malicious
      → Condemned att.sha256 (put att.sha256 v later cache)
  unfolding put
  put-Condemned v cache bad = (
    later,
    lookup-insert att.sha256 att.sha256 (v, later) cache.entries
        ∙ (rw (eq_refl att.sha256, bad) refl),
  )

  detonation_step-Condemned :
      (c : AttachmentCascade)
      → (static.verdict == malicious) ≡ false
      → (detonation_step services guarded att static later c).0.verdict ≡ malicious
      → Condemned att.sha256 (detonation_step services guarded att static later c).1.cache
  unfolding detonation_step
  detonation_step-Condemned c undecided h = elim (Bool-cases (c.detonation_enabled && guarded)) [
    | inl on ↦ rw on (put-Condemned (services.detonate att.payload) c.cache (rw on at h))
    | inr off ↦ absurd (ground (arith, rw (rw off at h) at undecided))
  ]

  after_reputation-Condemned :
      (o : Option Verdict) (c : AttachmentCascade)
      → (static.verdict == malicious) ≡ false
      → (after_reputation o services guarded att static later c).0.verdict ≡ malicious
      → Condemned att.sha256 (after_reputation o services guarded att static later c).1.cache
  unfolding after_reputation
  after_reputation-Condemned none c undecided h = detonation_step-Condemned c undecided h
  after_reputation-Condemned (some v) c undecided h = put-Condemned v c.cache h

  undetermined :
      (c : AttachmentCascade) (available : Bool) (asked : CascadeResult × AttachmentCascade)
      → (asked.0.verdict ≡ malicious → Condemned att.sha256 asked.1.cache)
      → (static.verdict == malicious) ≡ false
      → (if available then asked else detonation_step services guarded att static later c).0.verdict
        ≡ malicious
      → Condemned att.sha256
          (if available then asked else detonation_step services guarded att static later c).1.cache
  undetermined c true asked known undecided h = known h
  undetermined c false asked known undecided h = detonation_step-Condemned c undecided h

  static_step-Condemned :
      (c : AttachmentCascade)
      → (static_step services guarded att static later c).0.verdict ≡ malicious
      → Condemned att.sha256 (static_step services guarded att static later c).1.cache
  unfolding static_step reputation_step
  static_step-Condemned c h =
      elim (Bool-cases (static.verdict == malicious || static.verdict == clean)) [
        | inl sure ↦ rw sure (put-Condemned static.verdict c.cache (rw sure at h))
        | inr unsure ↦
            let undecided : (static.verdict == malicious) ≡ false = ground arith in
            rw unsure (
              undetermined c c.reputation_available _
                (after_reputation-Condemned (services.reputation att.sha256) _ undecided) undecided
                (rw unsure at h))
      ]

module _ (lower : String → String) (services : Services) where
  -- Whichever layer finds a file malicious, the verdict is kept in the cache.
  analyse-finds :
      (r : Request) (c : AttachmentCascade)
      → (analyse lower services r.protected_mailbox r.attachment r.now r.later c).0.verdict
        ≡ malicious
      → Condemned r.attachment.sha256
          (analyse lower services r.protected_mailbox r.attachment r.now r.later c).1.cache
  unfolding analyse get
  analyse-finds r c = by_cache (lookup r.attachment.sha256 c.cache.entries) refl
    where
      after :
          (cached : Option Verdict) (cache : VerdictCache) (c : AttachmentCascade)
          → c.cache ≡ cache
          → (cached ≡ some malicious → Condemned r.attachment.sha256 cache)
          → (after_cache cached services r.protected_mailbox r.attachment
              (static_triage lower r.attachment.filename r.attachment.payload
                r.attachment.declared_mime)
              r.later
              c).0.verdict
            ≡ malicious
          → Condemned r.attachment.sha256
              (after_cache cached services r.protected_mailbox r.attachment
                (static_triage lower r.attachment.filename r.attachment.payload
                  r.attachment.declared_mime)
                r.later
                c).1.cache
      after none cache c same known h =
          unfold after_cache in
          static_step-Condemned services r.protected_mailbox r.attachment _ r.later c
            (unfold after_cache in h)
      after (some v) cache c same known h =
          unfold after_cache in rw same (known (ap some (unfold after_cache in h)))

      by_cache :
          (entry : Option (Verdict × ℕ))
          → lookup r.attachment.sha256 c.cache.entries ≡ entry
          → (analyse lower services r.protected_mailbox r.attachment r.now r.later c).0.verdict
            ≡ malicious
          → Condemned r.attachment.sha256
              (analyse lower services r.protected_mailbox r.attachment r.now r.later c).1.cache
      by_cache entry found =
          let answer =
            get_entry r.attachment.sha256 r.now c.cache
              (lookup r.attachment.sha256 c.cache.entries) in
          after answer.0 answer.1 _ refl
            (get_entry-Condemned r.attachment.sha256 r.now c.cache _ refl)

  kept_for_ever :
      (att : Attachment) (requests : List Request) (guarded : Bool) (now later : ℕ)
      (c : AttachmentCascade)
      → Condemned att.sha256 c.cache
      → let r =
          (analyse lower services guarded att now later
            (analyse_all lower services requests c)).0 in
        (r.verdict ≡ malicious) × (r.layer ≡ cache_layer) × (r.cost_micros ≡ 0)
  unfolding analyse after_cache
  kept_for_ever att [] guarded now later c (t, h) =
      rw (get-Condemned att.sha256 now c.cache h) (refl, refl, refl)
  kept_for_ever att (q ∷ requests) guarded now later c h =
      kept_for_ever att requests guarded now later
        (analyse lower services q.protected_mailbox q.attachment q.now q.later c).1
        (analyse-Condemned lower services att.sha256 q c h)

  -- Where an analysis of a file, by whichever layer, finds it malicious, every later analysis of a file
  -- with the same hash reports malicious from the cache and free of charge, whatever the cache held before
  -- and whatever files are analysed in between, for whatever mailboxes and at whatever times.
  pub malicious_for_ever :
      (first : Request) (att : Attachment) (requests : List Request) (guarded : Bool)
      (now later : ℕ) (c : AttachmentCascade)
      → att.sha256 ≡ first.attachment.sha256
      → (analyse lower services first.protected_mailbox first.attachment first.now first.later
          c).0.verdict
        ≡ malicious
      → let r =
          (analyse lower services guarded att now later
            (analyse_all lower services (first ∷ requests) c)).0 in
        (r.verdict ≡ malicious) × (r.layer ≡ cache_layer) × (r.cost_micros ≡ 0)
  malicious_for_ever first att requests guarded now later c same found =
      let (t, h) = analyse-finds first c found in
      kept_for_ever att requests guarded now later
        (analyse lower services first.protected_mailbox first.attachment first.now first.later c).1
        (t, rw same h)
