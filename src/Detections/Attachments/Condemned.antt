-- ===== src/Detections/Attachments/Condemned.antt =====
-- A hash that the cache holds as malicious stays so, whatever is analysed.
use envelockserver.Prelude.{
  ℕ, ◌+◌, String, ◌≡◌, refl, ◌∙◌, ◌≢◌, inl, inr, Bool, Option, none, some, List, [], ◌∷◌, arith,
  Bool-cases, ◌==◌, ne_of_unequal, text_comparable, number_comparable,
}
use envelockserver.Prelude.Dict.{lookup, lookup-insert, lookup-remove}
use envelockserver.Detections.Triage.{verdict_eq, StaticVerdict, Verdict, malicious}
use envelockserver.Detections.Attachments.{
  get_entry, after_cache, after_reputation, get, put, detonation_step, reputation_step, static_step,
  analyse, VerdictCache, AttachmentCascade, Attachment, Services,
}

-- The cache holds a malicious verdict on the hash.
abbrev pub Condemned : String → VerdictCache → Type 0
Condemned sha256 cache = (t : ℕ) × (lookup sha256 cache.entries ≡ some (malicious, t))

pub get-Condemned :
    (sha256 : String) (now : ℕ) (cache : VerdictCache) {t : ℕ}
    → lookup sha256 cache.entries ≡ some (malicious, t)
    → get sha256 now cache ≡ (some malicious, cache)
unfolding get
get-Condemned sha256 now cache h = rw h

get_entry_other :
    (sha256 other : String) (now : ℕ) (cache : VerdictCache) (entry : Option (Verdict × ℕ))
    → other ≢ sha256
    → lookup sha256 (get_entry other now cache entry).1.entries ≡ lookup sha256 cache.entries
unfolding get_entry
get_entry_other sha256 other now cache none apart = refl
get_entry_other sha256 other now cache (some (v, t)) apart =
    ground (arith, lookup-remove other sha256 cache.entries, text_comparable.equal_iff other sha256)

get_other :
    (sha256 other : String) (now : ℕ) (cache : VerdictCache)
    → other ≢ sha256
    → lookup sha256 (get other now cache).1.entries ≡ lookup sha256 cache.entries
unfolding get
get_other sha256 other now cache =
    get_entry_other sha256 other now cache (lookup other cache.entries)

module _ (services : Services) (att : Attachment) (sha256 : String)
    (apart : att.sha256 ≢ sha256) where
  put_other :
      (v : Verdict) (later : ℕ) (cache : VerdictCache)
      → lookup sha256 (put att.sha256 v later cache).entries ≡ lookup sha256 cache.entries
  unfolding put
  put_other v later cache = ground (
    arith,
    lookup-insert att.sha256 sha256 (v, later) cache.entries,
    text_comparable.equal_iff att.sha256 sha256,
  )

  detonation_step_other :
      (guarded : Bool) (static : StaticVerdict) (later : ℕ) (c : AttachmentCascade)
      → lookup sha256 (detonation_step services guarded att static later c).1.cache.entries
        ≡ lookup sha256 c.cache.entries
  unfolding detonation_step
  detonation_step_other guarded static later c =
      ground (arith, put_other (services.detonate att.payload) later c.cache)

  after_reputation_other :
      (o : Option Verdict) (guarded : Bool) (static : StaticVerdict) (later : ℕ)
      (c : AttachmentCascade)
      → lookup sha256 (after_reputation o services guarded att static later c).1.cache.entries
        ≡ lookup sha256 c.cache.entries
  unfolding after_reputation
  after_reputation_other none guarded static later c = detonation_step_other guarded static later c
  after_reputation_other (some v) guarded static later c = put_other v later c.cache

  static_step_other :
      (guarded : Bool) (static : StaticVerdict) (later : ℕ) (c : AttachmentCascade)
      → lookup sha256 (static_step services guarded att static later c).1.cache.entries
        ≡ lookup sha256 c.cache.entries
  unfolding static_step reputation_step
  static_step_other guarded static later c = ground (
    arith,
    put_other static.verdict later c.cache,
    detonation_step_other guarded static later c,
    after_reputation_other (services.reputation att.sha256) guarded static later (record c {
      metrics = record c.metrics {
        reputation_calls = c.metrics.reputation_calls + 1;
        cost_micros = c.metrics.cost_micros + 100;
      };
    }),
  )

  after_cache_other :
      (o : Option Verdict) (guarded : Bool) (static : StaticVerdict) (later : ℕ)
      (c : AttachmentCascade)
      → lookup sha256 (after_cache o services guarded att static later c).1.cache.entries
        ≡ lookup sha256 c.cache.entries
  unfolding after_cache
  after_cache_other none guarded static later c = static_step_other guarded static later c
  after_cache_other (some v) guarded static later c = refl

-- One analysis that is asked for: of which file, for what kind of mailbox, and when.
pub record Request : Type 0 where
  pub attachment : Attachment
  pub protected_mailbox : Bool
  pub now : ℕ
  pub later : ℕ

module _ (lower : String → String) (services : Services) where
  abbrev pub analyse_all : List Request → AttachmentCascade → AttachmentCascade
  analyse_all [] c = c
  analyse_all (r ∷ requests) c =
      analyse_all requests
        (analyse lower services r.protected_mailbox r.attachment r.now r.later c).1

  pub analyse-Condemned :
      (sha256 : String) (r : Request) (c : AttachmentCascade)
      → Condemned sha256 c.cache
      → Condemned sha256
          (analyse lower services r.protected_mailbox r.attachment r.now r.later c).1.cache
  unfolding analyse
  analyse-Condemned sha256 r c (t, h) = elim (Bool-cases (r.attachment.sha256 == sha256)) [
    | inl same ↦
        let e : r.attachment.sha256 ≡ sha256 = (text_comparable.equal_iff _ _).0 same in
        let held : lookup r.attachment.sha256 c.cache.entries ≡ some (malicious, t) = rw e h in
        (t, rw (get-Condemned r.attachment.sha256 r.now c.cache held, after_cache) h)
    | inr other ↦
        let apart = ne_of_unequal r.attachment.sha256 sha256 other in
        (
          t,
          after_cache_other services r.attachment sha256 apart
                (get r.attachment.sha256 r.now c.cache).0 r.protected_mailbox _ r.later _
              ∙ get_other sha256 r.attachment.sha256 r.now c.cache apart
              ∙ h,
        )
  ]
