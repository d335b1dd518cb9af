-- ===== src/Detections/Attachments/Examples.antt =====
-- The theorems on the cascades at a concrete file and a concrete link.
use envelockserver.Prelude.{
  ℕ, zero, suc, ◌+◌, ◌-◌, ◌*◌, ◌/◌, ◌%◌, ◌^◌, ◌≤◌, ◌<◌, String, ◌≡◌, refl, sym, ap, ◌∙◌, fun_ext,
  ◌≢◌, ◌↔◌, ◌⊎◌, inl, inr, Bool, true, false, not, ◌&&◌, ◌||◌, Option, none, some, List, [], ◌∷◌,
  ◌++◌, map, arith, ltb, leb, nat_beq, if◌then◌else◌, ltb→lt, leb→le, nat_beq_iff, is_some,
  Bool-cases, Option-cases, ◌==◌, eq_refl, ne_of_unequal, text_comparable, truthy,
  number_comparable, code-injective, coded_iff, Comparable, All, length, filter, any, all, sum_by,
  any_imp, length-append, length-filter-le, all-filter, all_in-filter, All-append, contains, subset,
  contains-append, contains-filter, any_witness, any_intro, any_mono,
}
use envelockserver.Detections.Triage.{
  verdict_code, verdict_iff, verdict_eq, severity, worse, Bytes, begins, has_bytes, first_bytes,
  executable_magic, risky_ext, macro_ext, macro_magic, pdf_actions, executable_kind, pdf_hits,
  is_false_image, is_macro_document, static_triage, StaticVerdict, Verdict, clean, suspicious,
  malicious, unknown,
}
use envelockserver.Detections.Triage.Severity.{
  verdict_by, is_grave, is_risky, static_triage-verdict_by,
}
use envelockserver.Detections.Attachments.{
  result, after_reputation, get_entry, after_cache, no_metrics, get, detonation_step,
  reputation_step, static_step, analyse, AttachmentCascade, Attachment, Services, cache_layer,
}
use envelockserver.Detections.Attachments.{
  no_metrics, get, detonation_step, reputation_step, static_step, analyse, AttachmentCascade,
  Attachment, Services, cache_layer,
}
use envelockserver.Detections.Attachments.Condemned.{analyse_all, Request}
use envelockserver.Detections.Attachments.Malicious.{malicious_for_ever}
use envelockserver.Detections.Urls.{host_of, url_reasons, judge, UrlCascade}
use envelockserver.Detections.Urls.Memory.{judge_by_layer}

abbrev same : String → String
same text = text

-- A script: a risky extension and nothing else.
abbrev script : Attachment
script = record { sha256 = "ab"; filename = "pay.js"; payload = 0x20 ∷ []; declared_mime = none }

abbrev other_file : Attachment
other_file = record { sha256 = "cd"; filename = "a.txt"; payload = 0x20 ∷ []; declared_mime = none }

abbrev empty_cascade : AttachmentCascade
empty_cascade = record {
  cache = record { ttl = 0; entries = [] };
  detonation_enabled = true;
  reputation_available = true;
  metrics = no_metrics;
}

-- A sandbox that finds every file malicious.
abbrev harsh : Services
harsh = record { reputation = λ sha256. none; detonate = λ payload. malicious }

abbrev first : Request
first = record { attachment = script; protected_mailbox = true; now = 10; later = 20 }

triage_example :
    let s = static_triage same "pay.js" (0x20 ∷ []) none in
    (s.verdict
      ≡ verdict_by (is_grave same (0x20 ∷ []) none) (is_risky same "pay.js" (0x20 ∷ [])) false)
    × (s.verdict ≢ unknown → 1 ≤ length s.reasons)
triage_example = static_triage-verdict_by same "pay.js" (0x20 ∷ []) none

abbrev requests : List Request
requests =
    record { attachment = other_file; protected_mailbox = true; now = 50; later = 60 }
    ∷ record { attachment = script; protected_mailbox = false; now = 70; later = 80 }
    ∷ []

malicious_example :
    let r =
      (analyse same harsh true script 90 91
        (analyse_all same harsh (first ∷ requests) empty_cascade)).0 in
    (r.verdict ≡ malicious) × (r.layer ≡ cache_layer) × (r.cost_micros ≡ 0)
unfolding analyse after_cache get get_entry static_step reputation_step after_reputation
    detonation_step result static_triage envelockserver.Detections.Triage.pdf_hits
    envelockserver.Detections.Triage.is_macro_document envelockserver.Prelude.Text.ends_with
    envelockserver.Detections.Triage.is_false_image envelockserver.Detections.Triage.executable_kind
malicious_example =
    malicious_for_ever same harsh first script requests true 90 91 empty_cascade refl refl

abbrev links : UrlCascade
links = record {
  safebrowsing = true;
  feed_domains = "bad.example" ∷ [];
  metrics = record { checked = 0; free_hits = 0; paid_calls = 0 };
  cache = [];
}

abbrev link : String
link = "https://bad.example/pay"

abbrev ascii_digit : ℕ → Bool
ascii_digit c = leb b'0' c && leb c b'9'

layers_example :
    let (v, m) = judge ascii_digit same same link links in
    let listed = contains (host_of ascii_digit same same link) links.feed_domains in
    ((v.verdict ≡ malicious) ↔ (listed ≡ true))
    × ((0 < m.paid_calls) ↔ (
        (listed ≡ false)
        × (length (url_reasons ascii_digit same same link) ≡ 0)
        × (links.safebrowsing ≡ true)))
    × (m.checked ≡ 1)
    × (m.free_hits + m.paid_calls ≤ 1)
layers_example = judge_by_layer ascii_digit same same link links
