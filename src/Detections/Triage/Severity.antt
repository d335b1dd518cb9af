-- ===== src/Detections/Triage/Severity.antt =====
-- What the triage concludes, without the order of its steps.
use envelockserver.Prelude.{
  ◌≤◌, String, ◌≡◌, ◌≢◌, Bool, ◌||◌, Option, none, some, [], arith, ltb, leb, if◌then◌else◌,
  is_some, text_comparable, number_comparable, length,
}
use envelockserver.Prelude.Text.{ends_with_any}
use envelockserver.Detections.Triage.{
  see_executable, see, settle, verdict_iff, verdict_eq, Bytes, executable_magic, risky_ext,
  executable_kind, pdf_hits, is_false_image, is_macro_document, static_triage, Verdict, clean,
  suspicious, malicious, unknown,
}

-- The verdict by what is found, the gravest first.
abbrev pub verdict_by : (grave risky empty : Bool) → Verdict
verdict_by grave risky empty =
    if grave then malicious else if risky then suspicious else if empty then unknown else clean

steps-verdict_by :
    (kind : Option String) (image risky macro active : Bool) (r1 r2 r3 r4 : String)
    (payload : Bytes)
    → let s = settle payload (
        see active suspicious r1 (
          see macro suspicious r2 (
            see image malicious r3 (
              see risky suspicious r4
                (see_executable kind (record { verdict = unknown; reasons = [] })))))) in
      (s.verdict
        ≡ verdict_by (is_some kind || image) (risky || macro || active) (leb (length payload) 0))
      × (s.verdict ≢ unknown → 1 ≤ length s.reasons)
unfolding settle see see_executable
steps-verdict_by none image risky macro active r1 r2 r3 r4 payload =
    ground (arith, verdict_iff unknown unknown)
steps-verdict_by (some kind) image risky macro active r1 r2 r3 r4 payload = ground arith

module _ (lower : String → String) where
  abbrev pub is_grave : Bytes → Option String → Bool
  is_grave payload declared_mime =
      is_some (executable_kind payload executable_magic) || is_false_image declared_mime payload

  abbrev pub is_risky : String → Bytes → Bool
  is_risky filename payload =
      ends_with_any risky_ext (lower filename)
      || is_macro_document (lower filename) payload
      || ltb 0 (length (pdf_hits payload))

  -- The verdict on a file is the gravest of its indicators, whatever the order in which they are looked
  -- for: malicious for the content of an executable or a false image, suspicious for a risky extension,
  -- macros or an active PDF, clean where there is none of these and unknown where there is nothing to
  -- look at; and every verdict but unknown is given with a reason.
  pub static_triage-verdict_by :
      (filename : String) (payload : Bytes) (declared_mime : Option String)
      → let s = static_triage lower filename payload declared_mime in
        (s.verdict
          ≡ verdict_by
              (is_grave payload declared_mime)
              (is_risky filename payload)
              (leb (length payload) 0))
        × (s.verdict ≢ unknown → 1 ≤ length s.reasons)
  unfolding static_triage
  static_triage-verdict_by filename payload declared_mime =
      steps-verdict_by (executable_kind payload executable_magic)
        (is_false_image declared_mime payload) (ends_with_any risky_ext (lower filename))
        (is_macro_document (lower filename) payload) (ltb 0 (length (pdf_hits payload))) _ _ _ _
        payload
