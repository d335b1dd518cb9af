-- ===== src/Llm/Cascade/Examples.antt =====
-- Two messages of one mailbox, under a cap of one call in the month.
use envelockserver.Prelude.{
  ◌+◌, ◌≤◌, ◌≡◌, true, false, Option, none, some, List, [], ◌∷◌, arith, text_comparable,
  number_comparable,
}
use envelockserver.Core.Enums.{
  source_mechanism_eq, mailbox_class_eq, protection_level_eq, alert_tier_eq, identity_event_kind_eq,
  high,
}
use envelockserver.Risk.Engine.{RiskAssessment}
use envelockserver.Llm.Cascade.{LlmJudge, find_usage, calls_of, refine, JudgedMail, LlmSettings}
use envelockserver.Llm.Cascade.Policy.{AllRefined, refine-AllRefined}
use envelockserver.Llm.Cascade.Cap.{
  added_calls, refine_meters, refine_all, verdicts, refine_all-capped,
}

abbrev cap_of_one : LlmSettings
cap_of_one = record { max_calls = 1; min_confidence = 750 }

abbrev sure : LlmJudge
sure q = some (record { confidence = 900; rationale = ""; escalate = true; cost_micros = 40 })

abbrev invoice : JudgedMail
invoice = record {
  mailbox_id = 3;
  sender = "billing@acrne.example";
  subject = none;
  body_text = some "new bank details";
  extracted_texts = none ∷ [];
}

abbrev doubtful : RiskAssessment
doubtful = record {
  tier = high;
  score = 60;
  title = "Lookalike domain";
  body = "A lookalike domain.";
  services = "A3" ∷ [];
  requires_callback = false;
  callback_phone = none;
  rationale = [];
}

refined_example :
    AllRefined
      (some doubtful)
      (refine cap_of_one (some sure) "2026-05" (some invoice) (some doubtful) []).assessment
refined_example =
    refine-AllRefined cap_of_one (some sure) "2026-05" (some invoice) (some doubtful) []

meters_example :
    calls_of (
      find_usage 3 "2026-05"
        (refine cap_of_one (some sure) "2026-05" (some invoice) (some doubtful) []).usage)
    ≡ calls_of (find_usage 3 "2026-05" [])
      + added_calls 3 "2026-05" "2026-05" invoice
          (refine cap_of_one (some sure) "2026-05" (some invoice) (some doubtful) [])
meters_example =
    refine_meters cap_of_one (some sure) "2026-05" invoice (some doubtful) [] 3 "2026-05"

abbrev twice : List (JudgedMail × Option RiskAssessment)
twice = (invoice, some doubtful) ∷ (invoice, some doubtful) ∷ []

capped_example :
    let before = calls_of (find_usage 3 "2026-05" []) in
    let given = verdicts cap_of_one sure "2026-05" twice [] 3 in
    (calls_of (find_usage 3 "2026-05" (refine_all cap_of_one sure "2026-05" twice []))
      ≡ before + given)
    × (before + given ≤ 1)
unfolding find_usage calls_of
capped_example = refine_all-capped cap_of_one sure "2026-05" twice [] 3 (omega arith) (omega arith)
