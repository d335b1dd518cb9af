-- ===== src/Llm/Cascade.antt =====
-- llm/gate.py, and llm/cascade.py: whether a judge is asked about a message, what it costs and what its
-- verdict may change. A monthly usage row is found by mailbox and period; a confidence is a number of
-- thousandths. The provider with the judge that wraps it (llm/judge.py) is one function from the request to
-- a verdict, which is none when the provider fails.
pub mod Policy
pub mod Cap
mod Examples
use envelockserver.Prelude.{
  ℕ, ◌+◌, String, Bool, true, false, not, ◌&&◌, ◌||◌, Option, none, some, List, [], ◌∷◌, ◌++◌, map,
  leb, if◌then◌else◌, ◌==◌, text_comparable, number_comparable, filter, any, contains,
}
use envelockserver.Prelude.Text.{concat, text_or}
use envelockserver.Core.Enums.{
  source_mechanism_eq, mailbox_class_eq, protection_level_eq, alert_tier_eq, identity_event_kind_eq,
  AlertTier, medium, high, critical,
}
use envelockserver.Risk.Engine.{promote, RiskAssessment}

-- `_PAYMENT_SIGNALS`
abbrev pub payment_signals : List String
payment_signals =
    "A1" ∷ "A2" ∷ "A3" ∷ "A4" ∷ "A5" ∷ "A6" ∷ "A7" ∷ "A8" ∷ "A10" ∷ "A11" ∷ "A13" ∷ "A14" ∷ []

ambiguous : AlertTier → Bool
ambiguous medium = true
ambiguous high = true
ambiguous _ = false

pub should_escalate : Option RiskAssessment → Bool
unfolding ambiguous
should_escalate none = false
should_escalate (some a) = any (λ s. contains s payment_signals) a.services && ambiguous a.tier

pub record LlmVerdict : Type 0 where
  pub confidence : ℕ
  pub rationale : String
  pub escalate : Bool
  pub cost_micros : ℕ

pub record LlmUsage : Type 0 where
  pub mailbox_id : ℕ
  pub period : String
  pub calls : ℕ
  pub cost_micros : ℕ

-- The fields of a mail event that the cascade reads.
pub record JudgedMail : Type 0 where
  pub mailbox_id : ℕ
  pub sender : String
  pub subject : Option String
  pub body_text : Option String
  pub extracted_texts : List (Option String)

pub record LlmSettings : Type 0 where
  pub max_calls : ℕ
  pub min_confidence : ℕ

pub record Request : Type 0 where
  pub sender : String
  pub subject : String
  pub body : String
  pub signals : List String

-- A configured provider, behind the judge.
abbrev pub LlmJudge : Type 0
LlmJudge = Request → Option LlmVerdict

join_lines : List String → String
join_lines [] = ""
join_lines (p ∷ []) = p
join_lines (p ∷ q ∷ ps) = concat (p ∷ "\n" ∷ join_lines (q ∷ ps) ∷ [])

-- `_analyzable_body`
analyzable_body : JudgedMail → String
unfolding join_lines
analyzable_body event = join_lines (
    filter (λ p. not (p == "")) (map (λ p. text_or "" p) (event.body_text ∷ event.extracted_texts)))

is_row : ℕ → String → LlmUsage → Bool
is_row mailbox period row = row.mailbox_id == mailbox && row.period == period

pub find_usage : ℕ → String → List LlmUsage → Option LlmUsage
unfolding is_row
find_usage mailbox period [] = none
find_usage mailbox period (row ∷ rows) =
    if is_row mailbox period row then some row else find_usage mailbox period rows

add_call : ℕ → LlmUsage → LlmUsage
add_call cost row = record {
  mailbox_id = row.mailbox_id;
  period = row.period;
  calls = row.calls + 1;
  cost_micros = row.cost_micros + cost;
}

-- One more call on the row, which is made when there is none.
pub meter : ℕ → String → (cost : ℕ) → List LlmUsage → List LlmUsage
unfolding is_row add_call
meter mailbox period cost [] =
    record { mailbox_id = mailbox; period = period; calls = 1; cost_micros = cost } ∷ []
meter mailbox period cost (row ∷ rows) =
    if is_row mailbox period row
    then add_call cost row ∷ rows
    else row ∷ meter mailbox period cost rows

pub calls_of : Option LlmUsage → ℕ
calls_of none = 0
calls_of (some row) = row.calls

-- `_under_cap`, with the question again whether there is a row.
pub at_cap : LlmSettings → Option LlmUsage → Bool
at_cap settings none = false
at_cap settings (some row) = leb settings.max_calls row.calls

escalated : LlmVerdict → RiskAssessment → RiskAssessment
escalated verdict a =
    let new_tier = promote a.tier 1 in
    let reason =
      if verdict.rationale == ""
      then "our fraud review found signs of a payment scam."
      else verdict.rationale in
    let client_line = concat ("Our fraud check agrees this looks like a scam: " ∷ reason ∷ []) in
    record {
      tier = new_tier;
      score = a.score;
      title = a.title;
      body = concat (a.body ∷ "\n" ∷ client_line ∷ []);
      services = a.services;
      requires_callback = a.requires_callback || new_tier == critical;
      callback_phone = a.callback_phone;
      rationale = a.rationale ++ (client_line ∷ []);
    }

noted : LlmVerdict → RiskAssessment → RiskAssessment
noted verdict a = record {
  tier = a.tier;
  score = a.score;
  title = a.title;
  body = concat (a.body ∷ "\n" ∷ "Note: " ∷ verdict.rationale ∷ []);
  services = a.services;
  requires_callback = a.requires_callback;
  callback_phone = a.callback_phone;
  rationale = a.rationale;
}

-- What the verdict changes.
pub apply : LlmSettings → LlmVerdict → RiskAssessment → RiskAssessment
unfolding escalated noted
apply settings verdict a =
    if verdict.escalate
      && leb settings.min_confidence verdict.confidence
      && not (a.tier == critical)
    then escalated verdict a
    else if not (verdict.rationale == "")
    then noted verdict a
    else a

-- The assessment, the verdict, and the usage rows.
pub record Refined : Type 0 where
  pub assessment : Option RiskAssessment
  pub verdict : Option LlmVerdict
  pub usage : List LlmUsage
  pub asked : Bool

unrefined : Option RiskAssessment → List LlmUsage → Bool → Refined
unrefined assessment usage asked = record {
  assessment = assessment;
  verdict = none;
  usage = usage;
  asked = asked;
}

signals_of : Option RiskAssessment → List String
signals_of none = []
signals_of (some a) = a.services

request : JudgedMail → Option RiskAssessment → Request
unfolding analyzable_body signals_of
request event assessment = record {
  sender = event.sender;
  subject = text_or "" event.subject;
  body = analyzable_body event;
  signals = signals_of assessment;
}

judged : LlmSettings → LlmVerdict → Option RiskAssessment → Option RiskAssessment
judged settings verdict none = none
judged settings verdict (some a) = some (apply settings verdict a)

answered :
    LlmSettings
    → JudgedMail
    → (period : String) → Option RiskAssessment
    → List LlmUsage
    → Option LlmVerdict
    → Refined
unfolding unrefined judged
answered settings event period assessment rows none = unrefined assessment rows true
answered settings event period assessment rows (some verdict) = record {
  assessment = judged settings verdict assessment;
  verdict = some verdict;
  usage = meter event.mailbox_id period verdict.cost_micros rows;
  asked = true;
}

-- `refine`: the event is none when it is no mail event, the judge is none when no provider is configured.
-- `asked` says whether the judge was asked.
pub refine :
    LlmSettings
    → Option LlmJudge
    → (period : String) → Option JudgedMail
    → Option RiskAssessment
    → List LlmUsage
    → Refined
unfolding unrefined request answered
refine settings judge period none assessment rows = unrefined assessment rows false
refine settings none period (some event) assessment rows = unrefined assessment rows false
refine settings (some judge) period (some event) assessment rows =
    if should_escalate assessment && not (at_cap settings (find_usage event.mailbox_id period rows))
    then answered settings event period assessment rows (judge (request event assessment))
    else unrefined assessment rows false
