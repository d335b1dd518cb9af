-- ===== src/Llm/Cascade/Cap.antt =====
-- How many verdicts a mailbox is given in a month, and that they count on no other mailbox.
use envelockserver.Prelude.{
  ℕ, ◌+◌, ◌≤◌, ◌<◌, String, ◌≡◌, inl, inr, false, not, ◌&&◌, Option, none, some, List, [], ◌∷◌,
  arith, if◌then◌else◌, is_some, Bool-cases, ◌==◌, eq_refl, text_comparable, number_comparable,
}
use envelockserver.Llm.Cascade.{
  add_call, request, is_row, answered, RiskAssessment, unrefined, should_escalate, LlmJudge,
  find_usage, meter, calls_of, at_cap, refine, LlmVerdict, LlmUsage, JudgedMail, LlmSettings,
  Refined,
}

find_usage-meter :
    (m n : ℕ) (p q : String) (cost : ℕ) (rows : List LlmUsage)
    → calls_of (find_usage n q (meter m p cost rows))
      ≡ calls_of (find_usage n q rows) + (if m == n && p == q then 1 else 0)
unfolding find_usage meter is_row add_call calls_of
find_usage-meter m n p q cost [] = ground arith
find_usage-meter m n p q cost (row ∷ rows) = ground (
  arith,
  find_usage-meter m n p q cost rows,
  text_comparable.equal_iff row.period p,
  text_comparable.equal_iff row.period q,
  text_comparable.equal_iff p q,
)

-- How many calls the refinement of `event` adds to the row of mailbox `n` and period `q`.
pub added_calls : ℕ → String → String → JudgedMail → Refined → ℕ
added_calls n q period event r =
    if is_some r.verdict && (event.mailbox_id == n && period == q) then 1 else 0

answered_calls :
    (settings : LlmSettings) (event : JudgedMail) (period : String) (o : Option RiskAssessment)
    (rows : List LlmUsage) (answer : Option LlmVerdict) (n : ℕ) (q : String)
    → calls_of (find_usage n q (answered settings event period o rows answer).usage)
      ≡ calls_of (find_usage n q rows)
        + added_calls n q period event (answered settings event period o rows answer)
unfolding answered unrefined added_calls
answered_calls settings event period o rows none n q = omega arith
answered_calls settings event period o rows (some verdict) n q =
    find_usage-meter event.mailbox_id n period q verdict.cost_micros rows

-- A refinement adds one call to the month's row of the message's mailbox exactly when it gives a verdict,
-- and none to any other row.
pub refine_meters :
    (settings : LlmSettings) (judge : Option LlmJudge) (period : String) (event : JudgedMail)
    (o : Option RiskAssessment) (rows : List LlmUsage) (n : ℕ) (q : String)
    → calls_of (find_usage n q (refine settings judge period (some event) o rows).usage)
      ≡ calls_of (find_usage n q rows)
        + added_calls n q period event (refine settings judge period (some event) o rows)
unfolding refine unrefined added_calls
refine_meters settings none period event o rows n q = omega arith
refine_meters settings (some judge) period event o rows n q =
    elim (Bool-cases
      (should_escalate o && not (at_cap settings (find_usage event.mailbox_id period rows)))) [
        | inl ask ↦ rw ask (
            unfold added_calls in
            answered_calls settings event period o rows (judge (request event o)) n q)
        | inr skip ↦ rw skip (omega arith)
      ]

-- After any messages of a month, in any order and whatever the judge answers.
pub refine_all :
    LlmSettings
    → LlmJudge
    → (period : String) → List (JudgedMail × Option RiskAssessment)
    → List LlmUsage
    → List LlmUsage
refine_all settings judge period [] rows = rows
refine_all settings judge period ((event, o) ∷ rest) rows =
    refine_all settings judge period rest
      (refine settings (some judge) period (some event) o rows).usage

below_cap :
    (settings : LlmSettings) (o : Option LlmUsage)
    → 0 < settings.max_calls
    → at_cap settings o ≡ false
    → calls_of o < settings.max_calls
unfolding at_cap calls_of
below_cap settings none pos h = pos
below_cap settings (some row) pos h = ground arith

refine_capped :
    (settings : LlmSettings) (judge : LlmJudge) (period : String) (event : JudgedMail)
    (o : Option RiskAssessment) (rows : List LlmUsage) (n : ℕ) (q : String)
    → 0 < settings.max_calls
    → calls_of (find_usage n q rows) ≤ settings.max_calls
    → calls_of (find_usage n q (refine settings (some judge) period (some event) o rows).usage)
      ≤ settings.max_calls
unfolding refine unrefined
refine_capped settings judge period event o rows n q pos le =
    elim (Bool-cases
      (should_escalate o && not (at_cap settings (find_usage event.mailbox_id period rows)))) [
        | inl ask ↦
            let room =
              below_cap settings (find_usage event.mailbox_id period rows) pos (ground arith) in
            let answer = judge (request event o) in
            let now = answered_calls settings event period o rows answer n q in
            rw ask
              (unfold added_calls in ground (arith, room, now, text_comparable.equal_iff period q))
        | inr skip ↦ rw skip le
      ]

-- How many of the messages, judged one after the other, the judge gives a verdict on for mailbox `n`.
pub verdicts :
    LlmSettings
    → LlmJudge
    → (period : String) → List (JudgedMail × Option RiskAssessment)
    → List LlmUsage
    → (n : ℕ) → ℕ
verdicts settings judge period [] rows n = 0
verdicts settings judge period ((event, o) ∷ rest) rows n =
    let r = refine settings (some judge) period (some event) o rows in
    (if is_some r.verdict && event.mailbox_id == n then 1 else 0)
    + verdicts settings judge period rest r.usage n

added_calls_same :
    (n : ℕ) (period : String) (event : JudgedMail) (r : Refined)
    → added_calls n period period event r
      ≡ (if is_some r.verdict && event.mailbox_id == n then 1 else 0)
unfolding added_calls
added_calls_same n period event r = rw (eq_refl period) (ground arith)

refine_all_calls :
    (settings : LlmSettings) (judge : LlmJudge) (period : String)
    (messages : List (JudgedMail × Option RiskAssessment)) (rows : List LlmUsage) (n : ℕ)
    → calls_of (find_usage n period (refine_all settings judge period messages rows))
      ≡ calls_of (find_usage n period rows) + verdicts settings judge period messages rows n
unfolding refine_all verdicts
refine_all_calls settings judge period [] rows n = omega arith
refine_all_calls settings judge period ((event, o) ∷ rest) rows n =
    let r = refine settings (some judge) period (some event) o rows in
    let later = refine_all_calls settings judge period rest r.usage n in
    let first = refine_meters settings (some judge) period event o rows n period in
    omega (arith, later, first, added_calls_same n period event r)

calls_le :
    (settings : LlmSettings) (judge : LlmJudge) (period : String)
    (messages : List (JudgedMail × Option RiskAssessment)) (rows : List LlmUsage) (n : ℕ)
    → 0 < settings.max_calls
    → calls_of (find_usage n period rows) ≤ settings.max_calls
    → calls_of (find_usage n period (refine_all settings judge period messages rows))
      ≤ settings.max_calls
unfolding refine_all
calls_le settings judge period [] rows n pos le = le
calls_le settings judge period ((event, o) ∷ rest) rows n pos le =
    calls_le settings judge period rest
      (refine settings (some judge) period (some event) o rows).usage n pos
      (refine_capped settings judge period event o rows n period pos le)

-- Where the cap is positive and the row of a mailbox is not above it, the row rises by exactly one for each
-- message of the mailbox that the judge gives a verdict on, and the verdicts of the month, together with
-- the calls that the row had, are at most the cap, whatever messages come and in any order. A call of the
-- judge that gives no verdict is neither counted nor bounded.
pub refine_all-capped :
    (settings : LlmSettings) (judge : LlmJudge) (period : String)
    (messages : List (JudgedMail × Option RiskAssessment)) (rows : List LlmUsage) (n : ℕ)
    → 0 < settings.max_calls
    → calls_of (find_usage n period rows) ≤ settings.max_calls
    → let before = calls_of (find_usage n period rows) in
      let given = verdicts settings judge period messages rows n in
      (calls_of (find_usage n period (refine_all settings judge period messages rows))
        ≡ before + given)
      × (before + given ≤ settings.max_calls)
refine_all-capped settings judge period messages rows n pos le =
    let counted = refine_all_calls settings judge period messages rows n in
    (counted, omega (arith, counted, calls_le settings judge period messages rows n pos le))
