-- ===== src/Platform/Graph/Verdicts.antt =====
-- How a judgement changes, and which domains are acted on.
use envelockserver.Prelude.{
  ℕ, ◌≤◌, String, ◌≡◌, refl, inl, inr, Bool, true, false, not, Option, none, some, [], ◌∷◌, arith,
  Bool-cases, ◌==◌, eq_refl, text_comparable, number_comparable, contains,
}
use envelockserver.Prelude.Dict
use envelockserver.Prelude.Dict.{lookup-insert, IsUnique, Dict}
use envelockserver.Platform.Graph.{
  names_or_none, known_bad_in, verdict_iff, verdict_eq, actionable, updated, key_for, report,
  lookup, reporters_of, known_bad, GraphEntry, CounterpartyGraph, Verdict, fraudulent,
}

-- A report of fraud always leaves the verdict fraudulent, and no report of any kind ever takes that
-- verdict back: neither the verdict nor an earlier decision to act on the domain.
pub report_never_heals :
    (registrable : String → String) (domain : String) (verdict : Verdict) (tenant : String)
    (technique : Option String) (now : ℕ) (g : CounterpartyGraph)
    → let (entry, g') = report registrable domain verdict tenant technique now g in
      (lookup registrable domain g' ≡ some entry)
      × (verdict ≡ fraudulent → entry.verdict ≡ fraudulent)
      × ((e : GraphEntry)
          → lookup registrable domain g ≡ some e
          → e.verdict ≡ fraudulent
          → (entry.verdict ≡ fraudulent) × (e.confirmations ≤ entry.confirmations))
unfolding report lookup updated
report_never_heals registrable domain verdict tenant technique now g =
    let reg = key_for registrable domain in
    let old = Dict.lookup reg g.entries in
    let entry =
      updated reg verdict technique now
        (not (contains tenant (names_or_none (Dict.lookup reg g.reporters)))) old in
    (
      rw (lookup-insert reg reg entry g.entries, eq_refl reg),
      λ fraud. fraud_stays reg verdict technique now _ old fraud,
      λ e found was. rw found (ground (arith, verdict_iff verdict fraudulent)),
    )
  where
    fraud_stays :
        (reg : String) (v : Verdict) (technique : Option String) (now : ℕ) (is_new : Bool)
        (old : Option GraphEntry)
        → v ≡ fraudulent
        → (updated reg v technique now is_new old).verdict ≡ fraudulent
    fraud_stays reg v technique now is_new none fraud = fraud
    fraud_stays reg v technique now is_new (some e) fraud = ground (arith, verdict_iff v fraudulent)

-- A domain that one tenant reported as fraudulent becomes one that is acted on as soon as any other
-- tenant reports it, also when that tenant reports it as legitimate.
pub report_any_confirms :
    (registrable : String → String) (domain : String) (verdict : Verdict) (tenant : String)
    (technique : Option String) (now : ℕ) (g : CounterpartyGraph) {e : GraphEntry}
    → lookup registrable domain g ≡ some e
    → e.verdict ≡ fraudulent
    → 1 ≤ e.confirmations
    → contains tenant (reporters_of registrable domain g) ≡ false
    → actionable (report registrable domain verdict tenant technique now g).0 ≡ true
unfolding report lookup reporters_of actionable updated
report_any_confirms registrable domain verdict tenant technique now g found fraud once fresh =
    rw (found, fresh) (ground (arith, verdict_iff verdict fraudulent))

known_bad_absent :
    (d : String) (entries : Dict String GraphEntry)
    → Dict.lookup d entries ≡ none
    → contains d (known_bad_in entries) ≡ false
unfolding known_bad_in
known_bad_absent d [] h = refl
known_bad_absent d ((j, e) ∷ entries) h = ground (
  arith,
  text_comparable.equal_iff j d,
  text_comparable.equal_iff d j,
  known_bad_absent d entries,
)

abbrev pub acted_on : Option GraphEntry → Bool
acted_on none = false
acted_on (some e) = actionable e

known_bad_in-eq :
    (d : String) (entries : Dict String GraphEntry)
    → IsUnique entries
    → contains d (known_bad_in entries) ≡ acted_on (Dict.lookup d entries)
unfolding known_bad_in
known_bad_in-eq d [] u = refl
known_bad_in-eq d ((j, e) ∷ entries) u = elim (Bool-cases (j == d)) [
  | inl same ↦
      let p = (text_comparable.equal_iff j d).0 same in
      let absent = known_bad_absent d entries (rw p at u.0) in
      rw same (ground (arith, absent, text_comparable.equal_iff d j, p))
  | inr other ↦ rw other (
      ground (
        arith,
        known_bad_in-eq d entries u.1,
        text_comparable.equal_iff j d,
        text_comparable.equal_iff d j,
      ))
]

-- `known_bad` lists a domain exactly when the graph has an entry for it that is acted on.
pub known_bad_iff :
    (d : String) (g : CounterpartyGraph)
    → IsUnique g.entries
    → contains d (known_bad g) ≡ acted_on (Dict.lookup d g.entries)
unfolding known_bad
known_bad_iff d g u = known_bad_in-eq d g.entries u
