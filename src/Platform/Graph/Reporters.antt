-- ===== src/Platform/Graph/Reporters.antt =====
-- Who stands behind a confirmation count.
use envelockserver.Prelude.{
  ℕ, ◌≤◌, String, ◌≡◌, refl, ◌∙◌, inl, inr, true, false, not, Option, none, some, List, [], ◌∷◌,
  ◌++◌, arith, Bool-cases, ◌==◌, text_comparable, number_comparable, length, length-append,
  contains, contains-append,
}
use envelockserver.Prelude.Dict
use envelockserver.Prelude.Dict.{lookup-insert}
use envelockserver.Platform.Graph.{
  names_or_none, verdict_eq, actionable, add_to, updated, key_for, report, lookup, reporters_of,
  GraphEntry, CounterpartyGraph, Verdict,
}

-- No tenant is listed twice.
abbrev pub IsDistinct : List String → Type 0
IsDistinct [] = Unit
IsDistinct (x ∷ xs) = (contains x xs ≡ false) × IsDistinct xs

-- The tenants listed for a key are distinct and as many as its entry has confirmations.
abbrev pub Backed : Option GraphEntry → Option (List String) → Type 0
Backed none none = Unit
Backed none (some names) = ⊥
Backed (some e) none = ⊥
Backed (some e) (some names) = IsDistinct names × (e.confirmations ≡ length names)

pub record IsBacked (g : CounterpartyGraph) : Type 0 where
  pub at : (key : String) → Backed (Dict.lookup key g.entries) (Dict.lookup key g.reporters)

append-IsDistinct :
    (x : String) (xs : List String)
    → contains x xs ≡ false
    → IsDistinct xs
    → IsDistinct (xs ++ (x ∷ []))
append-IsDistinct x [] out d = (refl, tt)
append-IsDistinct x (y ∷ ys) out d = (
  contains-append y ys (x ∷ [])
      ∙ ground (arith, d.0, text_comparable.equal_iff x y, text_comparable.equal_iff y x),
  append-IsDistinct x ys (ground arith) d.1,
)

-- One more name, with the count that goes with it.
add_to-Backed :
    (reg : String) (verdict : Verdict) (technique : Option String) (now : ℕ) (tenant : String)
    (e : GraphEntry) (names : List String)
    → Backed (some e) (some names)
    → Backed
        (some (updated reg verdict technique now (not (contains tenant names)) (some e)))
        (some (add_to tenant names))
unfolding updated add_to
add_to-Backed reg verdict technique now tenant e names b =
    elim (Bool-cases (contains tenant names)) [
      | inl known ↦ rw known (b.0, omega (arith, b.1))
      | inr fresh ↦ rw fresh (
        append-IsDistinct tenant names fresh b.0,
        omega (arith, b.1, length-append names (tenant ∷ [])),
      )
    ]

report_entry-Backed :
    (reg : String) (verdict : Verdict) (technique : Option String) (now : ℕ) (tenant : String)
    (old : Option GraphEntry) (names : Option (List String))
    → Backed old names
    → Backed
        (some (updated reg verdict technique now (not (contains tenant (names_or_none names))) old))
        (some (add_to tenant (names_or_none names)))
unfolding names_or_none
report_entry-Backed reg verdict technique now tenant none none b =
    unfold updated add_to in ((refl, tt), refl)
report_entry-Backed reg verdict technique now tenant none (some names) b = absurd b
report_entry-Backed reg verdict technique now tenant (some e) none b = absurd b
report_entry-Backed reg verdict technique now tenant (some e) (some names) b =
    add_to-Backed reg verdict technique now tenant e names b

-- A report keeps each confirmation count equal to the number of distinct tenants that reported the
-- domain, whoever reports it and however often.
pub report-IsBacked :
    (registrable : String → String) (domain : String) (verdict : Verdict) (tenant : String)
    (technique : Option String) (now : ℕ) (g : CounterpartyGraph)
    → IsBacked g
    → IsBacked (report registrable domain verdict tenant technique now g).1
unfolding report
report-IsBacked registrable domain verdict tenant technique now g b = record {
  at = λ key.
      let reg = key_for registrable domain in
      let names = Dict.lookup reg g.reporters in
      let old = Dict.lookup reg g.entries in
      let entry =
        updated reg verdict technique now (not (contains tenant (names_or_none names))) old in
      rw
        (
          lookup-insert reg key entry g.entries,
          lookup-insert reg key (add_to tenant (names_or_none names)) g.reporters,
        )
        (elim (Bool-cases (reg == key)) [
          | inl same ↦
              rw same (report_entry-Backed reg verdict technique now tenant old names (b.at reg))
          | inr other ↦ rw other (b.at key)
        ]);
}

-- In a graph that is backed, a domain that is acted on was reported by two different tenants.
pub actionable_two_tenants :
    (registrable : String → String) (domain : String) (g : CounterpartyGraph) {e : GraphEntry}
    → IsBacked g
    → lookup registrable domain g ≡ some e
    → actionable e ≡ true
    → IsDistinct (reporters_of registrable domain g)
      × (2 ≤ length (reporters_of registrable domain g))
unfolding lookup reporters_of actionable
actionable_two_tenants registrable domain g {e} b found acts =
    let key = key_for registrable domain in
    go (Dict.lookup key g.reporters) (rw found at (b.at key))
  where
    go :
        (names : Option (List String))
        → Backed (some e) names
        → IsDistinct (names_or_none names) × (2 ≤ length (names_or_none names))
    go none backed = absurd backed
    go (some names) backed = unfold names_or_none in (backed.0, ground (arith, backed.1, acts))
