-- ===== src/Platform/GraphStore/Loading.antt =====
-- What the rows of the table are, and what loading them gives.
use mathlib.Core.Path.{subst}
use envelockserver.Prelude.{
  String, ◌≡◌, refl, ap, ◌∙◌, inl, inr, ◌||◌, Option, none, some, List, [], ◌∷◌, if◌then◌else◌,
  Bool-cases, ◌==◌, text_comparable, number_comparable, All, contains,
}
use envelockserver.Prelude.Dict.{Dict, lookup, insert, lookup-insert, IsUnique}
use envelockserver.Risk.Engine.Tiers.{contains-insert_service}
use envelockserver.Platform.Graph.{GraphEntry, CounterpartyGraph, load}
use envelockserver.Platform.GraphStore.{load_rows, sorted_texts, entry_of, GraphVerdict}

pub contains-sorted_texts :
    (x : String) (ts : List String) → contains x (sorted_texts ts) ≡ contains x ts
unfolding sorted_texts
contains-sorted_texts x [] = refl
contains-sorted_texts x (t ∷ ts) =
    contains-insert_service x t (sorted_texts ts)
    ∙ ap (λ b. x == t || b) (contains-sorted_texts x ts)

-- The same judgement: the sets of techniques as sets.
pub record IsSameEntry (e e' : GraphEntry) : Type 0 where
  pub domain : e'.registrable_domain ≡ e.registrable_domain
  pub verdict : e'.verdict ≡ e.verdict
  pub confirmations : e'.confirmations ≡ e.confirmations
  pub first : e'.first_reported ≡ e.first_reported
  pub last : e'.last_reported ≡ e.last_reported
  pub techniques : (t : String) → contains t e'.techniques ≡ contains t e.techniques

-- Each entry has its row and each row its entry.
abbrev pub IsSameOption : Option GraphEntry → Option GraphEntry → Type 0
IsSameOption none none = Unit
IsSameOption (some e) (some e') = IsSameEntry e e'
IsSameOption _ _ = ⊥

abbrev pub entry_if : Option GraphVerdict → Option GraphEntry
entry_if none = none
entry_if (some row) = some (entry_of row)

abbrev pub names_if : Option GraphVerdict → List String
names_if none = []
names_if (some row) = row.reporter_tenant_ids

-- Every row stands under its domain.
abbrev pub IsKeyed : Dict String GraphVerdict → Type 0
IsKeyed d = All (λ (r : String × GraphVerdict). r.1.registrable_domain ≡ r.0) d

pub insert-IsKeyed :
    (k : String) (row : GraphVerdict) (d : Dict String GraphVerdict)
    → IsKeyed d
    → row.registrable_domain ≡ k
    → IsKeyed (insert k row d)
insert-IsKeyed k row [] h same = (same, tt)
insert-IsKeyed k row ((j, r) ∷ d) h same = elim (Bool-cases (j == k)) [
  | inl here ↦ rw here (same, h.1)
  | inr there ↦ rw there (h.0, insert-IsKeyed k row d h.1 same)
]

-- The first of two results that there is.
abbrev pub first_some {ℓ} : {A : Type ℓ} → Option A → Option A → Option A
first_some none o = o
first_some (some a) o = some a

pub load_rows-lookup :
    (k : String) (rows : Dict String GraphVerdict) (g : CounterpartyGraph)
    → IsUnique rows
    → IsKeyed rows
    → lookup k (load_rows rows g).entries
      ≡ first_some (entry_if (lookup k rows)) (lookup k g.entries)
unfolding load_rows load
load_rows-lookup k [] g u keys = refl
load_rows-lookup k ((j, row) ∷ rows) g u keys =
    let next = load (entry_of row) row.reporter_tenant_ids g in
    let rest = load_rows-lookup k rows next u.1 keys.1 in
    let put : lookup k next.entries ≡ (if j == k then some (entry_of row) else lookup k g.entries) =
      lookup-insert (entry_of row).registrable_domain k (entry_of row) g.entries
      ∙ ap (λ d. if d == k then some (entry_of row) else lookup k g.entries) keys.0 in
    elim (Bool-cases (j == k)) [
      | inl same ↦
          let gone : lookup k rows ≡ none =
            subst (λ d. lookup d rows ≡ none) ((text_comparable.equal_iff j k).0 same) u.0 in
          rw same (
            rest
            ∙ ap (λ o. first_some (entry_if o) (lookup k next.entries)) gone
            ∙ put
            ∙ (rw same refl))
      | inr other ↦
          rw other
            (rest ∙ ap (λ o. first_some (entry_if (lookup k rows)) o) (put ∙ (rw other refl)))
    ]

abbrev pub reporters_if : Option GraphVerdict → Option (List String)
reporters_if none = none
reporters_if (some row) = some row.reporter_tenant_ids

pub load_rows-reporters :
    (k : String) (rows : Dict String GraphVerdict) (g : CounterpartyGraph)
    → IsUnique rows
    → IsKeyed rows
    → lookup k (load_rows rows g).reporters
      ≡ first_some (reporters_if (lookup k rows)) (lookup k g.reporters)
unfolding load_rows load
load_rows-reporters k [] g u keys = refl
load_rows-reporters k ((j, row) ∷ rows) g u keys =
    let next = load (entry_of row) row.reporter_tenant_ids g in
    let rest = load_rows-reporters k rows next u.1 keys.1 in
    let put : lookup k next.reporters
        ≡ (if j == k then some row.reporter_tenant_ids else lookup k g.reporters) =
      lookup-insert (entry_of row).registrable_domain k row.reporter_tenant_ids g.reporters
      ∙ ap (λ d. if d == k then some row.reporter_tenant_ids else lookup k g.reporters) keys.0 in
    elim (Bool-cases (j == k)) [
      | inl same ↦
          let gone : lookup k rows ≡ none =
            subst (λ d. lookup d rows ≡ none) ((text_comparable.equal_iff j k).0 same) u.0 in
          rw same (
            rest
            ∙ ap (λ o. first_some (reporters_if o) (lookup k next.reporters)) gone
            ∙ put
            ∙ (rw same refl))
      | inr other ↦
          rw other
            (rest ∙ ap (λ o. first_some (reporters_if (lookup k rows)) o) (put ∙ (rw other refl)))
    ]

abbrev pub names : Option (List String) → List String
names none = []
names (some ns) = ns
