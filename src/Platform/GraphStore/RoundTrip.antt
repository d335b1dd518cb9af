-- ===== src/Platform/GraphStore/RoundTrip.antt =====
-- What was stored of the graph gives the graph back.
use mathlib.Core.Path.{subst}
use envelockserver.Prelude.{
  ℕ, String, ◌≡◌, refl, sym, ap, ◌∙◌, inl, inr, Bool, not, Option, none, some, List, [], ◌∷◌,
  if◌then◌else◌, Bool-cases, ◌==◌, eq_refl, text_comparable, number_comparable, contains,
}
use envelockserver.Prelude.Dict.{Dict, lookup, insert, lookup-insert, IsUnique, insert-IsUnique}
use envelockserver.Platform.Graph.{
  Verdict, GraphEntry, CounterpartyGraph, report, updated, clear, empty_graph, add_to, key_for,
  reporters_of,
}
use envelockserver.Platform.GraphStore.{
  hydrate, persist_report, row_of, first_of, entry_of, GraphVerdict,
}
use envelockserver.Platform.GraphStore.Loading.{
  contains-sorted_texts, insert-IsKeyed, load_rows-lookup, load_rows-reporters, names_if, IsKeyed,
  reporters_if, first_some, names, IsSameEntry, IsSameOption, entry_if,
}

-- A report, and the write of what it left.
pub record Report : Type 0 where
  pub domain : String
  pub verdict : Verdict
  pub tenant_id : String
  pub technique : Option String
  pub now : ℕ

module _ (registrable : String → String) where
  pub report_and_persist :
      Report
      → CounterpartyGraph × Dict String GraphVerdict
      → CounterpartyGraph × Dict String GraphVerdict
  report_and_persist r (g, rows) =
      let (entry, g') = report registrable r.domain r.verdict r.tenant_id r.technique r.now g in
      (g', persist_report entry (reporters_of registrable r.domain g') rows)

  pub report_all :
      List Report
      → CounterpartyGraph × Dict String GraphVerdict
      → CounterpartyGraph × Dict String GraphVerdict
  report_all [] s = s
  report_all (r ∷ rs) s = report_all rs (report_and_persist r s)

-- The rows hold the graph.
record IsPersisted (g : CounterpartyGraph) (rows : Dict String GraphVerdict) : Type 0 where
  unique : IsUnique rows
  keys : IsKeyed rows
  entries : (k : String) → IsSameOption (lookup k g.entries) (entry_if (lookup k rows))
  reporters :
      (k t : String)
      → contains t (names_if (lookup k rows)) ≡ contains t (names (lookup k g.reporters))

updated_domain :
    (reg : String) (v : Verdict) (t : Option String) (now : ℕ) (b : Bool) (o : Option GraphEntry)
    → (updated reg v t now b o).registrable_domain ≡ reg
unfolding updated
updated_domain reg v t now b none = refl
updated_domain reg v t now b (some e) = refl

updated-row :
    (reg : String) (v : Verdict) (t : Option String) (now : ℕ) (b : Bool) (o : Option GraphEntry)
    (ns : List String) (row : Option GraphVerdict)
    → IsSameOption o (entry_if row)
    → IsSameEntry (updated reg v t now b o) (entry_of (row_of (updated reg v t now b o) ns row))
unfolding updated row_of first_of entry_of
updated-row reg v t now b none ns none same = record {
  domain = refl;
  verdict = refl;
  confirmations = refl;
  first = refl;
  last = refl;
  techniques = λ x. contains-sorted_texts x _;
}
updated-row reg v t now b none ns (some row) same = elim same [ ]
updated-row reg v t now b (some e) ns none same = elim same [ ]
updated-row reg v t now b (some e) ns (some row) same = record {
  domain = refl;
  verdict = refl;
  confirmations = refl;
  first = same.first;
  last = refl;
  techniques = λ x. contains-sorted_texts x _;
}

put-IsPersisted :
    (g : CounterpartyGraph) (rows : Dict String GraphVerdict) (reg : String) (entry : GraphEntry)
    (ns : List String) (row : GraphVerdict)
    → IsPersisted g rows
    → row.registrable_domain ≡ reg
    → IsSameEntry entry (entry_of row)
    → ((t : String) → contains t row.reporter_tenant_ids ≡ contains t ns)
    → IsPersisted
        (record { entries = insert reg entry g.entries; reporters = insert reg ns g.reporters })
        (insert reg row rows)
put-IsPersisted g rows reg entry ns row h domain same names_same = record {
  unique = insert-IsUnique reg row rows h.unique;
  keys = insert-IsKeyed reg row rows h.keys domain;
  entries = λ k. rw (lookup-insert reg k entry g.entries, lookup-insert reg k row rows) (by_key k);
  reporters =
      λ k t. rw (lookup-insert reg k ns g.reporters, lookup-insert reg k row rows) (by_name k t);
}
  where
    by_key :
        (k : String)
        → IsSameOption
            (if reg == k then some entry else lookup k g.entries)
            (entry_if (if reg == k then some row else lookup k rows))
    by_key k = elim (Bool-cases (reg == k)) [
      | inl here ↦ rw here same
      | inr there ↦ rw there (h.entries k)
    ]

    by_name :
        (k t : String)
        → contains t (names_if (if reg == k then some row else lookup k rows))
          ≡ contains t (names (if reg == k then some ns else lookup k g.reporters))
    by_name k t = elim (Bool-cases (reg == k)) [
      | inl here ↦ rw here (names_same t)
      | inr there ↦ rw there (h.reporters k t)
    ]

persist_report-insert :
    (entry : GraphEntry) (ns : List String) (rows : Dict String GraphVerdict) (reg : String)
    → entry.registrable_domain ≡ reg
    → persist_report entry ns rows ≡ insert reg (row_of entry ns (lookup reg rows)) rows
unfolding persist_report
persist_report-insert entry ns rows reg same =
    ap (λ d. insert d (row_of entry ns (lookup d rows)) rows) same

module _ (registrable : String → String) where
  reporters_of-insert :
      (domain : String) (ns : List String) (entries : Dict String GraphEntry)
      (reporters : Dict String (List String))
      → reporters_of registrable domain (record {
        entries = entries;
        reporters = insert (key_for registrable domain) ns reporters;
      })
        ≡ ns
  unfolding reporters_of
  reporters_of-insert domain ns entries reporters =
      let reg = key_for registrable domain in
      rw (lookup-insert reg reg ns reporters, eq_refl reg) refl

  report_and_persist-IsPersisted :
      (r : Report) (g : CounterpartyGraph) (rows : Dict String GraphVerdict)
      → IsPersisted g rows
      → IsPersisted
          (report_and_persist registrable r (g, rows)).0
          (report_and_persist registrable r (g, rows)).1
  unfolding report_and_persist report reporters_of
  report_and_persist-IsPersisted r g rows h =
      let reg = key_for registrable r.domain in
      let (entry, g') = report registrable r.domain r.verdict r.tenant_id r.technique r.now g in
      let seen = reporters_of registrable r.domain g in
      let is_new = not (contains r.tenant_id seen) in
      let ns = add_to r.tenant_id seen in
      let found = lookup reg g.entries in
      let named : entry.registrable_domain ≡ reg =
        updated_domain reg r.verdict r.technique r.now is_new found in
      let written =
        ap (λ n. persist_report entry n rows)
          (reporters_of-insert r.domain ns (insert reg entry g.entries) g.reporters)
        ∙ persist_report-insert entry ns rows reg named in
      subst (λ rows'. IsPersisted g' rows') (sym written)
        (put-IsPersisted g rows reg entry ns (row_of entry ns (lookup reg rows)) h
          (unfold row_of in named)
          (updated-row reg r.verdict r.technique r.now is_new found ns (lookup reg rows)
            (h.entries reg))
          (unfold row_of in λ t. contains-sorted_texts t ns))

  report_all-IsPersisted :
      (rs : List Report) (g : CounterpartyGraph) (rows : Dict String GraphVerdict)
      → IsPersisted g rows
      → IsPersisted (report_all registrable rs (g, rows)).0 (report_all registrable rs (g, rows)).1
  unfolding report_all
  report_all-IsPersisted [] g rows h = h
  report_all-IsPersisted (r ∷ rs) g rows h =
      report_all-IsPersisted rs (report_and_persist registrable r (g, rows)).0
        (report_and_persist registrable r (g, rows)).1 (report_and_persist-IsPersisted r g rows h)

hydrate-same :
    (g before : CounterpartyGraph) (rows : Dict String GraphVerdict) (k t : String)
    → IsPersisted g rows
    → IsSameOption (lookup k g.entries) (lookup k (hydrate rows before).entries)
      × (contains t (names (lookup k (hydrate rows before).reporters))
          ≡ contains t (names (lookup k g.reporters)))
unfolding hydrate clear
hydrate-same g before rows k t h = (
  subst (λ o. IsSameOption (lookup k g.entries) o)
      (sym (load_rows-lookup k rows empty_graph h.unique h.keys ∙ only (entry_if (lookup k rows))))
      (h.entries k),
  ap (λ o. contains t (names o))
        (load_rows-reporters k rows empty_graph h.unique h.keys
          ∙ only (reporters_if (lookup k rows)))
      ∙ as_names (lookup k rows)
      ∙ h.reporters k t,
)
  where
    only : {A : Type 0} → (o : Option A) → first_some o none ≡ o
    only none = refl
    only (some a) = refl

    as_names :
        (o : Option GraphVerdict) → contains t (names (reporters_if o)) ≡ contains t (names_if o)
    as_names none = refl
    as_names (some row) = refl

empty-IsPersisted : IsPersisted empty_graph []
empty-IsPersisted = record { unique = tt; keys = tt; entries = λ k. tt; reporters = λ k t. refl }

-- After any reports, each written to the table, a restart that loads the table finds the same entry as the
-- graph of before for every domain, or none where that had none, and the same tenants as its reporters,
-- whatever graph it starts with.
pub hydrate_restores :
    (registrable : String → String) (rs : List Report) (before : CounterpartyGraph) (k t : String)
    → IsSameOption
        (lookup k (report_all registrable rs (empty_graph, [])).0.entries)
        (lookup k (hydrate (report_all registrable rs (empty_graph, [])).1 before).entries)
      × (contains t (
            names
              (lookup k (hydrate (report_all registrable rs (empty_graph, [])).1 before).reporters))
          ≡ contains t (names (lookup k (report_all registrable rs (empty_graph, [])).0.reporters)))
hydrate_restores registrable rs before k t =
    hydrate-same (report_all registrable rs (empty_graph, [])).0 before
      (report_all registrable rs (empty_graph, [])).1 k t
      (report_all-IsPersisted registrable rs empty_graph [] empty-IsPersisted)
