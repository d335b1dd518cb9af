-- ===== src/Platform/GraphStore.antt =====
-- platform/graph_store.py: the rows of the counterparty graph. The table is a dictionary by registrable domain;
-- a verdict is kept as such, not as its text. `sorted` of a set is the sorted list of Risk.Engine.
pub mod Loading
pub mod RoundTrip
mod Examples
use envelockserver.Prelude.{
  ℕ, String, Option, none, some, List, [], ◌∷◌, text_comparable, number_comparable,
}
use envelockserver.Prelude.Dict.{Dict, lookup, insert}
use envelockserver.Risk.Engine.{insert_service}
use envelockserver.Platform.Graph.{CounterpartyGraph, GraphEntry, Verdict, load, clear}

pub record GraphVerdict : Type 0 where
  pub registrable_domain : String
  pub verdict : Verdict
  pub confirmations : ℕ
  pub first_reported : ℕ
  pub last_reported : ℕ
  pub techniques : List String
  pub reporter_tenant_ids : List String

pub sorted_texts : List String → List String
sorted_texts [] = []
sorted_texts (t ∷ ts) = insert_service t (sorted_texts ts)

first_of : GraphEntry → Option GraphVerdict → ℕ
first_of entry none = entry.first_reported
first_of entry (some row) = row.first_reported

pub row_of : GraphEntry → List String → Option GraphVerdict → GraphVerdict
unfolding first_of
row_of entry reporters existing = record {
  registrable_domain = entry.registrable_domain;
  verdict = entry.verdict;
  confirmations = entry.confirmations;
  first_reported = first_of entry existing;
  last_reported = entry.last_reported;
  techniques = sorted_texts entry.techniques;
  reporter_tenant_ids = sorted_texts reporters;
}

pub persist_report :
    GraphEntry → (reporters : List String) → Dict String GraphVerdict → Dict String GraphVerdict
unfolding row_of
persist_report entry reporters rows =
    insert entry.registrable_domain (row_of entry reporters (lookup entry.registrable_domain rows))
      rows

pub entry_of : GraphVerdict → GraphEntry
entry_of row = record {
  registrable_domain = row.registrable_domain;
  verdict = row.verdict;
  confirmations = row.confirmations;
  first_reported = row.first_reported;
  last_reported = row.last_reported;
  techniques = row.techniques;
}

pub load_rows : Dict String GraphVerdict → CounterpartyGraph → CounterpartyGraph
unfolding entry_of
load_rows [] graph = graph
load_rows ((key, row) ∷ rows) graph =
    load_rows rows (load (entry_of row) row.reporter_tenant_ids graph)

pub hydrate : Dict String GraphVerdict → CounterpartyGraph → CounterpartyGraph
unfolding load_rows
hydrate rows graph = load_rows rows (clear graph)
