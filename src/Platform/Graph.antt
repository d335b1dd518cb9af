-- ===== src/Platform/Graph.antt =====
-- platform/graph.py: `CounterpartyGraph`, the judgements on domains that tenants share. A tenant is
-- named by the text of its id, a set of texts is a list without repetition, and the confidence of an
-- entry, which nothing in the graph reads, is left out. `registrable_domain` of util/domains.py rests
-- on a package for the public suffixes; it is the parameter `registrable`.
pub mod Reporters
pub mod Verdicts
mod Examples
use envelockserver.Prelude.{
  ℕ, zero, suc, ◌+◌, String, ◌≡◌, refl, ◌↔◌, Bool, true, not, ◌&&◌, Option, none, some, List, [],
  ◌∷◌, ◌++◌, leb, nat_beq, if◌then◌else◌, ◌==◌, text_comparable, number_comparable, coded_iff,
  Comparable, contains,
}
use envelockserver.Prelude.Dict
use envelockserver.Prelude.Dict.{Dict, insert}

pub data Verdict : Type 0 where
  fraudulent suspicious legitimate : Verdict

abbrev pub verdict_code : Verdict → ℕ
verdict_code fraudulent = 0
verdict_code suspicious = 1
verdict_code legitimate = 2

verdict_decode : ℕ → Option Verdict
verdict_decode zero = some fraudulent
verdict_decode (suc zero) = some suspicious
verdict_decode (suc (suc zero)) = some legitimate
verdict_decode _ = none

verdict_back : (a : Verdict) → verdict_decode (verdict_code a) ≡ some a
unfolding verdict_decode
verdict_back fraudulent = refl
verdict_back suspicious = refl
verdict_back legitimate = refl

pub verdict_iff : (a b : Verdict) → (nat_beq (verdict_code a) (verdict_code b) ≡ true) ↔ (a ≡ b)
verdict_iff = coded_iff verdict_code verdict_decode verdict_back

instance abbrev pub verdict_eq : Comparable Verdict
verdict_eq = record {
  equal = λ a b. nat_beq (verdict_code a) (verdict_code b);
  equal_iff = verdict_iff;
}

pub record GraphEntry : Type 0 where
  pub registrable_domain : String
  pub verdict : Verdict
  pub confirmations : ℕ
  pub first_reported : ℕ
  pub last_reported : ℕ
  pub techniques : List String

pub actionable : GraphEntry → Bool
actionable e = e.verdict == fraudulent && leb 2 e.confirmations

pub record CounterpartyGraph : Type 0 where
  pub entries : Dict String GraphEntry
  pub reporters : Dict String (List String)

abbrev pub empty_graph : CounterpartyGraph
empty_graph = record { entries = []; reporters = [] }

-- `set.add`
pub add_to : String → List String → List String
add_to x xs = if contains x xs then xs else xs ++ (x ∷ [])

-- `{technique} if technique else set()`, added to a set.
add_technique : Option String → List String → List String
add_technique none ts = ts
add_technique (some t) ts = if t == "" then ts else add_to t ts

names_or_none : Option (List String) → List String
names_or_none none = []
names_or_none (some names) = names

-- The entry that a report leaves, from the one that was there.
unfoldable pub updated :
    String → Verdict → Option String → ℕ → (is_new_reporter : Bool) → Option GraphEntry → GraphEntry
unfolding add_technique
updated reg verdict technique now is_new none = record {
  registrable_domain = reg;
  verdict = verdict;
  confirmations = 1;
  first_reported = now;
  last_reported = now;
  techniques = add_technique technique [];
}
updated reg verdict technique now is_new (some existing) = record {
  registrable_domain = reg;
  verdict = if verdict == fraudulent then verdict else existing.verdict;
  confirmations = existing.confirmations + (if is_new then 1 else 0);
  first_reported = existing.first_reported;
  last_reported = now;
  techniques = add_technique technique existing.techniques;
}

module _ (registrable : String → String) where
  -- `registrable_domain(domain) or domain`
  unfoldable pub key_for : String → String
  key_for domain = let reg = registrable domain in if reg == "" then domain else reg

  unfoldable pub report :
      String
      → Verdict
      → (tenant_id : String) → Option String
      → ℕ
      → CounterpartyGraph
      → GraphEntry × CounterpartyGraph
  unfolding names_or_none
  report domain verdict tenant_id technique now g =
      let reg = key_for domain in
      let seen_by = names_or_none (Dict.lookup reg g.reporters) in
      let entry =
        updated reg verdict technique now (not (contains tenant_id seen_by))
          (Dict.lookup reg g.entries) in
      (
        entry,
        record {
          entries = insert reg entry g.entries;
          reporters = insert reg (add_to tenant_id seen_by) g.reporters;
        },
      )

  unfoldable pub lookup : String → CounterpartyGraph → Option GraphEntry
  lookup domain g = Dict.lookup (key_for domain) g.entries

  unfoldable pub reporters_of : String → CounterpartyGraph → List String
  unfolding names_or_none
  reporters_of domain g = names_or_none (Dict.lookup (key_for domain) g.reporters)

known_bad_in : Dict String GraphEntry → List String
known_bad_in [] = []
known_bad_in ((d, e) ∷ entries) =
    let rest = known_bad_in entries in if actionable e then d ∷ rest else rest

pub known_bad : CounterpartyGraph → List String
unfolding known_bad_in
known_bad g = known_bad_in g.entries

unfoldable pub load : GraphEntry → List String → CounterpartyGraph → CounterpartyGraph
load entry reporters g = record {
  entries = insert entry.registrable_domain entry g.entries;
  reporters = insert entry.registrable_domain reporters g.reporters;
}

unfoldable pub clear : CounterpartyGraph → CounterpartyGraph
clear g = empty_graph
