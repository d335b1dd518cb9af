-- ===== src/Platform/Graph/Examples.antt =====
-- The graph's theorems at concrete reports, with every domain its own registrable domain.
use envelockserver.Prelude.{
  ◌≤◌, String, ◌≡◌, refl, true, none, arith, text_comparable, number_comparable, length,
}
use envelockserver.Platform.Graph.{
  verdict_eq, actionable, empty_graph, add_to, updated, key_for, report, lookup, reporters_of,
  CounterpartyGraph, fraudulent, legitimate,
}
use envelockserver.Platform.Graph.Reporters.{
  IsDistinct, report-IsBacked, actionable_two_tenants, IsBacked,
}
use envelockserver.Platform.Graph.Verdicts.{report_any_confirms}

abbrev itself : String → String
itself d = d

empty_graph-IsBacked : IsBacked empty_graph
empty_graph-IsBacked = record { at = λ key. tt }

abbrev once : CounterpartyGraph
once = (report itself "evil.example" fraudulent "t1" none 10 empty_graph).1

report_backing_example : IsBacked once
report_backing_example =
    report-IsBacked itself "evil.example" fraudulent "t1" none 10 empty_graph empty_graph-IsBacked

abbrev twice : CounterpartyGraph
twice = (report itself "evil.example" fraudulent "t2" none 20 once).1

two_tenants_example :
    IsDistinct (reporters_of itself "evil.example" twice)
    × (2 ≤ length (reporters_of itself "evil.example" twice))
unfolding report lookup actionable updated key_for add_to
two_tenants_example =
    actionable_two_tenants itself "evil.example" twice
      (report-IsBacked itself "evil.example" fraudulent "t2" none 20 once report_backing_example)
      refl refl

confirms_example : actionable (report itself "evil.example" legitimate "t2" none 20 once).0 ≡ true
unfolding report lookup reporters_of updated key_for add_to
confirms_example =
    report_any_confirms itself "evil.example" legitimate "t2" none 20 once refl refl (omega arith)
      refl
