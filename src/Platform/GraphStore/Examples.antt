-- ===== src/Platform/GraphStore/Examples.antt =====
-- Two tenants report a domain, and the server starts again.
use envelockserver.Prelude.{String, ◌≡◌, none, some, List, [], ◌∷◌, text_comparable, contains}
use envelockserver.Prelude.Dict.{lookup}
use envelockserver.Platform.Graph.{empty_graph, fraudulent, suspicious}
use envelockserver.Platform.GraphStore.{hydrate}
use envelockserver.Platform.GraphStore.Loading.{IsSameOption, names}
use envelockserver.Platform.GraphStore.RoundTrip.{Report, report_all, hydrate_restores}

abbrev plain : String → String
plain d = d

abbrev reports : List Report
reports =
    record {
      domain = "acrne.example";
      verdict = suspicious;
      tenant_id = "t2";
      technique = some "lookalike";
      now = 4;
    }
    ∷ record {
      domain = "acrne.example";
      verdict = fraudulent;
      tenant_id = "t1";
      technique = none;
      now = 9;
    }
    ∷ []

restored_example :
    IsSameOption (lookup "acrne.example" (report_all plain reports (empty_graph, [])).0.entries) (
      lookup "acrne.example"
        (hydrate (report_all plain reports (empty_graph, [])).1 empty_graph).entries)
    × (contains "t1" (
          names (
            lookup "acrne.example"
              (hydrate (report_all plain reports (empty_graph, [])).1 empty_graph).reporters))
        ≡ contains "t1" (
            names
              (lookup "acrne.example" (report_all plain reports (empty_graph, [])).0.reporters)))
restored_example = hydrate_restores plain reports empty_graph "acrne.example" "t1"
