-- ===== src/Detections/Base.antt =====
-- src/envelock/detections/base.py: the framework. A detection has a name, the capabilities it needs
-- and a function from a context to findings; the registry is a dictionary by name.
pub mod Registry
pub mod Reports
use envelockserver.Prelude.{
  ◌+◌, String, List, [], ◌∷◌, ◌++◌, if◌then◌else◌, text_comparable, number_comparable, subset,
}
use envelockserver.Prelude.Dict.{Dict, insert}
use envelockserver.Core.Capabilities.{Capability, capability_eq}
use envelockserver.Risk.Engine.{FindingResult, insert_service}
use envelockserver.Detections.Context.{DetectionContext}

pub record Detection (V : Type 0) : Type 0 where
  pub service : String
  pub requires : List Capability
  pub evaluate : DetectionContext V → List FindingResult

module _ {V : Type 0} where
  unfoldable pub register : Detection V → Dict String (Detection V) → Dict String (Detection V)
  register detection registry = insert detection.service detection registry

  -- `active_for` over the values of the registry.
  unfoldable pub active_for : List Capability → Dict String (Detection V) → List (Detection V)
  active_for capabilities [] = []
  active_for capabilities ((_, d) ∷ registry) =
      let rest = active_for capabilities registry in
      if subset d.requires capabilities then d ∷ rest else rest

  -- The names are all different, so that sorting them is inserting each.
  pub inactive_for : List Capability → Dict String (Detection V) → List String
  inactive_for capabilities [] = []
  inactive_for capabilities ((_, d) ∷ registry) =
      let rest = inactive_for capabilities registry in
      if subset d.requires capabilities then rest else insert_service d.service rest

  unfoldable pub evaluate_all : DetectionContext V → List (Detection V) → List FindingResult
  evaluate_all ctx [] = []
  evaluate_all ctx (d ∷ ds) = d.evaluate ctx ++ evaluate_all ctx ds

  unfoldable pub run_all : Dict String (Detection V) → DetectionContext V → List FindingResult
  unfolding evaluate_all
  run_all registry ctx = evaluate_all ctx (active_for ctx.capabilities registry)

  -- What the imports of the modules do: each registers its detections in turn.
  unfoldable pub registered :
      List (Detection V) → Dict String (Detection V) → Dict String (Detection V)
  registered [] registry = registry
  registered (d ∷ ds) registry = registered ds (register d registry)
