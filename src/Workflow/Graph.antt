-- ===== src/Workflow/Graph.antt =====
-- app/models/workflow.py: `StageInGraph`, all that ordering and cycle detection read of a stage.
use carbonpaper.Prelude.{String, List, [], map, string_eq, some, none, dict_of, lookup}

pub record StageInGraph (S : Type 0) : Type 0 where
  pub id : S → String
  pub input_ids : S → List String

module _ {S : Type 0} (graph : StageInGraph S) where
  abbrev pub ids : List S → List String
  ids stages = map graph.id stages

  -- `edges = {s.id: list(s.input_ids) for s in stages}`
  abbrev pub edge_pairs : List S → List (String × List String)
  edge_pairs stages = map (λ s. (graph.id s, graph.input_ids s)) stages

  unfoldable pub edges_of : List S → List (String × List String)
  edges_of stages = dict_of (edge_pairs stages)

-- `edges.get(node, [])`
abbrev pub inputs_at : List (String × List String) → String → List String
inputs_at edges node = elim (lookup node edges) [ some inputs ↦ inputs | none ↦ [] ]
