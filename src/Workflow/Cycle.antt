-- ===== src/Workflow/Cycle.antt =====
-- app/models/workflow.py: `detect_cycle`, a depth-first search with three colours.
pub mod Whites
pub mod Kept
pub mod Visit
pub mod Correct
use carbonpaper.Prelude.{
  ℕ, zero, suc, String, Bool, true, false, not, Option, some, none, List, [], ◌∷◌, ◌++◌, ◌==◌,
  string_eq, contains, keys, is_empty, length, if◌then◌else◌,
}
use carbonpaper.Workflow.Graph.{StageInGraph, edges_of, inputs_at}

pub data Color : Type 0 where
  white gray black : Color

-- The two variables that `visit` shares with the loop: `color`, and the cycles found, each as the
-- ids that the message joins by arrows.
pub record Search : Type 0 where
  pub color : String → Option Color
  pub found : List (List String)

abbrev pub paint : String → Color → Search → Search
paint node c s = record s { color = λ n. if n == node then some c else s.color n }

-- The loop of `visit` over the inputs of `node`, with whether it returned from `visit`.
pub scan :
    (String → List String → Search → Search)
    → String
    → List String
    → List String
    → Search
    → Search × Bool
scan go node path [] s = (s, false)
scan go node path (next ∷ rest) s =
    if not (is_empty s.found) then (s, true) else elim (s.color next) [
      | some gray ↦ (record s { found = s.found ++ (path ++ node ∷ next ∷ []) ∷ [] }, true)
      | some white ↦ scan go node path rest (go next (path ++ node ∷ []) s)
      | _ ↦ scan go node path rest s
    ]

-- The depth of the recursion is bounded by fuel: each call paints a white node.
pub visit : ℕ → List (String × List String) → String → List String → Search → Search
unfolding scan
visit zero edges node path s = s
visit (suc fuel) edges node path s =
    if not (is_empty s.found)
    then s
    else let (s', returned) =
        scan (visit fuel edges) node path (inputs_at edges node) (paint node gray s) in
      if returned then s' else paint node black s'

-- The last loop of `detect_cycle`, over the ids of the graph.
pub visit_all : ℕ → List (String × List String) → List String → Search → Search
unfolding visit
visit_all fuel edges [] s = s
visit_all fuel edges (n ∷ rest) s =
    visit_all fuel edges rest (elim (s.color n) [ some white ↦ visit fuel edges n [] s | _ ↦ s ])

abbrev pub unvisited : List String → Search
unvisited nodes = record { color = λ n. if contains nodes n then some white else none; found = [] }

module _ {S : Type 0} (graph : StageInGraph S) where
  unfoldable pub detect_cycle : List S → List (List String)
  unfolding visit_all edges_of
  detect_cycle stages =
      let edges = edges_of graph stages in
      let nodes = keys edges in (visit_all (length nodes) edges nodes (unvisited nodes)).found
