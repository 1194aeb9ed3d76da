-- ===== src/Executor/Topological.antt =====
-- app/runtime/executor.py: `topological_sort`, a depth-first search that keeps its path.
pub mod Visited
pub mod Visit
pub mod Index
pub mod Sorted
pub mod Acyclic
use carbonpaper.Prelude.{
  ℕ, zero, suc, String, some, none, List, [], ◌∷◌, ◌++◌, map, contains, lookup, dict_of, string_eq,
  length, Result, ok, err, ◌>>=◌, if◌then◌else◌,
}
use carbonpaper.Workflow.Graph.{StageInGraph}

-- "Cycle detected", with the path to the stage that it meets again; or the bound of the recursion.
pub data SortError : Type 0 where
  cycle_detected : List String → SortError
  too_deep : SortError

-- The two variables that `visit` shares with the loop.
pub record Sort (S : Type 0) : Type 0 where
  pub visited : List String
  pub order : List S

module _ {S : Type 0} (graph : StageInGraph S) where
  abbrev pub index : List S → List (String × S)
  index stages = dict_of (map (λ s. (graph.id s, s)) stages)

  -- The loop over the inputs that are stages of the index.
  pub visit_inputs :
      (S → Sort S → Result SortError (Sort S))
      → List (String × S)
      → List String
      → Sort S
      → Result SortError (Sort S)
  visit_inputs go by_id [] t = ok t
  visit_inputs go by_id (i ∷ is) t = elim (lookup i by_id) [
    | none ↦ visit_inputs go by_id is t
    | some s ↦ go s t >>= visit_inputs go by_id is
  ]

  -- `visit(s.id, path)`: the path grows with each call by a stage that is not on it.
  pub visit : ℕ → List (String × S) → List String → S → Sort S → Result SortError (Sort S)
  unfolding visit_inputs
  visit zero by_id path s t = err too_deep
  visit (suc fuel) by_id path s t =
      if contains t.visited (graph.id s)
      then ok t
      else if contains path (graph.id s)
      then err (cycle_detected (path ++ graph.id s ∷ []))
      else visit_inputs (visit fuel by_id (path ++ graph.id s ∷ [])) by_id (graph.input_ids s) t
        >>= λ u. ok (record { visited = u.visited ++ graph.id s ∷ []; order = u.order ++ s ∷ [] })

  pub visit_each : ℕ → List (String × S) → List (String × S) → Sort S → Result SortError (Sort S)
  unfolding visit
  visit_each fuel by_id [] t = ok t
  visit_each fuel by_id ((i, s) ∷ rest) t = visit fuel by_id [] s t >>= visit_each fuel by_id rest

  unfoldable pub topological_sort : List S → Result SortError (List S)
  unfolding visit_each
  topological_sort stages =
      let by_id = index stages in
      visit_each (suc (length by_id)) by_id by_id (record { visited = []; order = [] }) >>= λ t.
      ok t.order
