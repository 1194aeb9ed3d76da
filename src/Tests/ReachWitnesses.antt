-- ===== src/Tests/ReachWitnesses.antt =====
-- The theorems on the stages upstream of others, at the sample stages.
use carbonpaper.Prelude.{
  ◌≡◌, refl, String, some, none, List, [], ◌∷◌, lookup, string_eq, Result, ok, err,
}
use carbonpaper.Workflow.Checks.{stage_graph}
use carbonpaper.Workflow.Graph.{edges_of}
use carbonpaper.Workflow.Raised.{Raised, no_stage}
use carbonpaper.Workflow.Reach.{report_inputs, find_stages_reaching_report, find_stages_upstream_of}
use carbonpaper.Workflow.Reach.Upstream.{
  Answer, find_stages_reaching_report-Answer, find_stages_upstream_of-Answer,
}
use carbonpaper.Tests.Samples.{stages}

upstream_of_sorted : find_stages_upstream_of stages "sorted" ≡ some (ok ("people" ∷ "spelled" ∷ []))
unfolding find_stages_upstream_of
upstream_of_sorted = refl

find_stages_upstream_of-Answer_example :
    ((lookup "sorted" (edges_of stage_graph stages) ≡ none)
      → find_stages_upstream_of stages "sorted" ≡ some (err (no_stage "sorted")))
    × ((inputs : List String)
        → lookup "sorted" (edges_of stage_graph stages) ≡ some inputs
        → (r : Result Raised (List String)) × (find_stages_upstream_of stages "sorted" ≡ some r)
          × Answer (edges_of stage_graph stages) inputs r)
find_stages_upstream_of-Answer_example = find_stages_upstream_of-Answer stages "sorted"

find_stages_reaching_report-Answer_example :
    (r : Result Raised (List String)) × (find_stages_reaching_report stages ≡ some r)
    × Answer (edges_of stage_graph stages) (report_inputs stages) r
find_stages_reaching_report-Answer_example = find_stages_reaching_report-Answer stages
