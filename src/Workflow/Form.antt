-- ===== src/Workflow/Form.antt =====
-- app/models/workflow.py: `Workflow`, which forms only from a graph without issues, and the stages
-- that it finds by id.
use carbonpaper.Prelude.{
  String, Option, some, none, List, map, lookup, dict_of, is_empty, string_eq, Result, ok, err,
  ◌>>=◌, if◌then◌else◌,
}
use carbonpaper.Stage.{Stage}
use carbonpaper.Workflow.Checks.{GraphIssue}
use carbonpaper.Workflow.Raised.{Raised, key_error}
use carbonpaper.Workflow.Resolve.{StageHooks, WorkflowStage, graph_issues, resolve_workflow_stages}

pub record Workflow : Type 0 where
  pub stages : List Stage

-- Why a list of stages forms no workflow: the issues of its graph, or an exception of the checks.
pub data Refusal (I : Type 0) : Type 0 where
  has_issues : List (GraphIssue I) → Refusal I
  raises : Raised → Refusal I

abbrev pub form_or_refuse :
    {I : Type 0} → List Stage → Result Raised (List (GraphIssue I)) → Result (Refusal I) Workflow
form_or_refuse stages (err e) = err (raises e)
form_or_refuse stages (ok issues) =
    if is_empty issues then ok (record { stages = stages }) else err (has_issues issues)

-- `Workflow(stages=...)`, with the validator `_validate_graph`.
unfoldable pub form_workflow :
    {I : Type 0} → StageHooks I → List Stage → Result (Refusal I) Workflow
form_workflow hooks stages = form_or_refuse stages (graph_issues hooks stages)

unfoldable pub list_workflow_stages : Workflow → Result Raised (List WorkflowStage)
list_workflow_stages w = resolve_workflow_stages w.stages

abbrev pub stage_pairs : List WorkflowStage → List (String × WorkflowStage)
stage_pairs resolved = map (λ s. (s.stage.id, s)) resolved

unfoldable pub index_workflow_stages_by_id :
    Workflow → Result Raised (List (String × WorkflowStage))
unfolding list_workflow_stages
index_workflow_stages_by_id w = do
  resolved ← list_workflow_stages w
  ok (dict_of (stage_pairs resolved))

abbrev pub found_or_missing : String → Option WorkflowStage → Result Raised WorkflowStage
found_or_missing stage_id (some s) = ok s
found_or_missing stage_id none = err (key_error stage_id)

unfoldable pub find_workflow_stage : Workflow → String → Result Raised WorkflowStage
unfolding index_workflow_stages_by_id
find_workflow_stage w stage_id = do
  by_id ← index_workflow_stages_by_id w
  found_or_missing stage_id (lookup stage_id by_id)
