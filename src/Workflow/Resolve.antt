-- ===== src/Workflow/Resolve.antt =====
-- app/models/workflow.py: schema resolution over the ordered stages, and `graph_issues`.
use carbonpaper.Prelude.{
  String, Option, some, none, List, [], ◌∷◌, ◌++◌, map, lookup, insert, string_eq, Result, ok, err,
  ◌>>=◌, if◌then◌else◌, is_empty,
}
use carbonpaper.Schema.Table.{TableSchema}
use carbonpaper.Signature.{WorkflowStageInput, find_signature_issues, promised_output_schema}
use carbonpaper.Stage.{Stage}
use carbonpaper.Workflow.Checks.{
  GraphIssue, signature_issue, hook_issue, stage_graph, structural_issues,
}
use carbonpaper.Workflow.Order.{sort_stages_by_dependency}
use carbonpaper.Workflow.Raised.{Raised, references_no_stage, resolves_no_schema}
use carbonpaper.Workflow.RowTypes.{find_row_type_disagreements, require_key}

-- The checks that a stage's class overrides, told the resolved input schemas.
pub record StageHooks (I : Type 0) : Type 0 where
  pub find_config_column_issues : Stage → List WorkflowStageInput → Result Raised (List I)
  pub find_signature_schema_issues : Stage → List WorkflowStageInput → Result Raised (List I)

pub record WorkflowStage : Type 0 where
  pub stage : Stage
  pub inputs : List WorkflowStageInput
  pub output_schema : Option TableSchema

-- `outputs: dict[str, Optional[TableSchema]]`
abbrev pub Outputs : Type 0
Outputs = List (String × Option TableSchema)

unfoldable pub require_upstream_output : String → String → Outputs → Result Raised TableSchema
require_upstream_output stage upstream outputs = elim (lookup upstream outputs) [
  | none ↦ err (references_no_stage stage upstream)
  | some none ↦ err (resolves_no_schema stage upstream)
  | some (some schema) ↦ ok schema
]

unfoldable pub resolve_inputs :
    String → List String → Outputs → Result Raised (List WorkflowStageInput)
unfolding require_upstream_output
resolve_inputs stage [] outputs = ok []
resolve_inputs stage (i ∷ is) outputs =
    let rest = resolve_inputs stage is outputs in
    do
      schema ← require_upstream_output stage i outputs
      more ← rest
      ok (record { id = i; table_schema = schema } ∷ more)

-- The loop of `resolve_workflow_stages`, with the two dictionaries that it fills.
unfoldable pub resolve_from :
    Outputs
    → List (String × WorkflowStage)
    → List Stage
    → Result Raised (List (String × WorkflowStage))
resolve_from outputs resolved [] = ok resolved
resolve_from outputs resolved (s ∷ rest) = resolve_inputs s.id s.inputs outputs >>= λ inputs.
    promised_output_schema s inputs >>= λ output.
    resolve_from (insert s.id output outputs)
      (insert s.id (record { stage = s; inputs = inputs; output_schema = output }) resolved) rest

unfoldable pub read_resolved :
    List (String × WorkflowStage) → List Stage → Result Raised (List WorkflowStage)
read_resolved resolved [] = ok []
read_resolved resolved (s ∷ stages) =
    let rest = read_resolved resolved stages in
    do w ← require_key s.id resolved; ws ← rest; ok (w ∷ ws)

unfoldable pub resolve_workflow_stages : List Stage → Result Raised (List WorkflowStage)
resolve_workflow_stages stages = do
  ordered ← sort_stages_by_dependency stage_graph stages
  resolved ← resolve_from [] [] ordered
  read_resolved resolved stages

module _ {I : Type 0} (hooks : StageHooks I) where
  unfoldable pub find_workflow_stage_issues :
      Stage → List WorkflowStageInput → Result Raised (List (GraphIssue I))
  find_workflow_stage_issues s inputs = do
    signature ← find_signature_issues s inputs
    config ← hooks.find_config_column_issues s inputs
    schema ← hooks.find_signature_schema_issues s inputs
    ok (map signature_issue signature ++ (map hook_issue config ++ map hook_issue schema))

  -- The loop of `_find_resolution_issues`: it stops at the first stage that has issues.
  unfoldable pub find_issues_from : Outputs → List Stage → Result Raised (List (GraphIssue I))
  find_issues_from outputs [] = ok []
  find_issues_from outputs (s ∷ rest) = resolve_inputs s.id s.inputs outputs >>= λ inputs.
      find_workflow_stage_issues s inputs >>= λ issues.
      if is_empty issues
      then (promised_output_schema s inputs >>= λ output.
          find_issues_from (insert s.id output outputs) rest)
      else ok issues

  unfoldable pub find_resolution_issues : List Stage → Result Raised (List (GraphIssue I))
  find_resolution_issues stages = do
    ordered ← sort_stages_by_dependency stage_graph stages
    find_issues_from [] ordered

  unfoldable pub graph_issues : List Stage → Result Raised (List (GraphIssue I))
  graph_issues stages =
      let structural : List (GraphIssue I) = structural_issues stages in
      if is_empty structural
      then (do
        resolution ← find_resolution_issues stages
        disagreements ← find_row_type_disagreements stages
        ok (resolution ++ disagreements))
      else ok structural
