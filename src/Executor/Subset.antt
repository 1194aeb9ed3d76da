-- ===== src/Executor/Subset.antt =====
-- app/runtime/executor.py: `execute_subset`, a run of some stages of a workflow on given outputs.
pub mod Picked
pub mod Complete
use carbonpaper.Prelude.{
  String, Option, some, none, List, [], ◌∷◌, map, flat_map, filter, not, contains, find, keys,
  lookup, string_eq, is_empty, Result, ok, err, ◌>>=◌, if◌then◌else◌,
}
use carbonpaper.Workflow.Graph.{StageInGraph}
use carbonpaper.Workflow.Resolve.{WorkflowStage}
use carbonpaper.Executor.Status.{StageStatus, RunStatus, is_error}
use carbonpaper.Executor.Records.{
  ErrorMessage, StageErrorInfo, StageRecord, record_with_status, RunManifest,
}
use carbonpaper.Executor.Runtime.{RunContext, Inputs, Runtime}
use carbonpaper.Executor.Topological.{SortError, index, topological_sort}
use carbonpaper.Executor.Loop.{run_ordered_stages}
use carbonpaper.Executor.Progress.{Progress}

-- The exceptions of a subset run: `SubsetRunError`, and the sort's `ValueError`.
pub data SubsetRunError : Type 0 where
  names_no_stage : List String → SubsetRunError
  sort_raised : SortError → SubsetRunError
  halted_at_review : List String → SubsetRunError
  stage_errored : String → Option ErrorMessage → SubsetRunError
  did_not_complete : RunStatus → SubsetRunError

abbrev pub run_graph : StageInGraph WorkflowStage
run_graph = record { id = λ ws. ws.stage.id; input_ids = λ ws. ws.stage.inputs }

unfoldable pub create_run_manifest : {Usage : Type 0} → List WorkflowStage → RunManifest Usage
create_run_manifest ordered = record {
  status = RunStatus.running;
  stage_records = map (λ ws. record_with_status ws.stage StageStatus.pending) ordered;
  human_review_queue_stats = [];
  dropped_columns = [];
  halted_at = none;
  cancelled_at = none;
}

abbrev pub errored : {Usage : Type 0} → StageRecord Usage → SubsetRunError
errored r = stage_errored r.stage_id (elim r.error [ some e ↦ some e.message | none ↦ none ])

unfoldable pub raise_if_run_failed :
    {Usage : Type 0} → RunManifest Usage → Result {0, 0} SubsetRunError Unit
raise_if_run_failed m = elim m.status [
  | RunStatus.ok ↦ ok tt
  | RunStatus.warnings ↦ ok tt
  | RunStatus.awaiting_review ↦
      err (halted_at_review (elim m.halted_at [ some ids ↦ ids | none ↦ [] ]))
  | status ↦ (elim (find (λ r. is_error r.status) m.stage_records) [
    | some r ↦ err (errored r)
    | none ↦ err (did_not_complete status)
  ])
]

-- `by_id[sid]` of each id, all of which are keys.
abbrev pub pick : List (String × WorkflowStage) → List String → List WorkflowStage
pick by_id = flat_map (λ sid. elim (lookup sid by_id) [ some ws ↦ ws ∷ [] | none ↦ [] ])

module _ {Row Usage World : Type 0} (runtime : Runtime Row Usage World) (ctx : RunContext) where
  -- The run of the stages in the order of the sort, where it found one.
  unfoldable pub run_sorted :
      Inputs Row
      → World
      → Result SortError (List WorkflowStage)
      → Result SubsetRunError (Inputs Row × Progress Row Usage World)
  unfolding create_run_manifest run_ordered_stages raise_if_run_failed
  run_sorted injected_outputs world (err e) = err (sort_raised e)
  run_sorted injected_outputs world (ok ordered) =
      let (manifest, p) =
        run_ordered_stages runtime ctx ordered (create_run_manifest ordered) injected_outputs
          world in
      raise_if_run_failed manifest >>= λ _. ok (p.outputs_so_far, p)

  -- The outputs, with the loop's last state, which holds what was written.
  unfoldable pub execute_subset :
      List WorkflowStage
      → Inputs Row
      → List String
      → World
      → Result SubsetRunError (Inputs Row × Progress Row Usage World)
  unfolding topological_sort run_sorted
  execute_subset workflow_stages injected_outputs stage_ids world =
      let by_id = index run_graph workflow_stages in
      let missing = filter (λ sid. not (contains (keys by_id) sid)) stage_ids in
      if not (is_empty missing)
      then err (names_no_stage missing)
      else run_sorted injected_outputs world (topological_sort run_graph (pick by_id stage_ids))
