-- ===== src/Workflow/Checks.antt =====
-- app/models/workflow.py: the structural checks on the stages of a workflow.
use carbonpaper.Prelude.{
  String, not, List, ◌++◌, map, filter, flat_map, count, contains, string_eq, nat_eq, dict_of, keys,
  ltb,
}
use carbonpaper.Signature.{SignatureIssue}
use carbonpaper.Stage.{Stage, type_of}
use carbonpaper.Stage.Kind.{is_report}
use carbonpaper.Workflow.Cycle.{detect_cycle}
use carbonpaper.Workflow.Graph.{StageInGraph, ids}

-- The issue strings, by what they name. `HookIssue` are the issues of a stage type's own checks.
pub data GraphIssue (HookIssue : Type 0) : Type 0 where
  duplicate_stage_id : String → GraphIssue HookIssue
  cycle_detected : List String → GraphIssue HookIssue
  input_references_no_stage : (stage input : String) → GraphIssue HookIssue
  input_is_a_report : (stage input : String) → GraphIssue HookIssue
  signature_issue : SignatureIssue → GraphIssue HookIssue
  hook_issue : HookIssue → GraphIssue HookIssue
  row_types_disagree :
      (stage input row_type reference reference_row_type : String) → GraphIssue HookIssue

abbrev pub stage_graph : StageInGraph Stage
stage_graph = record { id = λ s. s.id; input_ids = λ s. s.inputs }

module _ {S : Type 0} (graph : StageInGraph S) where
  -- The ids that stand more than once: a set, which the source sorts for the message.
  unfoldable pub duplicate_ids : List S → List String
  duplicate_ids stages =
      let all_ids = ids graph stages in
      keys (dict_of (map (λ i. (i, i)) (filter (λ i. ltb 1 (count i all_ids)) all_ids)))

module _ {I : Type 0} where
  unfoldable pub validate_unique_ids : List Stage → List (GraphIssue I)
  unfolding duplicate_ids
  validate_unique_ids stages = map duplicate_stage_id (duplicate_ids stage_graph stages)

  abbrev unresolved : List String → Stage → List (GraphIssue I)
  unresolved known s =
      map (input_references_no_stage s.id) (filter (λ i. not (contains known i)) s.inputs)

  unfoldable pub validate_inputs_resolve : List Stage → List (GraphIssue I)
  validate_inputs_resolve stages = flat_map (unresolved (ids stage_graph stages)) stages

  abbrev reads_report : List String → Stage → List (GraphIssue I)
  reads_report report_ids s = map (input_is_a_report s.id) (filter (contains report_ids) s.inputs)

  unfoldable pub validate_report_is_terminal : List Stage → List (GraphIssue I)
  validate_report_is_terminal stages =
      let report_ids = ids stage_graph (filter (λ s. is_report (type_of s)) stages) in
      flat_map (reads_report report_ids) stages

  unfoldable pub structural_issues : List Stage → List (GraphIssue I)
  unfolding validate_unique_ids validate_inputs_resolve validate_report_is_terminal
  structural_issues stages =
      validate_unique_ids stages
      ++ (map cycle_detected (detect_cycle stage_graph stages)
          ++ (validate_inputs_resolve stages ++ validate_report_is_terminal stages))
