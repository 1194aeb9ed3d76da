-- ===== src/Tests/Witnesses.antt =====
-- Each theorem at the sample stages and schemas.
use carbonpaper.Prelude.{
  ◌≡◌, ◌≢◌, ◌⊎◌, ◌↔◌, refl, String, true, some, none, List, [], ◌∷◌, ◌++◌, map, find, ok, ◌==◌,
  string_eq, lookup, is_unique, All, contains, keys, if◌then◌else◌, Perm,
}
use carbonpaper.Schema.Column.{Column, name}
use carbonpaper.Schema.Extend.{extend_iff, extend-column_for_name}
use carbonpaper.Schema.Spec.{column_spec_differences, index_by_name, has_name}
use carbonpaper.Schema.Supply.{IsSuppliedBy, find_unsatisfied_columns-nil_iff}
use carbonpaper.Schema.Table.{
  TableSchema, differing_column_names, extend, column_for_name, find_unsatisfied_columns,
  compatible,
}
use carbonpaper.Stage.{Stage, type_of}
use carbonpaper.Stage.Kind.{declares_its_own_row_type}
use carbonpaper.Stage.RowType.{no_kind_row_type_id, resolve_own_row_type_id, find_row_type_issues}
use carbonpaper.Stage.RowTypeIssues.{find_row_type_issues-nil_iff}
use carbonpaper.Workflow.Checks.{stage_graph}
use carbonpaper.Workflow.Cycle.{detect_cycle}
use carbonpaper.Workflow.Cycle.Kept.{IsCycle, Ranked}
use carbonpaper.Workflow.Cycle.Correct.{detect_cycle_cases}
use carbonpaper.Workflow.Graph.{edges_of, ids}
use carbonpaper.Workflow.Order.{sort_stages_by_dependency}
use carbonpaper.Workflow.Order.Perm.{sort-perm}
use carbonpaper.Workflow.Order.Placed.{Placed, sort-Placed}
use carbonpaper.Workflow.Order.Total.{sort_total}
use carbonpaper.Workflow.Resolve.{
  WorkflowStage, resolve_workflow_stages, graph_issues, find_resolution_issues, find_issues_from,
  find_workflow_stage_issues, resolve_inputs,
}
use carbonpaper.Workflow.Found.{IsResolved, IsFedFrom}
use carbonpaper.Workflow.Resolved.{resolve_workflow_stages-ok}
use carbonpaper.Stage.RowType.{list_row_supplying_input_ids}
use carbonpaper.Workflow.RowTypes.{find_disagreeing_input_row_types, read_inherited_row_type_id}
use carbonpaper.Workflow.Inherited.{read_inherited_row_type_id-agreed}
use carbonpaper.Stage.Blocks.{DedupeKeep}
use carbonpaper.StageChecks.Dedupe.{by_matches_keep, is_nullable, find_dedupe_column_issues}
use carbonpaper.StageChecks.DedupeDecided.{find_dedupe_column_issues-decided}
use carbonpaper.StageChecks.Union.{find_union_column_issues}
use carbonpaper.StageChecks.UnionAgrees.{find_union_column_issues-agrees}
use carbonpaper.Tests.Samples.{oldest_per_city, people_input}
use carbonpaper.Prelude.{◌||◌}
use carbonpaper.Workflow.Form.{form_workflow, find_workflow_stage}
use carbonpaper.Workflow.Formed.{find_workflow_stage-formed}
use carbonpaper.Workflow.Raised.{key_error}
use carbonpaper.Prelude.{err, Option, false}
use carbonpaper.Tests.Samples.{spelled}
use carbonpaper.Workflow.RowTypes.{find_row_type_disagreements, resolve_row_type_ids}
use carbonpaper.Signature.{find_signature_issues, promised_output_schema}
use carbonpaper.Workflow.Checks.{structural_issues}
use carbonpaper.Tests.Samples.{
  people, ranked_people, age_text, rank, source, stages, ordered_stages, cyclic_stages, no_hooks,
}

stages-sorted : sort_stages_by_dependency stage_graph stages ≡ ok ordered_stages
unfolding sort_stages_by_dependency
stages-sorted = refl

stages-acyclic : detect_cycle stage_graph stages ≡ []
unfolding detect_cycle
stages-acyclic = refl

stages-clean : graph_issues no_hooks stages ≡ ok []
unfolding graph_issues find_resolution_issues find_issues_from find_workflow_stage_issues
    resolve_inputs structural_issues find_row_type_disagreements resolve_row_type_ids detect_cycle
    sort_stages_by_dependency find_signature_issues promised_output_schema extend
    find_unsatisfied_columns column_spec_differences
stages-clean = refl

resolve_workflow_stages-ok_example :
    (ws : List WorkflowStage) × (resolve_workflow_stages stages ≡ ok ws)
    × (map (λ w. w.stage) ws ≡ stages)
    × All (λ w. IsResolved w × IsFedFrom ws w) ws
resolve_workflow_stages-ok_example = resolve_workflow_stages-ok no_hooks stages stages-clean

sort_total_example :
    (ordered : List Stage) × (sort_stages_by_dependency stage_graph stages ≡ ok ordered)
sort_total_example = sort_total stage_graph stages refl stages-acyclic

detect_cycle_cases_example :
    ((trail : List String) × (detect_cycle stage_graph cyclic_stages ≡ trail ∷ [])
      × IsCycle
          (edges_of stage_graph cyclic_stages)
          (keys (edges_of stage_graph cyclic_stages))
          trail)
    ⊎ ((order : List String) × (detect_cycle stage_graph cyclic_stages ≡ [])
        × Ranked
            (edges_of stage_graph cyclic_stages)
            (keys (edges_of stage_graph cyclic_stages))
            order
        × All
            (λ n.
              contains (keys (edges_of stage_graph cyclic_stages)) n ≡ true
              → contains order n ≡ true)
            (keys (edges_of stage_graph cyclic_stages)))
detect_cycle_cases_example = detect_cycle_cases stage_graph cyclic_stages

sort-Placed_example : Placed stage_graph (ids stage_graph stages) [] ordered_stages
sort-Placed_example = sort-Placed stage_graph stages ordered_stages stages-sorted

sort-perm_example : Perm ordered_stages stages
sort-perm_example = sort-perm stage_graph stages ordered_stages refl stages-sorted

people-extended : extend people (age_text ∷ []) (rank ∷ []) ≡ ok ranked_people
unfolding extend
people-extended = refl

extend_iff_example :
    ((t : TableSchema) × (extend people (age_text ∷ []) (rank ∷ []) ≡ ok t))
    ↔ (is_unique (map name people.columns ++ map name (rank ∷ [])) ≡ true)
extend_iff_example = extend_iff people (age_text ∷ []) (rank ∷ [])

extend-column_for_name_example : column_for_name ranked_people "age" ≡ (
    if has_name "age" people.columns
    then (elim (lookup "age" (index_by_name (age_text ∷ []))) [
      | some w ↦ some w
      | none ↦ column_for_name people "age"
    ])
    else find (λ c. name c == "age") (rank ∷ []))
extend-column_for_name_example =
    extend-column_for_name people ranked_people (age_text ∷ []) (rank ∷ []) "age" people-extended

find_unsatisfied_columns-nil_iff_example :
    (find_unsatisfied_columns people ranked_people compatible ≡ [])
    ↔ All
        (λ r.
          (d : Column) × (lookup (name r) (index_by_name ranked_people.columns) ≡ some d)
          × IsSuppliedBy r d)
        people.columns
find_unsatisfied_columns-nil_iff_example = find_unsatisfied_columns-nil_iff people ranked_people

find_row_type_issues-nil_iff_example : (find_row_type_issues source ≡ []) ↔ (
    (source.row_type_id ≡ none)
    ⊎ ((w : String) × (source.row_type_id ≡ some w)
        × (w ≢ no_kind_row_type_id)
        × (declares_its_own_row_type (type_of source) ≡ true)
        × (resolve_own_row_type_id source ≡ some w)))
find_row_type_issues-nil_iff_example = find_row_type_issues-nil_iff source

people-agree :
    find_disagreeing_input_row_types {I = String} spelled (("people", some "person") ∷ []) ≡ ok []
unfolding find_disagreeing_input_row_types
people-agree = refl

read_inherited_row_type_id-agreed_example :
    (answer : Option String) × (read_inherited_row_type_id spelled (("people", some "person") ∷ [])
      ≡ ok answer)
    × ((i w : String)
        → contains (list_row_supplying_input_ids spelled) i ≡ true
        → lookup i (("people", some "person") ∷ []) ≡ some (some w)
        → answer ≡ some w)
read_inherited_row_type_id-agreed_example =
    read_inherited_row_type_id-agreed spelled (("people", some "person") ∷ []) people-agree

stages-formed : form_workflow no_hooks stages ≡ ok (record { stages = stages })
unfolding form_workflow
stages-formed = rw stages-clean refl

find_workflow_stage-formed_example :
    (contains (ids stage_graph stages) "spelled" ≡ true
      → (s : WorkflowStage) × (find_workflow_stage (record { stages = stages }) "spelled" ≡ ok s)
        × (s.stage.id ≡ "spelled"))
    × (contains (ids stage_graph stages) "spelled" ≡ false
        → find_workflow_stage (record { stages = stages }) "spelled" ≡ err (key_error "spelled"))
find_workflow_stage-formed_example =
    find_workflow_stage-formed no_hooks stages (record { stages = stages }) "spelled" stages-formed

oldest-accepted : by_matches_keep oldest_per_city ≡ none
unfolding by_matches_keep
oldest-accepted = refl

oldest-clean : find_dedupe_column_issues "oldest" oldest_per_city (people_input ∷ []) ≡ ok []
unfolding find_dedupe_column_issues
oldest-clean = refl

find_dedupe_column_issues-decided_example :
    All (λ k. contains (map name people.columns) k ≡ true) oldest_per_city.keys
    × ((oldest_per_city.keep ≡ DedupeKeep.highest) ⊎ (oldest_per_city.keep ≡ DedupeKeep.lowest)
        → (b : String) × (oldest_per_city.by ≡ some b)
          × (contains (map name people.columns) b ≡ true)
          × (is_nullable people.columns b ≡ false))
find_dedupe_column_issues-decided_example =
    find_dedupe_column_issues-decided "oldest" oldest_per_city people_input [] oldest-accepted
      oldest-clean

union-clean : find_union_column_issues "both" (people_input ∷ people_input ∷ []) ≡ ok []
unfolding find_union_column_issues differing_column_names column_spec_differences
union-clean = refl

find_union_column_issues-agrees_example :
    All
      (λ r.
        (n : String)
        → (has_name n r.table_schema.columns || has_name n people.columns) ≡ true
        → (c d : Column) × (lookup n (index_by_name r.table_schema.columns) ≡ some c)
          × (lookup n (index_by_name people.columns) ≡ some d)
          × (column_spec_differences c d ≡ []))
      (people_input ∷ [])
find_union_column_issues-agrees_example =
    find_union_column_issues-agrees "both" people_input (people_input ∷ []) union-clean
