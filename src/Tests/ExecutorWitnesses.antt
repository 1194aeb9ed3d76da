-- ===== src/Tests/ExecutorWitnesses.antt =====
-- Runs of the sample stages over rows that are numbers, and the theorems on them.
use carbonpaper.Prelude.{
  ℕ, ◌+◌, ◌≡◌, refl, String, true, false, some, none, List, [], ◌∷◌, map, lookup, string_eq, ◌⊎◌,
  is_none, pos, All, keys, length, get_elem?, ok, err,
}
use carbonpaper.Stage.{Stage, type_of}
use carbonpaper.Stage.Kind.{StageType, is_grain_and_order_preserving}
use carbonpaper.Workflow.Checks.{stage_graph}
use carbonpaper.Workflow.Cycle.{detect_cycle}
use carbonpaper.Workflow.Resolve.{WorkflowStage}
use carbonpaper.Executor.Status.{StageStatus, RunStatus}
use carbonpaper.Executor.Records.{
  Table, StageOutput, empty_contribution, from_input, record_with_status, RunManifest,
}
use carbonpaper.Executor.Runtime.{RunContext, Handled, returned, raised, Inputs, Runtime, StageRun}
use carbonpaper.Executor.Topological.{index, topological_sort, cycle_detected}
use carbonpaper.Executor.Topological.Sorted.{topological_sort_cases}
use carbonpaper.Executor.Topological.Index.{IsOrder}
use carbonpaper.Executor.Topological.Acyclic.{topological_sort_total}
use carbonpaper.Executor.Window.{RowWindow, take_row_window, stage_row_lineage}
use carbonpaper.Executor.Window.Read.{Names, read, stage_row_lineage-Names}
use carbonpaper.Executor.StageRun.{run_stage}
use carbonpaper.Executor.StageRun.Ended.{run_stage-Ended}
use carbonpaper.Executor.StageRun.Outcome.{Ended}
use carbonpaper.Executor.Loop.{run_ordered_stages}
use carbonpaper.Executor.Progress.{Progress}
use carbonpaper.Executor.Loop.Final.{
  is_complete, Finished, Cancelled, Produced, run_ordered_stages_cases, run_ordered_stages-Produced,
}
use carbonpaper.Executor.Subset.{create_run_manifest, execute_subset}
use carbonpaper.Executor.Subset.Complete.{execute_subset_complete}
use carbonpaper.Executor.Loop.Between.{InOrder}
use carbonpaper.Workflow.Graph.{edges_of}
use carbonpaper.Workflow.Cycle.Kept.{IsCycle}
use carbonpaper.Tests.Samples.{cyclic_stages, source, spelled, sorted, stages, people, people_input}

abbrev resolved : List WorkflowStage
resolved =
    record { stage = source; inputs = []; output_schema = some people }
    ∷ record { stage = spelled; inputs = people_input ∷ []; output_schema = some people }
    ∷ record {
      stage = sorted;
      inputs = record { id = "spelled"; table_schema = people } ∷ [];
      output_schema = some people;
    }
    ∷ []

abbrev made : List ℕ → Handled ℕ ℕ
made rows = returned (
    some (record {
      table = record { column_names = "age" ∷ "city" ∷ []; rows = rows };
      contribution = empty_contribution;
      lineage = none;
      branches = none;
      awaiting_review = none;
    }))

abbrev read_rows_of : String → Inputs ℕ → List ℕ
read_rows_of id inputs = elim (lookup id inputs) [ some t ↦ t.rows | none ↦ [] ]

abbrev Execute : Type 0
Execute = WorkflowStage → Inputs ℕ → ℕ → Handled ℕ ℕ × ℕ

-- The world counts the writes. The row function is a parameter.
abbrev counting : Execute → Runtime ℕ ℕ ℕ
counting row_function = record {
  consume_cancel = λ identity world. (false, world);
  handlers = λ t. elim t [
    | StageType.input_data ↦ some (λ ws inputs world. (made (5 ∷ 6 ∷ 7 ∷ []), world))
    | StageType.python_row_function ↦ some row_function
    | StageType.sort_rank ↦ some (λ ws inputs world. (made (read_rows_of "spelled" inputs), world))
    | _ ↦ none
  ];
  validate_table =
      λ table schema sid phase. record { stage_id = sid; phase = phase; rows = 3; issues = [] };
  find_key_coverage_issues = λ ws inputs. [];
  find_workflow_output_issues = λ ws table. [];
  write_lineage_table = λ sid lineage branches world. ok (world + 1);
  write_output = λ table sid world. ok (record { path = sid; parquet_error = none }, world + 1);
  save_workflow_outputs = λ ws table identity world. ok world;
}

abbrev succeeding : Runtime ℕ ℕ ℕ
succeeding =
    counting (λ ws inputs world. (made (map (λ n. n + 1) (read_rows_of "people" inputs)), world))

abbrev failing : Runtime ℕ ℕ ℕ
failing = counting (λ ws inputs world.
    (raised (record { type = "ValueError"; message = "no age"; traceback = "" }), world))

abbrev unwindowed : RunContext
unwindowed = record { identity = none; params = record { limits = []; offsets = [] } }

abbrev from_second : RunContext
from_second = record {
  identity = none;
  params = record { limits = ("spelled", pos 2) ∷ []; offsets = ("spelled", pos 1) ∷ [] };
}

abbrev run_of : Runtime ℕ ℕ ℕ → RunContext → RunManifest ℕ × Progress ℕ ℕ ℕ
run_of runtime ctx = run_ordered_stages runtime ctx resolved (create_run_manifest resolved) [] 0

-- What fails keeps the stage behind it from running.
failing_statuses :
    map (λ r. r.status) (run_of failing unwindowed).0.stage_records
    ≡ StageStatus.ok ∷ StageStatus.error ∷ StageStatus.pending ∷ []
unfolding run_ordered_stages create_run_manifest
failing_statuses = refl

failing_run : (run_of failing unwindowed).0.status ≡ RunStatus.errors
unfolding run_ordered_stages create_run_manifest
failing_run = refl

-- The window of a stage is cut from what it reads.
windowed_rows :
    map (λ o. o.1.rows) (run_of succeeding from_second).1.outputs_so_far
    ≡ (5 ∷ 6 ∷ 7 ∷ []) ∷ (7 ∷ 8 ∷ []) ∷ (7 ∷ 8 ∷ []) ∷ []
unfolding run_ordered_stages create_run_manifest
windowed_rows = refl

detect_cycle-stages : detect_cycle stage_graph stages ≡ []
unfolding detect_cycle
detect_cycle-stages = refl

topological_sort_total_example :
    (ordered : List Stage) × (topological_sort stage_graph stages ≡ ok ordered)
    × IsOrder stage_graph stages ordered
topological_sort_total_example = topological_sort_total stage_graph stages detect_cycle-stages

-- Two stages that read each other: the sort meets the first of them again.
sort_cycle :
    topological_sort stage_graph cyclic_stages ≡ err (cycle_detected ("p" ∷ "q" ∷ "p" ∷ []))
unfolding topological_sort
sort_cycle = refl

topological_sort_cases_example :
    ((ordered : List Stage) × (topological_sort stage_graph cyclic_stages ≡ ok ordered)
      × IsOrder stage_graph cyclic_stages ordered)
    ⊎ ((trail : List String) × (topological_sort stage_graph cyclic_stages
          ≡ err (cycle_detected trail))
        × IsCycle
            (edges_of stage_graph cyclic_stages)
            (keys (index stage_graph cyclic_stages))
            trail)
topological_sort_cases_example = topological_sort_cases stage_graph cyclic_stages

resolved-InOrder : InOrder resolved
resolved-InOrder = (tt, (refl, ((refl, tt), (refl, ((refl, tt), (refl, tt))))))

run_ordered_stages_cases_example :
    Finished failing unwindowed resolved (create_run_manifest resolved) [] 0
    ⊎ Cancelled failing unwindowed resolved (create_run_manifest resolved) [] 0
run_ordered_stages_cases_example =
    run_ordered_stages_cases failing unwindowed resolved (create_run_manifest resolved) [] 0
      resolved-InOrder

complete_run : is_complete (run_of succeeding from_second).0.status ≡ true
unfolding run_ordered_stages create_run_manifest
complete_run = refl

run_ordered_stages-Produced_example :
    All (Produced succeeding from_second resolved (create_run_manifest resolved) [] 0) resolved
run_ordered_stages-Produced_example =
    run_ordered_stages-Produced succeeding from_second resolved (create_run_manifest resolved) [] 0
      resolved-InOrder complete_run

abbrev spelled_stage : WorkflowStage
spelled_stage = record { stage = spelled; inputs = people_input ∷ []; output_schema = some people }

abbrev three_rows : Table ℕ
three_rows = record { column_names = "age" ∷ []; rows = 5 ∷ 6 ∷ 7 ∷ [] }

abbrev started : StageRun ℕ ℕ ℕ
started = record {
  stage_record = record_with_status spelled StageStatus.running;
  manifest = create_run_manifest resolved;
  outputs_so_far = ("people", three_rows) ∷ [];
  world = 0;
}

run_stage-Ended_example :
    Ended "spelled"
      (("people", three_rows) ∷ [])
      (run_stage failing unwindowed spelled_stage started)
run_stage-Ended_example =
    run_stage-Ended failing unwindowed spelled_stage (("people", three_rows) ∷ []) started
      (λ i n. refl)

abbrev two_rows : StageOutput ℕ ℕ
two_rows = record {
  table = record { column_names = "age" ∷ []; rows = 7 ∷ 8 ∷ [] };
  contribution = empty_contribution;
  lineage = none;
  branches = none;
  awaiting_review = none;
}

abbrev second_and_third : RowWindow
second_and_third = record { start = 1; cap = some 2 }

preserving : is_grain_and_order_preserving (type_of spelled) ≡ true
unfolding is_grain_and_order_preserving
preserving = refl

abbrev cut : Table ℕ
cut =
    read spelled_stage people_input three_rows second_and_third (from_input "people")
      started.stage_record

two_read : length two_rows.table.rows ≡ length cut.rows
unfolding take_row_window
two_read = refl

last_read : get_elem? cut.rows 1 ≡ some 7
unfolding take_row_window
last_read = refl

stage_row_lineage-Names_example :
    Names "people" three_rows.rows 1 7
      (stage_row_lineage spelled_stage two_rows [] second_and_third)
stage_row_lineage-Names_example =
    stage_row_lineage-Names spelled_stage people_input three_rows second_and_third
      (from_input "people") started.stage_record two_rows [] 1 7 refl preserving refl two_read
      last_read

abbrev of_two : List WorkflowStage
of_two = record { stage = source; inputs = []; output_schema = some people } ∷ spelled_stage ∷ []

abbrev subset_run : Progress ℕ ℕ ℕ
subset_run = (run_ordered_stages succeeding unwindowed of_two (create_run_manifest of_two) [] 0).1

answered :
    execute_subset succeeding unwindowed resolved [] ("spelled" ∷ "people" ∷ []) 0
    ≡ ok (subset_run.outputs_so_far, subset_run)
unfolding execute_subset
answered = refl

execute_subset_complete_example : is_none (lookup "spelled" subset_run.outputs_so_far) ≡ false
execute_subset_complete_example =
    execute_subset_complete succeeding unwindowed resolved [] ("spelled" ∷ "people" ∷ []) 0
      subset_run.outputs_so_far subset_run (refl, (refl, (refl, tt))) answered "spelled" refl
