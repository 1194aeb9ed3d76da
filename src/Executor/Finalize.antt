-- ===== src/Executor/Finalize.antt =====
-- app/runtime/executor.py: `_finalize_stage_output` and what it calls.
use carbonpaper.Prelude.{
  String, Bool, not, Option, some, none, List, [], ◌++◌, map, all, insert, string_eq, ◌==◌, nat_eq,
  length, is_empty, Result, ok, err, if◌then◌else◌,
}
use carbonpaper.Branches.Recorder.{RowBranches}
use carbonpaper.Lineage.Row.{RowLineage}
use carbonpaper.Workflow.Resolve.{WorkflowStage}
use carbonpaper.Executor.Status.{StageStatus, is_error}
use carbonpaper.Executor.Records.{
  ValidationReport, report_ok, RowError, loaded_from_the_source, note_text, wrote_csv,
  StageContribution, empty_contribution, Table, StageOutput, StageRecord, add_note,
  record_dropped_columns, record_human_review_queue_stats,
}
use carbonpaper.Executor.Window.{resolve_row_window, take_row_window, stage_row_lineage}
use carbonpaper.Executor.Issues.{
  find_undeclared_column_issues, find_dropped_column_issues, summarize_row_errors,
  summarize_output_schema_errors, row_error_issues,
}
use carbonpaper.Executor.Runtime.{
  RunContext, RunIdentity, Raised, Written, Inputs, Runtime, StageRun, raise,
}

abbrev if_given : {A B : Type 0} → Option A → (A → B → B) → B → B
if_given none f b = b
if_given (some a) f b = f a b

module _ {Row Usage World : Type 0} where
  -- It answers the row errors, which the caller has; this is what it does to the record and the
  -- manifest.
  unfoldable pub merge_stage_contribution :
      StageContribution Usage → String → StageRun Row Usage World → StageRun Row Usage World
  unfolding add_note
  merge_stage_contribution c sid run =
      let r = record run.stage_record { notes = run.stage_record.notes ++ map note_text c.notes } in
      let r1 = if_given c.llm_usage (λ u r. record r { llm_usage = some u }) r in
      let r2 = if_given c.cached_rows (λ n r. record r { cached_rows = some n }) r1 in
      let m =
        if is_empty c.dropped_columns
        then run.manifest
        else record_dropped_columns run.manifest sid c.dropped_columns in
      record run {
        stage_record = r2;
        manifest =
            if_given c.human_review_queue_stats
              (λ stats m. record_human_review_queue_stats m sid stats) m;
      }

module _ {Usage : Type 0} where
  abbrev pub note_fallback : Option String → StageRecord Usage → StageRecord Usage
  note_fallback none r = r
  note_fallback (some text) r = add_note r (wrote_csv text)

  -- The decision on the status, with the error that goes with it.
  unfoldable pub settle_status :
      String → List RowError → ValidationReport → StageRecord Usage → StageRecord Usage
  unfolding report_ok summarize_row_errors summarize_output_schema_errors
  settle_status sid row_errors report r =
      if not (is_empty row_errors)
      then record r { status = StageStatus.error; error = some (summarize_row_errors row_errors) }
      else if not (report_ok report)
      then record r {
        status = StageStatus.error;
        error = some (summarize_output_schema_errors sid report);
      }
      else record r {
        status =
            if all report_ok r.input_validation_report
            then StageStatus.ok
            else StageStatus.validation_warnings;
      }

module _ {Row Usage World : Type 0} (runtime : Runtime Row Usage World) (ctx : RunContext)
    (ws : WorkflowStage) where
  -- app/runtime/lineage_sidecar.py
  unfoldable pub write_lineage_sidecar :
      Option RowLineage → Option RowBranches → World → Result Raised World
  write_lineage_sidecar none none world = ok world
  write_lineage_sidecar (some lineage) (some branches) world =
      if not (length lineage == length branches)
      then err (raise "LineageSidecarLengthMismatch" ws.stage.id)
      else runtime.write_lineage_table ws.stage.id (some lineage) (some branches) world
  write_lineage_sidecar lineage branches world =
      runtime.write_lineage_table ws.stage.id lineage branches world

  abbrev pub no_output : StageOutput Row Usage
  no_output = record {
    table = record { column_names = []; rows = [] };
    contribution = empty_contribution;
    lineage = none;
    branches = none;
    awaiting_review = none;
  }

  abbrev pub given_output : Option (StageOutput Row Usage) → StageOutput Row Usage
  given_output none = no_output
  given_output (some output) = output

  -- A stage without inputs has its window taken on what it loaded.
  abbrev pub own_window : Table Row → StageRecord Usage → Table Row × StageRecord Usage
  own_window table r =
      if is_empty ws.inputs
      then take_row_window table (resolve_row_window ws ctx.params) loaded_from_the_source r
      else (table, r)

  -- The output's report, with the issues of every check in the order of the code.
  unfoldable pub report_output : Table Row → Inputs Row → StageContribution Usage → ValidationReport
  unfolding find_undeclared_column_issues find_dropped_column_issues row_error_issues
  report_output table inputs c =
      let report = runtime.validate_table table ws.output_schema ws.stage.id "output" in
      record report {
        issues =
            row_error_issues c.row_errors
            ++ (report.issues
                ++ (runtime.find_key_coverage_issues ws inputs
                    ++ (runtime.find_workflow_output_issues ws table
                        ++ (find_undeclared_column_issues ws table inputs
                            ++ find_dropped_column_issues c.dropped_columns))));
      }

  abbrev pub leave :
      Written → StageRun Row Usage World → Result Raised Bool × StageRun Row Usage World
  leave written run = (
    ok (is_error run.stage_record.status),
    record run { stage_record = record run.stage_record { output_path = some written.path } },
  )

  abbrev pub saved :
      Written
      → StageRun Row Usage World
      → Result Raised World
      → Result Raised Bool × StageRun Row Usage World
  saved written run (err exc) = (err exc, run)
  saved written run (ok world) = leave written (record run { world = world })

  abbrev pub save_for :
      Option RunIdentity
      → Table Row
      → Written
      → StageRun Row Usage World
      → Result Raised Bool × StageRun Row Usage World
  save_for none table written run = leave written run
  save_for (some identity) table written run =
      saved written run (runtime.save_workflow_outputs ws table identity run.world)

  -- The run with the status decided.
  unfoldable pub settled_run :
      StageContribution Usage
      → ValidationReport
      → Table Row
      → StageRun Row Usage World
      → StageRun Row Usage World
  unfolding settle_status
  settled_run c report table run = record run {
    stage_record = record (settle_status ws.stage.id c.row_errors report run.stage_record) {
      output_row_count = length table.rows;
    };
  }

  -- What is left of a finalization once its output is written: the status, the workflow outputs of
  -- a stage that did not fail, and whether it joins the blocked stages.
  unfoldable pub settle_output :
      StageContribution Usage
      → ValidationReport
      → Table Row
      → Written
      → StageRun Row Usage World
      → Result Raised Bool × StageRun Row Usage World
  unfolding settled_run
  settle_output c report table written run =
      let settled = settled_run c report table run in
      if is_error settled.stage_record.status
      then leave written settled
      else save_for ctx.identity table written settled

  abbrev pub after_write :
      StageContribution Usage
      → ValidationReport
      → Table Row
      → StageRun Row Usage World
      → Result Raised (Written × World)
      → Result Raised Bool × StageRun Row Usage World
  after_write c report table run (err exc) = (err exc, run)
  after_write c report table run (ok (written, world)) =
      settle_output c report table written (record run {
        stage_record = note_fallback written.parquet_error run.stage_record;
        outputs_so_far = insert ws.stage.id table run.outputs_so_far;
        world = world;
      })

  abbrev pub after_sidecar :
      StageContribution Usage
      → Inputs Row
      → Table Row
      → StageRun Row Usage World
      → Result Raised World
      → Result Raised Bool × StageRun Row Usage World
  after_sidecar c inputs table run (err exc) = (err exc, run)
  after_sidecar c inputs table run (ok world) =
      let report = report_output table inputs c in
      after_write c report table
        (record run {
          stage_record = record run.stage_record { output_validation_report = some report };
          world = world;
        })
        (runtime.write_output table ws.stage.id world)

  unfoldable pub finalize_stage_output :
      Option (StageOutput Row Usage)
      → Inputs Row
      → StageRun Row Usage World
      → Result Raised Bool × StageRun Row Usage World
  unfolding stage_row_lineage merge_stage_contribution write_lineage_sidecar report_output
      settle_output resolve_row_window
  finalize_stage_output returned_output inputs run =
      let output = given_output returned_output in
      let merged = merge_stage_contribution output.contribution ws.stage.id run in
      let lineage = stage_row_lineage ws output inputs (resolve_row_window ws ctx.params) in
      let (table, r) = own_window output.table merged.stage_record in
      after_sidecar output.contribution inputs table (record merged { stage_record = r })
        (write_lineage_sidecar lineage output.branches merged.world)
