-- ===== src/Executor/StageRun.antt =====
-- app/runtime/executor.py: `_run_stage`.
pub mod Outcome
pub mod Ended
use carbonpaper.Prelude.{Option, Bool, true, false, some, none, string_eq, nat_eq, Result, ok, err}
use carbonpaper.Stage.{type_of}
use carbonpaper.Workflow.Resolve.{WorkflowStage}
use carbonpaper.Executor.Status.{StageStatus}
use carbonpaper.Executor.Records.{exception_text, AwaitingReview, StageRecord}
use carbonpaper.Executor.Runtime.{
  RunContext, Raised, Handled, run_cancelled, raised, returned, Inputs, Runtime, StageRun,
  StageOutcome, ran, halted, cancelled, raise,
}
use carbonpaper.Executor.Gather.{gather_stage_inputs}
use carbonpaper.Executor.Finalize.{finalize_stage_output, merge_stage_contribution}

unfoldable pub record_halt :
    {Usage : Type 0} → StageRecord Usage → AwaitingReview → StageRecord Usage
record_halt r halt = record r {
  status = StageStatus.awaiting_review;
  output_row_count = halt.pending_count;
  queue_path = some halt.queue_path;
}

unfoldable pub record_stage_error :
    {Usage : Type 0} → StageRecord Usage → Raised → StageRecord Usage
record_stage_error r exc = record r {
  status = StageStatus.error;
  error = some (record {
    type = exc.type;
    message = exception_text exc.message;
    traceback = some exc.traceback;
  });
}

module _ {Row Usage World : Type 0} (runtime : Runtime Row Usage World) (ctx : RunContext)
    (ws : WorkflowStage) where
  abbrev pub finished :
      Result Raised Bool × StageRun Row Usage World
      → Result Raised (StageOutcome × Bool) × StageRun Row Usage World
  finished (err exc, run) = (err exc, run)
  finished (ok joins, run) = (ok (ran, joins), run)

  -- The call of the handler that ends in `RunCancelled`, in another exception, in rows that await
  -- review, or in an output.
  unfoldable pub after_handler :
      Inputs Row
      → Handled Row Usage
      → StageRun Row Usage World
      → Result Raised (StageOutcome × Bool) × StageRun Row Usage World
  unfolding finalize_stage_output merge_stage_contribution record_halt
  after_handler inputs run_cancelled run = (
    ok (cancelled, false),
    record run { stage_record = record run.stage_record { status = StageStatus.cancelled } },
  )
  after_handler inputs (raised exc) run = (err exc, run)
  after_handler inputs (returned none) run =
      finished (finalize_stage_output runtime ctx ws none inputs run)
  after_handler inputs (returned (some output)) run = elim output.awaiting_review [
    | some halt ↦
        let merged : StageRun Row Usage World =
          merge_stage_contribution output.contribution ws.stage.id run in
        (ok (halted, true), record merged { stage_record = record_halt merged.stage_record halt })
    | none ↦ finished (finalize_stage_output runtime ctx ws (some output) inputs run)
  ]

  -- The text of the exception leaves out the stage type.
  abbrev pub handled_by :
      Option (WorkflowStage → Inputs Row → World → Handled Row Usage × World)
      → Inputs Row
      → StageRun Row Usage World
      → Result Raised (StageOutcome × Bool) × StageRun Row Usage World
  handled_by none inputs run = (err (raise "ValueError" "No handler for stage type"), run)
  handled_by (some execute) inputs run =
      let (handled, world) = execute ws inputs run.world in
      after_handler inputs handled (record run { world = world })

  abbrev pub with_inputs :
      Result Raised (Inputs Row) × StageRun Row Usage World
      → Result Raised (StageOutcome × Bool) × StageRun Row Usage World
  with_inputs (err exc, run) = (err exc, run)
  with_inputs (ok inputs, run) = handled_by (runtime.handlers (type_of ws.stage)) inputs run

  unfoldable pub try_stage :
      StageRun Row Usage World → Result Raised (StageOutcome × Bool) × StageRun Row Usage World
  unfolding gather_stage_inputs after_handler
  try_stage run = with_inputs (gather_stage_inputs runtime ctx ws run)

  -- Any exception is recorded, and the stage then blocks those behind it.
  abbrev pub caught :
      Result Raised (StageOutcome × Bool) × StageRun Row Usage World
      → (StageOutcome × Bool) × StageRun Row Usage World
  caught (ok outcome, run) = (outcome, run)
  caught (err exc, run) =
      ((ran, true), record run { stage_record = record_stage_error run.stage_record exc })

  -- `_run_stage` from the record with status RUNNING.
  unfoldable pub run_stage :
      StageRun Row Usage World → (StageOutcome × Bool) × StageRun Row Usage World
  unfolding try_stage record_stage_error
  run_stage run = caught (try_stage run)
