-- ===== src/Executor/StageRun/Ended.antt =====
-- How a stage's run ends: its record's status agrees with what the loop is told.
use carbonpaper.Prelude.{
  ◌≡◌, refl, ◌∙◌, ap, Bool, true, false, Option, some, none, List, [], ◌∷◌, lookup, lookup-insert,
  string_eq, beq_self, is_none, Result, ok, err, arith, Option-cases, inl, inr,
}
use carbonpaper.Signature.{WorkflowStageInput}
use carbonpaper.Stage.{type_of}
use carbonpaper.Workflow.Resolve.{WorkflowStage}
use carbonpaper.Executor.Status.{is_error}
use carbonpaper.Executor.Records.{
  ValidationReport, StageContribution, Table, StageOutput, AwaitingReview,
}
use carbonpaper.Executor.Runtime.{
  RunContext, RunIdentity, Raised, Handled, run_cancelled, raised, returned, Written, Inputs,
  Runtime, StageRun, StageOutcome,
}
use carbonpaper.Executor.Window.{RowWindow, resolve_row_window}
use carbonpaper.Executor.Gather.{gather_from, gather_stage_inputs}
use carbonpaper.Executor.Finalize.{
  settled_run, settle_output, merge_stage_contribution, finalize_stage_output, leave, saved,
  save_for, after_write, after_sidecar, given_output,
}
use carbonpaper.Executor.StageRun.{
  after_handler, try_stage, run_stage, record_stage_error, record_halt, finished, handled_by,
  with_inputs, caught,
}
use carbonpaper.Executor.StageRun.Outcome.{
  if-both, Elsewhere, insert-Elsewhere, settle_status-Decided, Finalized, Ended, Tried,
}

module _ {Row Usage World : Type 0} (runtime : Runtime Row Usage World) (ctx : RunContext)
    (ws : WorkflowStage) (before : Inputs Row) where
  saved-Finalized :
      (written : Written) (run : StageRun Row Usage World) (result : Result Raised World)
      → Finalized ws.stage.id before (leave runtime ctx ws written run)
      → Finalized ws.stage.id before (saved runtime ctx ws written run result)
  saved-Finalized written run (err exc) f = f.0
  saved-Finalized written run (ok world) f = f

  save_for-Finalized :
      (identity : Option RunIdentity) (table : Table Row) (written : Written)
      (run : StageRun Row Usage World)
      → Finalized ws.stage.id before (leave runtime ctx ws written run)
      → Finalized ws.stage.id before (save_for runtime ctx ws identity table written run)
  save_for-Finalized none table written run f = f
  save_for-Finalized (some identity) table written run f =
      saved-Finalized written run (runtime.save_workflow_outputs ws table identity run.world) f

  settle_output-Finalized :
      (c : StageContribution Usage) (report : ValidationReport) (table : Table Row)
      (written : Written) (run : StageRun Row Usage World)
      → Elsewhere ws.stage.id before run.outputs_so_far
      → is_none (lookup ws.stage.id run.outputs_so_far) ≡ false
      → Finalized ws.stage.id before (settle_output runtime ctx ws c report table written run)
  unfolding settle_output settled_run
  settle_output-Finalized c report table written run h k =
      let settled = settled_run runtime ctx ws c report table run in
      let here : Finalized ws.stage.id before (leave runtime ctx ws written settled) =
        (h, settle_status-Decided ws.stage.id c.row_errors report run.stage_record, k) in
      if-both (Finalized ws.stage.id before) (is_error settled.stage_record.status)
        (leave runtime ctx ws written settled)
        (save_for runtime ctx ws ctx.identity table written settled) here
        (save_for-Finalized ctx.identity table written settled here)

  after_write-Finalized :
      (c : StageContribution Usage) (report : ValidationReport) (table : Table Row)
      (run : StageRun Row Usage World) (result : Result Raised (Written × World))
      → Elsewhere ws.stage.id before run.outputs_so_far
      → Finalized ws.stage.id before (after_write runtime ctx ws c report table run result)
  after_write-Finalized c report table run (err exc) h = h
  after_write-Finalized c report table run (ok (written, world)) h =
      settle_output-Finalized c report table written _
        (insert-Elsewhere ws.stage.id table before run.outputs_so_far h)
        (ap is_none (lookup-insert ws.stage.id ws.stage.id table run.outputs_so_far)
          ∙ ground (arith, beq_self ws.stage.id))

  after_sidecar-Finalized :
      (c : StageContribution Usage) (inputs : Inputs Row) (table : Table Row)
      (run : StageRun Row Usage World) (result : Result Raised World)
      → Elsewhere ws.stage.id before run.outputs_so_far
      → Finalized ws.stage.id before (after_sidecar runtime ctx ws c inputs table run result)
  after_sidecar-Finalized c inputs table run (err exc) h = h
  after_sidecar-Finalized c inputs table run (ok world) h =
      after_write-Finalized c _ table _ (runtime.write_output table ws.stage.id world) h

  finalize-Tried :
      (output : Option (StageOutput Row Usage)) (inputs : Inputs Row)
      (run : StageRun Row Usage World)
      → Elsewhere ws.stage.id before run.outputs_so_far
      → Tried ws.stage.id before
          (finished runtime ctx ws (finalize_stage_output runtime ctx ws output inputs run))
  unfolding finalize_stage_output merge_stage_contribution
  finalize-Tried output inputs run h =
      of_Finalized (finalize_stage_output runtime ctx ws output inputs run)
        (after_sidecar-Finalized (given_output runtime ctx ws output).contribution inputs _ _ _ h)
    where
      of_Finalized :
          (r : Result Raised Bool × StageRun Row Usage World)
          → Finalized ws.stage.id before r
          → Tried ws.stage.id before (finished runtime ctx ws r)
      of_Finalized (err exc, run) f = f
      of_Finalized (ok true, run) f = (f.0, f.1)
      of_Finalized (ok false, run) f = f

  after_handler-Tried :
      (inputs : Inputs Row) (handled : Handled Row Usage) (run : StageRun Row Usage World)
      → Elsewhere ws.stage.id before run.outputs_so_far
      → Tried ws.stage.id before (after_handler runtime ctx ws inputs handled run)
  unfolding after_handler merge_stage_contribution record_halt
  after_handler-Tried inputs run_cancelled run h = (h, refl, refl)
  after_handler-Tried inputs (raised exc) run h = h
  after_handler-Tried inputs (returned none) run h = finalize-Tried none inputs run h
  after_handler-Tried inputs (returned (some output)) run h = by_review output.awaiting_review refl
    where
      by_review :
          (o : Option AwaitingReview)
          → output.awaiting_review ≡ o
          → Tried ws.stage.id before
              (after_handler runtime ctx ws inputs (returned (some output)) run)
      by_review none e = rw e (finalize-Tried (some output) inputs run h)
      by_review (some halt) e = rw e (h, refl, refl)

  gather_from-outputs :
      (window : RowWindow) (refs : List WorkflowStageInput) (inputs : Inputs Row)
      (run : StageRun Row Usage World)
      → (gather_from runtime ctx ws window refs inputs run).1.outputs_so_far ≡ run.outputs_so_far
  unfolding gather_from
  gather_from-outputs window [] inputs run = refl
  gather_from-outputs window (ref ∷ refs) inputs run =
      elim (Option-cases (lookup ref.id run.outputs_so_far)) [
        | inl e ↦ rw (gather_from, e) refl
        | inr (upstream, e) ↦ rw (gather_from, e) (gather_from-outputs window refs _ _)
      ]

  with_inputs-Tried :
      (gathered : Result Raised (Inputs Row) × StageRun Row Usage World)
      → Elsewhere ws.stage.id before gathered.1.outputs_so_far
      → Tried ws.stage.id before (with_inputs runtime ctx ws gathered)
  with_inputs-Tried (err exc, run) h = h
  with_inputs-Tried (ok inputs, run) h = by_handler (runtime.handlers (type_of ws.stage))
    where
      by_handler :
          (o : Option (WorkflowStage → Inputs Row → World → Handled Row Usage × World))
          → Tried ws.stage.id before (handled_by runtime ctx ws o inputs run)
      by_handler none = h
      by_handler (some execute) = after_handler-Tried inputs _ _ h

  caught-Ended :
      (r : Result Raised (StageOutcome × Bool) × StageRun Row Usage World)
      → Tried ws.stage.id before r
      → Ended ws.stage.id before (caught runtime ctx ws r)
  unfolding record_stage_error
  caught-Ended (ok outcome, run) t = t
  caught-Ended (err exc, run) t = (t, refl)

  -- However a stage's run ends, the outputs of the other stages stay; where it ran and does not
  -- block, its record says that it produced an output, which is there; where it blocks, its record
  -- says that it failed or awaits review; and where the run is cancelled, that it was cancelled.
  pub run_stage-Ended :
      (run : StageRun Row Usage World)
      → Elsewhere ws.stage.id before run.outputs_so_far
      → Ended ws.stage.id before (run_stage runtime ctx ws run)
  unfolding run_stage try_stage gather_stage_inputs
  run_stage-Ended run h = caught-Ended _ (
      with_inputs-Tried (gather_stage_inputs runtime ctx ws run) (λ i n.
        ap (lookup i) (gather_from-outputs (resolve_row_window ws ctx.params) ws.inputs [] run)
        ∙ h i n))
