-- ===== src/Executor/Gather.antt =====
-- app/runtime/executor.py: `_gather_stage_inputs`.
use carbonpaper.Prelude.{
  String, some, none, List, [], ◌∷◌, ◌++◌, lookup, insert, string_eq, nat_eq, Result, ok, err,
}
use carbonpaper.Signature.{WorkflowStageInput}
use carbonpaper.Workflow.Resolve.{WorkflowStage}
use carbonpaper.Executor.Records.{from_input}
use carbonpaper.Executor.Window.{RowWindow, resolve_row_window, take_row_window}
use carbonpaper.Executor.Runtime.{RunContext, Raised, Inputs, Runtime, StageRun, raise}

abbrev append_text : String → String → String
append_text String.[] t = t
append_text (String.◌∷◌ c s) t = String.◌∷◌ c (append_text s t)

module _ {Row Usage World : Type 0} (runtime : Runtime Row Usage World) (ctx : RunContext)
    (ws : WorkflowStage) where
  -- The loop of `_gather_stage_inputs`, with the tables gathered so far.
  unfoldable pub gather_from :
      RowWindow
      → List WorkflowStageInput
      → Inputs Row
      → StageRun Row Usage World
      → Result Raised (Inputs Row) × StageRun Row Usage World
  unfolding take_row_window
  gather_from window [] inputs run = (ok inputs, run)
  gather_from window (ref ∷ refs) inputs run = elim (lookup ref.id run.outputs_so_far) [
    | none ↦ (
      err (
          raise "RuntimeError"
            (append_text "Upstream stage '" (append_text ref.id "' has no output yet"))),
      run,
    )
    | some upstream ↦
        let (table, r) = take_row_window upstream window (from_input ref.id) run.stage_record in
        let phase = append_text "input:" ref.id in
        let report = runtime.validate_table table (some ref.table_schema) ws.stage.id phase in
        gather_from window refs (insert ref.id table inputs) (record run {
          stage_record = record r {
            input_validation_report = r.input_validation_report ++ report ∷ [];
          };
        })
  ]

  unfoldable pub gather_stage_inputs :
      StageRun Row Usage World → Result Raised (Inputs Row) × StageRun Row Usage World
  unfolding gather_from resolve_row_window
  gather_stage_inputs = gather_from (resolve_row_window ws ctx.params) ws.inputs []
