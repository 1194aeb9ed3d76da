-- ===== src/Executor/Runtime.antt =====
-- app/runtime/executor.py: what `_run_stage` works on. The handlers, the checks of tables and the
-- writes are the operations of a `Runtime`, which a state of the world is passed through.
use carbonpaper.Prelude.{String, Bool, Option, List, string_eq, nat_eq, Result}
use carbonpaper.Branches.Recorder.{RowBranches}
use carbonpaper.Lineage.Row.{RowLineage}
use carbonpaper.Schema.Table.{TableSchema}
use carbonpaper.Stage.Kind.{StageType}
use carbonpaper.Workflow.Resolve.{WorkflowStage}
use carbonpaper.Executor.Records.{
  Issue, ValidationReport, Table, StageOutput, StageRecord, RunManifest,
}
use carbonpaper.Executor.Window.{RunParameters}

pub record RunIdentity : Type 0 where
  pub project : String
  pub run_id : String

pub record RunContext : Type 0 where
  pub identity : Option RunIdentity
  pub params : RunParameters

-- An exception other than `RunCancelled`: its type, its text and its traceback.
pub record Raised : Type 0 where
  pub type : String
  pub message : String
  pub traceback : String

-- How the call of a handler ends.
pub data Handled (Row Usage : Type 0) : Type 0 where
  run_cancelled : Handled Row Usage
  raised : Raised → Handled Row Usage
  returned : Option (StageOutput Row Usage) → Handled Row Usage

-- The path of a written table, and why it is not a parquet file, where it is not.
pub record Written : Type 0 where
  pub path : String
  pub parquet_error : Option String

abbrev pub Inputs : Type 0 → Type 0
Inputs Row = List (String × Table Row)

pub record Runtime (Row Usage World : Type 0) : Type 0 where
  pub consume_cancel : RunIdentity → World → Bool × World
  pub handlers : StageType → Option (WorkflowStage → Inputs Row → World → Handled Row Usage × World)
  pub validate_table : Table Row → Option TableSchema → String → String → ValidationReport
  pub find_key_coverage_issues : WorkflowStage → Inputs Row → List Issue
  pub find_workflow_output_issues : WorkflowStage → Table Row → List Issue
  pub write_lineage_table :
      String → Option RowLineage → Option RowBranches → World → Result Raised World
  pub write_output : Table Row → String → World → Result Raised (Written × World)
  pub save_workflow_outputs : WorkflowStage → Table Row → RunIdentity → World → Result Raised World

-- What `_run_stage` works on: the stage's record, and what it shares with the run.
pub record StageRun (Row Usage World : Type 0) : Type 0 where
  pub stage_record : StageRecord Usage
  pub manifest : RunManifest Usage
  pub outputs_so_far : Inputs Row
  pub world : World

pub data StageOutcome : Type 0 where
  ran halted cancelled : StageOutcome

-- A Python exception that the executor raises itself. Its traceback is left out.
abbrev pub raise : String → String → Raised
raise type message = record { type = type; message = message; traceback = "" }
