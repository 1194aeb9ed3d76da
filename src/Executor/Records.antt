-- ===== src/Executor/Records.antt =====
-- app/models/run_manifest.py, app/models/records/run_manifest.py, app/models/stage_contribution.py
-- and app/runtime/stage_output.py: what a stage hands back, and what a run records of it. The times
-- of a record and its progress are left out, and so is what a manifest holds unchanged throughout.
use carbonpaper.Prelude.{
  ℕ, String, Bool, not, Option, none, List, [], ◌∷◌, ◌++◌, any, string_eq, ◌==◌, insert,
}
use carbonpaper.Branches.Recorder.{RowBranches}
use carbonpaper.Lineage.Row.{RowLineage}
use carbonpaper.Stage.{Stage, type_of}
use carbonpaper.Stage.Kind.{StageType}
use carbonpaper.Executor.Status.{StageStatus, RunStatus}

-- What an issue says: the text of a check, the row of a row error with its message, or how many
-- columns were not declared or were dropped, with the first eight.
pub data IssueMessage : Type 0 where
  issue_text : String → IssueMessage
  generation_failed : ℕ → String → IssueMessage
  undeclared_columns : ℕ → List String → IssueMessage
  dropped_columns_named : ℕ → List String → IssueMessage

pub record Issue : Type 0 where
  pub severity : String
  pub column : Option String
  pub message : IssueMessage

pub record ValidationReport : Type 0 where
  pub stage_id : String
  pub phase : String
  pub rows : ℕ
  pub issues : List Issue

-- `ValidationReport.ok`
unfoldable pub report_ok : ValidationReport → Bool
report_ok report = not (any (λ i. i.severity == "error") report.issues)

pub record RowError : Type 0 where
  pub row : ℕ
  pub message : String

-- An exception's text; the first three row errors with the count of the others; or what a refused
-- output violates, by columns and messages.
pub data ErrorMessage : Type 0 where
  exception_text : String → ErrorMessage
  row_errors_summary : List RowError → ℕ → ErrorMessage
  schema_errors_summary : String → List String → List IssueMessage → ErrorMessage

pub record StageErrorInfo : Type 0 where
  pub type : String
  pub message : ErrorMessage
  pub traceback : Option String

-- Where a window is cut: an input's rows, or the rows that a stage without inputs loads.
pub data RowSource : Type 0 where
  from_input : String → RowSource
  loaded_from_the_source : RowSource

-- The text of a handler's note, and the notes that the executor composes.
pub data Note : Type 0 where
  note_text : String → Note
  skipped_rows : (offset skipped total : ℕ) → (source : RowSource) → Note
  read_rows : (limit total : ℕ) → (source : RowSource) → Note
  wrote_csv : String → Note

pub record QueueStats : Type 0 where
  pub items_queued_total : ℕ
  pub items_passed_through : ℕ
  pub items_pending : ℕ
  pub items_decided : ℕ

pub record StageContribution (Usage : Type 0) : Type 0 where
  pub llm_usage : Option Usage
  pub cached_rows : Option ℕ
  pub row_errors : List RowError
  pub dropped_columns : List String
  pub human_review_queue_stats : Option QueueStats
  pub notes : List String

-- `StageContribution()`
abbrev pub empty_contribution : {Usage : Type 0} → StageContribution Usage
empty_contribution = record {
  llm_usage = none;
  cached_rows = none;
  row_errors = [];
  dropped_columns = [];
  human_review_queue_stats = none;
  notes = [];
}

-- A table by its column names and its rows.
pub record Table (Row : Type 0) : Type 0 where
  pub column_names : List String
  pub rows : List Row

pub record AwaitingReview : Type 0 where
  pub stage_id : String
  pub pending_count : ℕ
  pub queue_path : String

pub record StageOutput (Row Usage : Type 0) : Type 0 where
  pub table : Table Row
  pub contribution : StageContribution Usage
  pub lineage : Option RowLineage
  pub branches : Option RowBranches
  pub awaiting_review : Option AwaitingReview

pub record StageRecord (Usage : Type 0) : Type 0 where
  pub stage_id : String
  pub type : StageType
  pub status : StageStatus
  pub input_validation_report : List ValidationReport
  pub output_validation_report : Option ValidationReport
  pub output_row_count : ℕ
  pub error : Option StageErrorInfo
  pub llm_usage : Option Usage
  pub cached_rows : Option ℕ
  pub notes : List Note
  pub output_path : Option String
  pub queue_path : Option String

unfoldable pub record_with_status : {Usage : Type 0} → Stage → StageStatus → StageRecord Usage
record_with_status stage status = record {
  stage_id = stage.id;
  type = type_of stage;
  status = status;
  input_validation_report = [];
  output_validation_report = none;
  output_row_count = 0;
  error = none;
  llm_usage = none;
  cached_rows = none;
  notes = [];
  output_path = none;
  queue_path = none;
}

unfoldable pub add_note : {Usage : Type 0} → StageRecord Usage → Note → StageRecord Usage
add_note r note = record r { notes = r.notes ++ note ∷ [] }

pub record RunManifest (Usage : Type 0) : Type 0 where
  pub status : RunStatus
  pub stage_records : List (StageRecord Usage)
  pub human_review_queue_stats : List (String × QueueStats)
  pub dropped_columns : List (String × List String)
  pub halted_at : Option (List String)
  pub cancelled_at : Option String

abbrev pub settle_stage_records :
    {Usage : Type 0} → RunManifest Usage → List (StageRecord Usage) → RunManifest Usage
settle_stage_records m records = record m { stage_records = records }

abbrev pub record_dropped_columns :
    {Usage : Type 0} → RunManifest Usage → String → List String → RunManifest Usage
record_dropped_columns m stage_id columns = record m {
  dropped_columns = insert stage_id columns m.dropped_columns;
}

abbrev pub record_human_review_queue_stats :
    {Usage : Type 0} → RunManifest Usage → String → QueueStats → RunManifest Usage
record_human_review_queue_stats m stage_id stats = record m {
  human_review_queue_stats = insert stage_id stats m.human_review_queue_stats;
}

abbrev pub clear_halt : {Usage : Type 0} → RunManifest Usage → RunManifest Usage
clear_halt m = record m { halted_at = none }
