-- ===== src/Executor/Issues.antt =====
-- app/runtime/executor.py and app/runtime/validation.py: the issues that a stage's run finds besides
-- those of its checks, and the summaries of its errors.
use carbonpaper.Prelude.{
  String, not, ◌&&◌, none, some, List, [], ◌∷◌, map, flat_map, filter, contains, string_eq, ◌==◌,
  length, take, ◌-◌, is_empty, if◌then◌else◌, sorted, string_leb,
}
use carbonpaper.Schema.Column.{name}
use carbonpaper.Schema.Table.{TableSchema}
use carbonpaper.Workflow.Resolve.{WorkflowStage}
use carbonpaper.Executor.Records.{
  Issue, IssueMessage, undeclared_columns, dropped_columns_named, ValidationReport, RowError,
  generation_failed, row_errors_summary, schema_errors_summary, StageErrorInfo, Table,
}

-- app/runtime/validation.py
abbrev warning : IssueMessage → Issue
warning message = record { severity = "warning"; column = none; message = message }

unfoldable pub find_columns_the_stage_did_not_declare :
    {Row : Type 0} → Table Row → TableSchema → List String → List Issue
find_columns_the_stage_did_not_declare table schema arriving =
    let declared = map name schema.columns in
    let introduced =
      filter (λ n. not (contains declared n) && not (contains arriving n)) table.column_names in
    if is_empty introduced
    then []
    else warning (undeclared_columns (length introduced) (take 8 introduced)) ∷ []

unfoldable pub find_dropped_column_issues : List String → List Issue
find_dropped_column_issues dropped =
    if is_empty dropped
    then []
    else warning (dropped_columns_named (length dropped) (take 8 dropped)) ∷ []

-- app/runtime/executor.py
unfoldable pub find_undeclared_column_issues :
    {Row : Type 0} → WorkflowStage → Table Row → List (String × Table Row) → List Issue
unfolding find_columns_the_stage_did_not_declare
find_undeclared_column_issues ws table inputs = elim ws.output_schema [
  | none ↦ []
  | some schema ↦
      find_columns_the_stage_did_not_declare table schema
        (flat_map (λ (id, t). t.column_names) inputs)
]

-- A message of row errors names the first three and counts the others.
unfoldable pub summarize_row_errors : List RowError → StageErrorInfo
summarize_row_errors errors = record {
  type = "RowGenerationError";
  message = row_errors_summary (take 3 errors) (length errors - 3);
  traceback = none;
}

abbrev errors_of : ValidationReport → List Issue
errors_of report = filter (λ i. i.severity == "error") report.issues

abbrev columns_of : List Issue → List String
columns_of = flat_map (λ i. elim i.column [ none ↦ [] | some c ↦ if c == "" then [] else c ∷ [] ])

abbrev pub each_once : List String → List String
each_once [] = []
each_once (x ∷ xs) = if contains xs x then each_once xs else x ∷ each_once xs

unfoldable pub summarize_output_schema_errors : String → ValidationReport → StageErrorInfo
summarize_output_schema_errors sid report = record {
  type = "OutputSchemaViolation";
  message =
      schema_errors_summary sid (sorted string_leb (each_once (columns_of (errors_of report))))
        (map (λ i. i.message) (errors_of report));
  traceback = none;
}

-- The issues of a stage's row errors, which stand in front of the others.
unfoldable pub row_error_issues : List RowError → List Issue
row_error_issues =
    map (λ e. record {
      severity = "error";
      column = none;
      message = generation_failed e.row e.message;
    })
