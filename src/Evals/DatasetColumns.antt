-- ===== src/Evals/DatasetColumns.antt =====
-- app/evals/dataset_columns.py: the columns of an eval dataset, renamed where two share a name.
use Prim.Native.String.{String}
use carbonpaper.Prelude.{
  some, none, List, [], ◌∷◌, map, filter, contains, lookup, dict_of, string_eq, ◌==◌, Result, ok,
  err, ◌>>=◌, if◌then◌else◌,
}
use carbonpaper.Schema.Column.{Column, column, name}
use carbonpaper.Schema.Spec.{index_by_name}
use carbonpaper.Workflow.Resolve.{WorkflowStage}

pub data DatasetError : Type 0 where
  -- the stage
  declares_no_output_schema : String → DatasetError
  does_not_emit : (stage column : String) → DatasetError

-- f"{prefix}{text}"
abbrev pub prefixed : String → String → String
prefixed String.[] text = text
prefixed (String.◌∷◌ c prefix) text = String.◌∷◌ c (prefixed prefix text)

abbrev pub names : List Column → List String
names columns = map name columns

unfoldable pub get_output_columns_from_stage : WorkflowStage → Result DatasetError (List Column)
get_output_columns_from_stage s = elim s.output_schema [
  | some schema ↦ ok schema.columns
  | none ↦ err (declares_no_output_schema s.stage.id)
]

-- `_find_column_name_conflicts`
abbrev pub find_column_name_conflicts : List Column → List Column → List String
find_column_name_conflicts override_columns expected_output_columns =
    filter (contains (names override_columns)) (names expected_output_columns)

abbrev pub new_name : String → List String → String → String
new_name prefix conflicts n = if contains conflicts n then prefixed prefix n else n

-- `col.model_copy(update={"name": name})`
abbrev pub renamed : String → Column → Column
renamed n (column a fields) = column (record a { name = n }) fields

abbrev pub renamed_pair : String → List String → Column → String × Column
renamed_pair prefix conflicts col =
    let n = new_name prefix conflicts (name col) in (n, renamed n col)

-- `_rename_columns`: a later column of a name takes the place of an earlier one.
abbrev pub rename_columns : List Column → List String → String → List Column
rename_columns columns conflicts prefix =
    map (λ p. p.1) (dict_of (map (renamed_pair prefix conflicts) columns))

unfoldable pub deconflict_column_names : List Column → List Column → List Column × List Column
deconflict_column_names override_columns expected_output_columns =
    let conflicts = find_column_name_conflicts override_columns expected_output_columns in
    (
      rename_columns override_columns conflicts "override.",
      rename_columns expected_output_columns conflicts "output.",
    )

-- `dict.fromkeys(n for n in names if n)`: each name once, in the order of its first place.
abbrev pub given_names : List String → List String → List String
given_names seen [] = []
given_names seen (n ∷ rest) =
    if n == ""
    then given_names seen rest
    else if contains seen n
    then given_names seen rest
    else n ∷ given_names (n ∷ seen) rest

abbrev pub find_checked :
    String → List (String × Column) → List String → Result DatasetError (List Column)
find_checked stage target_by_name [] = ok []
find_checked stage target_by_name (n ∷ rest) = elim (lookup n target_by_name) [
  | none ↦ err (does_not_emit stage n)
  | some col ↦ find_checked stage target_by_name rest >>= λ cols. ok (col ∷ cols)
]

-- `_deconflicted_columns`
unfoldable pub deconflicted_columns :
    WorkflowStage → WorkflowStage → List String → Result DatasetError (List Column × List Column)
unfolding get_output_columns_from_stage deconflict_column_names
deconflicted_columns override target check_output_columns = do
  override_columns ← get_output_columns_from_stage override
  target_columns ← get_output_columns_from_stage target
  expected_output_columns ←
      find_checked target.stage.id (index_by_name target_columns)
        (given_names [] check_output_columns)
  ok (deconflict_column_names override_columns expected_output_columns)

unfoldable pub get_injected_columns :
    WorkflowStage → WorkflowStage → List String → Result DatasetError (List Column)
unfolding deconflicted_columns
get_injected_columns override target check_output_columns = do
  columns ← deconflicted_columns override target check_output_columns
  ok columns.0
