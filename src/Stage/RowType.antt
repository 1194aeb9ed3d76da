-- ===== src/Stage/RowType.antt =====
-- app/models/stages/stage_base.py: which word a stage has for what one of its rows is, with the
-- overrides of app/models/stages/aggregate.py, report.py and union.py.
use carbonpaper.Prelude.{
  String, not, Option, some, none, List, [], ◌∷◌, is_empty, take, ◌==◌, string_eq, if◌then◌else◌,
}
use carbonpaper.Stage.{Stage, type_of}
use carbonpaper.Stage.Blocks.{StageBlock}
use carbonpaper.Stage.Kind.{StageType, declares_its_own_row_type}

abbrev pub no_kind_row_type_id : String
no_kind_row_type_id = "no_kind"

abbrev own_row_type : StageBlock → Option String → Option String
own_row_type (StageBlock.report _) written = some no_kind_row_type_id
own_row_type (StageBlock.aggregate a) written =
    if is_empty a.group_by then some no_kind_row_type_id else written
own_row_type _ written = written

unfoldable pub resolve_own_row_type_id : Stage → Option String
resolve_own_row_type_id s = own_row_type s.block s.row_type_id

abbrev supplying : StageBlock → List String → List String
supplying StageBlock.union inputs = inputs
supplying _ inputs = take 1 inputs

unfoldable pub list_row_supplying_input_ids : Stage → List String
list_row_supplying_input_ids s = supplying s.block s.inputs

pub data RowTypeIssue : Type 0 where
  no_kind_written : (stage : String) → RowTypeIssue
  inherited_row_type : (stage : String) → StageType → RowTypeIssue
  figure_about_population : (stage row_type : String) → RowTypeIssue
  report_emits_files : (stage row_type : String) → RowTypeIssue

abbrev declared_issues : StageBlock → String → String → List RowTypeIssue
declared_issues (StageBlock.aggregate a) id written =
    if is_empty a.group_by then figure_about_population id written ∷ [] else []
declared_issues (StageBlock.report _) id written = report_emits_files id written ∷ []
declared_issues _ id written = []

unfoldable pub find_declared_row_type_issues : Stage → String → List RowTypeIssue
find_declared_row_type_issues s written = declared_issues s.block s.id written

abbrev written_issues : Stage → Option String → List RowTypeIssue
unfolding find_declared_row_type_issues
written_issues s none = []
written_issues s (some written) =
    if written == no_kind_row_type_id
    then no_kind_written s.id ∷ []
    else if not (declares_its_own_row_type (type_of s))
    then inherited_row_type s.id (type_of s) ∷ []
    else find_declared_row_type_issues s written

unfoldable pub find_row_type_issues : Stage → List RowTypeIssue
unfolding find_declared_row_type_issues declares_its_own_row_type
find_row_type_issues s = written_issues s s.row_type_id
