-- ===== src/Stage/Blocks.antt =====
-- The config blocks of app/models/stages/, one for each stage type, as far as the checks on a graph
-- and on its rows read them.
use carbonpaper.Prelude.{String, Bool, Option, List}
use carbonpaper.Stage.Kind.{StageType}

pub data AggFormula : Type 0 where
  sum mean count count_distinct min max first first_including_null only list : AggFormula

-- `where` is spelled `where_expr`.
pub record AggregationOp : Type 0 where
  pub output_column : String
  pub formula : AggFormula
  pub value_column : Option String
  pub where_expr : Option String

pub record AggregateConfig : Type 0 where
  pub group_by : List String
  pub aggregations : List AggregationOp

pub data DedupeKeep : Type 0 where
  agree first highest lowest : DedupeKeep

pub record DedupeConfig : Type 0 where
  pub keys : List String
  pub keep : DedupeKeep
  pub by : Option String

pub data NullPlacement : Type 0 where
  first last : NullPlacement

pub record SortKey : Type 0 where
  pub column : String
  pub descending : Bool
  pub order : Option (List String)
  pub nulls : Option NullPlacement

pub record SortRankConfig : Type 0 where
  pub keys : List SortKey
  pub rank_column : Option String

pub record ExplodeConfig : Type 0 where
  pub column : String
  pub keep_empty : Bool

pub record JoinKey : Type 0 where
  pub left : String
  pub right : String

-- `enrich_with` maps a reference column to the name that it lands under.
pub record JoinConfig : Type 0 where
  pub keys : List JoinKey
  pub enrich_with : List (String × String)

pub data ReportFormat : Type 0 where
  html_report json csv evidence_cards : ReportFormat

pub record ReportConfig : Type 0 where
  pub format : Option ReportFormat
  pub destination : Option String
  pub one_file_per : Option String
  pub cross_link : Option Bool

pub data StageBlock : Type 0 where
  input_data llm_transform python_row_function python_frame_function : StageBlock
  human_review_queue union filter_rows starlark_row_function starlark_filter_rows : StageBlock
  enrich expand : JoinConfig → StageBlock
  aggregate : AggregateConfig → StageBlock
  report : ReportConfig → StageBlock
  explode : ExplodeConfig → StageBlock
  dedupe : DedupeConfig → StageBlock
  sort_rank : SortRankConfig → StageBlock

abbrev pub stage_type : StageBlock → StageType
stage_type input_data = StageType.input_data
stage_type llm_transform = StageType.llm_transform
stage_type python_row_function = StageType.python_row_function
stage_type python_frame_function = StageType.python_frame_function
stage_type human_review_queue = StageType.human_review_queue
stage_type union = StageType.union
stage_type filter_rows = StageType.filter_rows
stage_type starlark_row_function = StageType.starlark_row_function
stage_type starlark_filter_rows = StageType.starlark_filter_rows
stage_type (enrich _) = StageType.enrich
stage_type (expand _) = StageType.expand
stage_type (aggregate _) = StageType.aggregate
stage_type (report _) = StageType.report
stage_type (explode _) = StageType.explode
stage_type (dedupe _) = StageType.dedupe
stage_type (sort_rank _) = StageType.sort_rank
