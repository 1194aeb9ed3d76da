-- ===== src/StageChecks/SortRank.antt =====
-- app/models/stages/sort_rank.py: the validator of a sort key, and the checks of the stage.
use carbonpaper.Prelude.{
  String, Text, codes, not, ◌&&◌, Option, some, none, List, [], ◌∷◌, ◌++◌, map, filter, keys,
  lookup, contains, ◌==◌, string_eq, list_eq, nat_eq, is_empty, is_none, is_unique, Result, ok, err,
  if◌then◌else◌,
}
use carbonpaper.Schema.Column.{Column, name, column_type, nullable}
use carbonpaper.Schema.Spec.{index_by_name}
use carbonpaper.Signature.{WorkflowStageInput}
use carbonpaper.Stage.{ExtendsSignature}
use carbonpaper.Stage.Blocks.{SortKey, SortRankConfig}
use carbonpaper.Workflow.Raised.{Raised, index_error}

pub data SortKeyError : Type 0 where
  order_also_reversed order_repeats_a_value : (column : String) → SortKeyError

-- The validator's exception, or none.
unfoldable pub order_is_not_also_reversed : SortKey → Option SortKeyError
order_is_not_also_reversed key = elim key.order [
  | none ↦ none
  | some order ↦
      if key.descending
      then some (order_also_reversed key.column)
      else if not (is_unique order)
      then some (order_repeats_a_value key.column)
      else none
]

pub data SortRankIssue : Type 0 where
  key_absent null_unplaced rank_column_exists : (stage column : String) → SortRankIssue
  rewrites_a_cell : (stage : String) → SortRankIssue
  adds_without_rank adds_other rank_not_declared : (stage column : String) → SortRankIssue
  rank_of_wrong_type : (stage column : String) (type : Text) → SortRankIssue

abbrev pub rank_column_type : Text
rank_column_type = codes "int"

unfoldable pub find_unplaced_null_issues : String → List SortKey → List Column → List SortRankIssue
find_unplaced_null_issues stage sort_keys columns =
    let nullable_names = map name (filter nullable columns) in
    map (λ k. null_unplaced stage k.column)
      (filter (λ k. contains nullable_names k.column && is_none k.nulls) sort_keys)

-- `rank_column`, where it is truthy and already exists.
abbrev pub rank_issues : String → List String → Option String → List SortRankIssue
rank_issues stage names none = []
rank_issues stage names (some rank) =
    if not (rank == "") && contains names rank then rank_column_exists stage rank ∷ [] else []

-- `inputs[0]` raises IndexError where there is no input.
unfoldable pub find_sort_rank_column_issues :
    String → SortRankConfig → List WorkflowStageInput → Result Raised (List SortRankIssue)
unfolding find_unplaced_null_issues
find_sort_rank_column_issues stage config [] = err index_error
find_sort_rank_column_issues stage config (input ∷ _) =
    let columns = input.table_schema.columns in
    let names = map name columns in
    ok (
      map (λ k. key_absent stage k.column) (filter (λ k. not (contains names k.column)) config.keys)
      ++ (find_unplaced_null_issues stage config.keys columns
          ++ rank_issues stage names config.rank_column))

abbrev declared_rank_issues : String → String → Option Column → List SortRankIssue
declared_rank_issues stage rank none = rank_not_declared stage rank ∷ []
declared_rank_issues stage rank (some declared) =
    if column_type declared == rank_column_type
    then []
    else rank_of_wrong_type stage rank (column_type declared) ∷ []

unfoldable pub find_sort_rank_signature_issues :
    String → SortRankConfig → ExtendsSignature → List SortRankIssue
find_sort_rank_signature_issues stage config signature =
    let added = index_by_name signature.adds in
    (if is_empty signature.rewrites then [] else rewrites_a_cell stage ∷ [])
    ++ (elim config.rank_column [
      | none ↦ map (adds_without_rank stage) (keys added)
      | some rank ↦
          declared_rank_issues stage rank (lookup rank added)
          ++ map (adds_other stage) (filter (λ n. not (n == rank)) (keys added))
    ])
