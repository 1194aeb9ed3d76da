-- ===== src/StageChecks/Dedupe.antt =====
-- app/models/stages/dedupe.py: the validator of the config, and the column checks.
use carbonpaper.Prelude.{
  String, Bool, not, ◌&&◌, Option, some, none, List, [], ◌∷◌, ◌++◌, map, filter, any, contains,
  ◌==◌, string_eq, is_none, Result, ok, err, if◌then◌else◌,
}
use carbonpaper.Schema.Column.{Column, name}
use carbonpaper.Schema.Column as Col
use carbonpaper.Signature.{WorkflowStageInput}
use carbonpaper.Stage.Blocks.{DedupeConfig, DedupeKeep}
use carbonpaper.Workflow.Raised.{Raised, index_error}

pub data DedupeError : Type 0 where
  first_takes_no_by agree_takes_no_by : DedupeError
  needs_by : DedupeKeep → DedupeError

pub data DedupeIssue : Type 0 where
  keys_absent by_absent by_nullable : (stage column : String) → DedupeIssue

-- `by`, where it is truthy.
abbrev pub stated_by : DedupeConfig → Option String
stated_by d = elim d.by [ some b ↦ (if b == "" then none else some b) | none ↦ none ]

-- The validator's exception, or none.
unfoldable pub by_matches_keep : DedupeConfig → Option DedupeError
by_matches_keep d = elim d.keep [
  | DedupeKeep.first ↦ if is_none d.by then none else some first_takes_no_by
  | DedupeKeep.agree ↦ if is_none d.by then none else some agree_takes_no_by
  | DedupeKeep.highest ↦ if is_none (stated_by d) then some (needs_by d.keep) else none
  | DedupeKeep.lowest ↦ if is_none (stated_by d) then some (needs_by d.keep) else none
]

abbrev pub is_nullable : List Column → String → Bool
is_nullable columns n = any (λ c. name c == n && Col.nullable c) columns

abbrev pub by_issues : String → List Column → Option String → List DedupeIssue
by_issues stage columns none = []
by_issues stage columns (some b) =
    if not (contains (map name columns) b)
    then by_absent stage b ∷ []
    else if is_nullable columns b
    then by_nullable stage b ∷ []
    else []

-- `inputs[0]` raises IndexError where there is no input.
unfoldable pub find_dedupe_column_issues :
    String → DedupeConfig → List WorkflowStageInput → Result Raised (List DedupeIssue)
find_dedupe_column_issues stage d [] = err index_error
find_dedupe_column_issues stage d (input ∷ _) =
    let columns = input.table_schema.columns in
    ok (
      map (keys_absent stage) (filter (λ k. not (contains (map name columns) k)) d.keys)
      ++ by_issues stage columns (stated_by d))
