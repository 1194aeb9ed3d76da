-- ===== src/StageChecks/Union.antt =====
-- app/models/stages/union.py: the column checks of a union.
use carbonpaper.Prelude.{
  String, List, [], ◌∷◌, ◌++◌, flat_map, is_empty, Result, ok, err, if◌then◌else◌,
}
use carbonpaper.Schema.Table.{differing_column_names}
use carbonpaper.Signature.{WorkflowStageInput}
use carbonpaper.Stage.{ExtendsSignature}
use carbonpaper.Workflow.Raised.{Raised, index_error}

pub data UnionIssue : Type 0 where
  disagrees : (stage input reference : String) (columns : List String) → UnionIssue

-- The body of the loop over the inputs behind the first.
unfoldable pub disagreement : String → WorkflowStageInput → WorkflowStageInput → List UnionIssue
disagreement stage reference input =
    let differing = differing_column_names input.table_schema reference.table_schema in
    if is_empty differing then [] else disagrees stage input.id reference.id differing ∷ []

-- `schemas[0]` raises IndexError where there is no input.
unfoldable pub find_union_column_issues :
    String → List WorkflowStageInput → Result Raised (List UnionIssue)
unfolding disagreement
find_union_column_issues stage [] = err index_error
find_union_column_issues stage (reference ∷ rest) =
    ok (flat_map (disagreement stage reference) rest)

-- The fields of the signature that are not empty, in the order of their names.
unfoldable pub find_union_signature_writes : ExtendsSignature → List String
find_union_signature_writes s =
    (if is_empty s.adds then [] else "adds" ∷ [])
    ++ ((if is_empty s.reads then [] else "reads" ∷ [])
        ++ (if is_empty s.rewrites then [] else "rewrites" ∷ []))
