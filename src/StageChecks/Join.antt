-- ===== src/StageChecks/Join.antt =====
-- app/models/stages/join.py: the column checks of enrich and expand stages.
use carbonpaper.Prelude.{
  String, not, ◌&&◌, List, [], ◌∷◌, ◌++◌, map, flat_map, contains, ◌==◌, string_eq, Result, ok, err,
  if◌then◌else◌,
}
use carbonpaper.Schema.Column.{name}
use carbonpaper.Signature.{WorkflowStageInput}
use carbonpaper.Stage.Blocks.{JoinKey, JoinConfig}
use carbonpaper.Workflow.Raised.{Raised, index_error}

pub data JoinIssue : Type 0 where
  left_key_absent right_key_absent source_absent : (stage column : String) → JoinIssue
  lands_on_subject : (stage landed subject source : String) → JoinIssue
  lands_on_key : (stage source landed : String) → JoinIssue

unfoldable pub key_issues : String → List String → List String → JoinKey → List JoinIssue
key_issues stage left right key =
    (if contains left key.left then [] else left_key_absent stage key.left ∷ [])
    ++ (if contains right key.right then [] else right_key_absent stage key.right ∷ [])

-- The body of the loop over `enrich_with`, for a source column and the name that it lands under.
unfoldable pub landing_issues :
    String → String → List String → List String → List String → String × String → List JoinIssue
landing_issues stage subject left right right_keys (source, landed) =
    (if contains right source then [] else source_absent stage source ∷ [])
    ++ (if contains left landed
        then lands_on_subject stage landed subject source ∷ []
        else if contains right_keys landed && not (landed == source)
        then lands_on_key stage source landed ∷ []
        else [])

-- `inputs[0]` and `inputs[1]` raise IndexError where there is no such input.
unfoldable pub find_join_column_issues :
    String → JoinConfig → List WorkflowStageInput → Result Raised (List JoinIssue)
unfolding key_issues landing_issues
find_join_column_issues stage join (subject ∷ reference ∷ _) =
    let left = map name subject.table_schema.columns in
    let right = map name reference.table_schema.columns in
    ok (
      flat_map (key_issues stage left right) join.keys
      ++ flat_map (landing_issues stage subject.id left right (map (λ k. k.right) join.keys))
          join.enrich_with)
find_join_column_issues stage join _ = err index_error
