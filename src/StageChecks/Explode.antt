-- ===== src/StageChecks/Explode.antt =====
-- app/models/stages/explode.py: the checks of what an explode stage unpacks.
use carbonpaper.Prelude.{
  String, Text, not, some, none, List, [], ◌∷◌, ◌++◌, map, filter, find, keys, contains, ◌==◌,
  string_eq, list_eq, nat_eq, is_empty, Result, ok, err, if◌then◌else◌,
}
use carbonpaper.Schema.Column.{name, column_type}
use carbonpaper.Schema.ColumnType.{find_list_element_type}
use carbonpaper.Schema.Spec.{index_by_name}
use carbonpaper.Signature.{WorkflowStageInput}
use carbonpaper.Stage.{ExtendsSignature}
use carbonpaper.Stage.Blocks.{ExplodeConfig}
use carbonpaper.Workflow.Raised.{Raised, index_error}

pub data ExplodeIssue : Type 0 where
  adds_columns rewrite_missing column_absent : (stage column : String) → ExplodeIssue
  rewrites_other : (stage column : String) → ExplodeIssue
  not_a_list : (stage column : String) (type : Text) → ExplodeIssue
  element_type_differs : (stage column : String) (declared element : Text) → ExplodeIssue

unfoldable pub find_explode_signature_issues :
    String → ExplodeConfig → ExtendsSignature → List ExplodeIssue
find_explode_signature_issues stage e signature =
    let rewritten = keys (index_by_name signature.rewrites) in
    (if is_empty signature.adds then [] else adds_columns stage e.column ∷ [])
    ++ ((if contains rewritten e.column then [] else rewrite_missing stage e.column ∷ [])
        ++ map (rewrites_other stage) (filter (λ n. not (n == e.column)) rewritten))

unfoldable pub find_element_type_issues :
    String → ExtendsSignature → String → Text → List ExplodeIssue
find_element_type_issues stage signature n element =
    elim (find (λ r. name r == n) signature.rewrites) [
      | none ↦ []
      | some declared ↦
          if column_type declared == element
          then []
          else element_type_differs stage n (column_type declared) element ∷ []
    ]

-- The test that the input has the column, and the search for it, are one search here.
unfoldable pub find_explode_column_issues :
    String
    → ExplodeConfig
    → ExtendsSignature
    → List WorkflowStageInput
    → Result Raised (List ExplodeIssue)
unfolding find_element_type_issues
find_explode_column_issues stage e signature [] = err index_error
find_explode_column_issues stage e signature (input ∷ _) =
    ok (elim (find (λ c. name c == e.column) input.table_schema.columns) [
      | none ↦ column_absent stage e.column ∷ []
      | some supplied ↦ (elim (find_list_element_type (column_type supplied)) [
        | none ↦ not_a_list stage e.column (column_type supplied) ∷ []
        | some element ↦ find_element_type_issues stage signature e.column element
      ])
    ])
