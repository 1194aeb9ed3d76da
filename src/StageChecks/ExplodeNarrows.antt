-- ===== src/StageChecks/ExplodeNarrows.antt =====
-- What an explode stage that passes its checks does to its column.
use carbonpaper.Prelude.{
  String, true, some, List, [], ◌∷◌, find, keys, contains, contains-keys-dict_of, ◌==◌, string_eq,
  list_eq, nat_eq, ok, ok-injective, ◌≡◌, sym, ◌∙◌, arith, eq_iff, list_beq_iff, Option-cases, inl,
  inr, Bool-cases,
}
use carbonpaper.Schema.Column.{Column, name, column_type}
use carbonpaper.Schema.ColumnType.{find_list_element_type}
use carbonpaper.Schema.Spec.{index_by_name, named_pairs}
use carbonpaper.Signature.{WorkflowStageInput}
use carbonpaper.Stage.{ExtendsSignature}
use carbonpaper.Stage.Blocks.{ExplodeConfig}
use carbonpaper.StageChecks.Explode.{
  find_explode_signature_issues, find_explode_column_issues, find_element_type_issues,
}

find-named_pairs :
    (n : String) (cs : List Column)
    → contains (keys (named_pairs cs)) n ≡ true
    → (c : Column) × (find (λ d. name d == n) cs ≡ some c)
find-named_pairs n [] h = cc
find-named_pairs n (c ∷ cs) h = elim (Bool-cases (name c == n)) [
  | inl q ↦ (c, ground arith)
  | inr q ↦
      let (d, e) = find-named_pairs n cs (ground (arith, eq_iff n (name c), eq_iff (name c) n)) in
      (d, ground arith)
]

rewritten_of_quiet :
    (stage : String) (e : ExplodeConfig) (signature : ExtendsSignature)
    → find_explode_signature_issues stage e signature ≡ []
    → contains (keys (index_by_name signature.rewrites)) e.column ≡ true
unfolding find_explode_signature_issues
rewritten_of_quiet stage e signature h =
    elim (Bool-cases (contains (keys (index_by_name signature.rewrites)) e.column)) [
      | inl q ↦ q
      | inr q ↦ ground arith
    ]

-- Where the signature and the column checks of an explode stage both find nothing, the column that
-- it unpacks is a list in the input, and the signature rewrites it to the type of its elements.
pub find_explode_column_issues-narrows :
    (stage : String) (e : ExplodeConfig) (signature : ExtendsSignature) (input : WorkflowStageInput)
    (rest : List WorkflowStageInput)
    → find_explode_signature_issues stage e signature ≡ []
    → find_explode_column_issues stage e signature (input ∷ rest) ≡ ok []
    → (supplied declared : Column) × (find (λ c. name c == e.column) input.table_schema.columns
        ≡ some supplied)
      × (find (λ r. name r == e.column) signature.rewrites ≡ some declared)
      × (find_list_element_type (column_type supplied) ≡ some (column_type declared))
unfolding find_explode_column_issues find_element_type_issues
find_explode_column_issues-narrows stage e signature input rest signed h =
    let quiet = ok-injective h in
    let (declared, d) = find-named_pairs e.column signature.rewrites (
      sym (contains-keys-dict_of e.column (named_pairs signature.rewrites))
      ∙ rewritten_of_quiet stage e signature signed) in
    elim (Option-cases (find (λ c. name c == e.column) input.table_schema.columns)) [
      | inl a ↦ ground arith
      | inr (supplied, s) ↦ (elim (Option-cases (find_list_element_type (column_type supplied))) [
        | inl n ↦ ground arith
        | inr (element, t) ↦
            (supplied, declared, s, d, ground (arith, list_beq_iff (column_type declared) element))
      ])
    ]
