-- ===== src/StageChecks/UnionAgrees.antt =====
-- What a union that passes its checks can rely on.
use carbonpaper.Prelude.{
  String, true, false, not, ◌||◌, some, List, [], ◌∷◌, ◌++◌, map, filter, flat_map, contains,
  contains-append, contains-filter-nil, string_eq, ok, ok-injective, lookup, is_empty, ◌≡◌, inl,
  inr, arith, All, All-map, Option-cases, eq_iff, List-cases,
}
use carbonpaper.Schema.Column.{Column, name}
use carbonpaper.Schema.Spec.{index_by_name, has_name, column_spec_differences}
use carbonpaper.Schema.Table.{TableSchema, differing_column_names, differs_between}
use carbonpaper.Signature.{WorkflowStageInput}
use carbonpaper.StageChecks.Union.{disagreement, find_union_column_issues}

contains-fresh :
    (names others : List String) (n : String)
    → (contains names n || contains others n) ≡ true
    → (contains names n || contains (filter (λ m. not (contains names m)) others) n) ≡ true
contains-fresh names [] n h = h
contains-fresh names (o ∷ others) n h = ground (arith, contains-fresh names others n, eq_iff n o)

-- Under one name both hold a column, and the two have the same spec.
abbrev pub SameColumn : TableSchema → TableSchema → String → Type 0
SameColumn s t n =
    (c d : Column) × (lookup n (index_by_name s.columns) ≡ some c)
    × (lookup n (index_by_name t.columns) ≡ some d)
    × (column_spec_differences c d ≡ [])

same_of_quiet :
    (s t : TableSchema) (n : String)
    → differs_between (index_by_name s.columns) (index_by_name t.columns) n ≡ false
    → SameColumn s t n
same_of_quiet s t n h = elim (Option-cases (lookup n (index_by_name s.columns))) [
  | inl e ↦ ground arith
  | inr (c, e) ↦ (elim (Option-cases (lookup n (index_by_name t.columns))) [
    | inl f ↦ ground arith
    | inr (d, f) ↦ (c, d, e, f, quiet c d (ground arith))
  ])
]
  where
    quiet :
        (c d : Column)
        → not (is_empty (column_spec_differences c d)) ≡ false
        → column_spec_differences c d ≡ []
    quiet c d h = elim (List-cases (column_spec_differences c d)) [
      | inl e ↦ e
      | inr (x, xs, e) ↦ ground arith
    ]

differing-nil :
    (s t : TableSchema) (n : String)
    → differing_column_names s t ≡ []
    → (has_name n s.columns || has_name n t.columns) ≡ true
    → SameColumn s t n
unfolding differing_column_names
differing-nil s t n h known =
    let names = map name s.columns in
    let others = filter (λ m. not (contains names m)) (map name t.columns) in
    let listed : contains (names ++ others) n ≡ true =
      ground (arith, contains-append names others n, contains-fresh names (map name t.columns) n) in
    same_of_quiet s t n (contains-filter-nil _ (names ++ others) n h listed)

disagreement-nil :
    (stage : String) (reference : WorkflowStageInput) (rest : List WorkflowStageInput)
    → flat_map (disagreement stage reference) rest ≡ []
    → All (λ r. differing_column_names r.table_schema reference.table_schema ≡ []) rest
unfolding disagreement
disagreement-nil stage reference [] h = tt
disagreement-nil stage reference (r ∷ rest) h =
    elim (List-cases (differing_column_names r.table_schema reference.table_schema)) [
      | inl e ↦ (e, disagreement-nil stage reference rest (ground arith))
      | inr (x, xs, e) ↦ ground arith
    ]

-- Where the column check of a union finds nothing, every further input holds, under each name that
-- it or the first input has, a column with the spec of the first input's.
pub find_union_column_issues-agrees :
    (stage : String) (reference : WorkflowStageInput) (rest : List WorkflowStageInput)
    → find_union_column_issues stage (reference ∷ rest) ≡ ok []
    → All
        (λ r.
          (n : String)
          → (has_name n r.table_schema.columns || has_name n reference.table_schema.columns) ≡ true
          → (c d : Column) × (lookup n (index_by_name r.table_schema.columns) ≡ some c)
            × (lookup n (index_by_name reference.table_schema.columns) ≡ some d)
            × (column_spec_differences c d ≡ []))
        rest
unfolding find_union_column_issues
find_union_column_issues-agrees stage reference rest h =
    All-map (λ r e n known. differing-nil r.table_schema reference.table_schema n e known) rest
      (disagreement-nil stage reference rest (ok-injective h))
