-- ===== src/Schema/Table.antt =====
-- app/models/schema.py: `TableSchema`.
use carbonpaper.Prelude.{
  ℕ, Bool, true, false, not, ◌&&◌, String, Option, none, some, List, [], ◌∷◌, ◌++◌, map, ◌==◌,
  string_eq, contains, filter, flat_map, find, is_empty, if◌then◌else◌, lookup, Result, ok, err,
}
use carbonpaper.Schema.Column.{Column, name}
use carbonpaper.Schema.Column as Col
use carbonpaper.Schema.Spec.{SpecField, column_spec_differences, index_by_name}

pub record TableSchema : Type 0 where
  pub columns : List Column
  pub estimated_rows : Option ℕ
  pub notes : Option String

-- What a column that is asked for lacks. `may_be_null` is the wording that `nullable` gets where
-- only the compatible direction is asked for.
pub data Difference : Type 0 where
  on : SpecField → Difference
  may_be_null : Difference

pub data Reason : Type 0 where
  absent_from_producer : String → Reason
  differs_on : String → List Difference → Reason

pub data SchemaError : Type 0 where
  duplicate_column : String → SchemaError
  cannot_subtract : List Reason → SchemaError

-- The loop of `_consistent`, from what it has seen.
unfoldable pub find_duplicate : List String → List Column → Option String
find_duplicate seen [] = none
find_duplicate seen (c ∷ cs) =
    let rest = find_duplicate (name c ∷ seen) cs in
    if contains seen (name c) then some (name c) else rest

-- `TableSchema(columns=...)`
unfoldable pub table_schema : List Column → Result SchemaError TableSchema
unfolding find_duplicate
table_schema cs = elim (find_duplicate [] cs) [
  | some n ↦ err (duplicate_column n)
  | none ↦ ok (record { columns = cs; estimated_rows = none; notes = none })
]

unfoldable pub column_for_name : TableSchema → String → Option Column
column_for_name s n = find (λ c. name c == n) s.columns

abbrev pub or_itself : List (String × Column) → Column → Column
or_itself by_name c = elim (lookup (name c) by_name) [ some d ↦ d | none ↦ c ]

unfoldable pub extend : TableSchema → List Column → List Column → Result SchemaError TableSchema
unfolding table_schema
extend s rewrites adds = table_schema (map (or_itself (index_by_name rewrites)) s.columns ++ adds)

pub data Nullability : Type 0 where
  compatible exact : Nullability

abbrev without_nullable : List SpecField → List SpecField
without_nullable [] = []
without_nullable (SpecField.nullable ∷ fs) = without_nullable fs
without_nullable (f ∷ fs) = f ∷ without_nullable fs

abbrev has_nullable : List SpecField → Bool
has_nullable [] = false
has_nullable (SpecField.nullable ∷ fs) = true
has_nullable (f ∷ fs) = has_nullable fs

-- The differences that count between a required column and the supplied one.
unfoldable pub relevant_differences : Nullability → Column → Column → List Difference
relevant_differences exact required supplied = map on (column_spec_differences required supplied)
relevant_differences compatible required supplied =
    let diffs = column_spec_differences required supplied in
    if has_nullable diffs
    then map on (without_nullable diffs)
      ++ (if not (Col.nullable required) && Col.nullable supplied then may_be_null ∷ [] else [])
    else map on diffs

-- The body of the loop of `find_unsatisfied_columns`.
unfoldable pub find_unsatisfied : Nullability → List (String × Column) → Column → List Reason
unfolding relevant_differences
find_unsatisfied nullability by_name required = elim (lookup (name required) by_name) [
  | none ↦ absent_from_producer (name required) ∷ []
  | some supplied ↦
      let diffs = relevant_differences nullability required supplied in
      if is_empty diffs then [] else differs_on (name required) diffs ∷ []
]

unfoldable pub find_unsatisfied_columns : TableSchema → TableSchema → Nullability → List Reason
unfolding find_unsatisfied
find_unsatisfied_columns s producer nullability =
    flat_map (find_unsatisfied nullability (index_by_name producer.columns)) s.columns

unfoldable pub is_subset_of : TableSchema → TableSchema → Bool
unfolding find_unsatisfied_columns
is_subset_of s other = is_empty (find_unsatisfied_columns s other exact)

-- The columns of the first schema that the second does not hold with the same spec.
abbrev pub survives : List (String × Column) → Column → Bool
survives by_name c = elim (lookup (name c) by_name) [
  | none ↦ true
  | some d ↦ not (is_empty (column_spec_differences c d))
]

unfoldable pub subtract : TableSchema → TableSchema → Bool → Result SchemaError TableSchema
unfolding is_subset_of table_schema
subtract s other strict =
    if strict && not (is_subset_of other s)
    then err (cannot_subtract (find_unsatisfied_columns other s exact))
    else table_schema (filter (survives (index_by_name other.columns)) s.columns)

abbrev pub differs_between : List (String × Column) → List (String × Column) → String → Bool
differs_between ours theirs n = elim (lookup n ours) [
  | none ↦ true
  | some c ↦ (elim (lookup n theirs) [
    | none ↦ true
    | some d ↦ not (is_empty (column_spec_differences c d))
  ])
]

-- A set in the source: the names of the first schema, then those that only the second has.
unfoldable pub differing_column_names : TableSchema → TableSchema → List String
differing_column_names s other =
    let names = map name s.columns in
    filter (differs_between (index_by_name s.columns) (index_by_name other.columns))
      (names ++ filter (λ n. not (contains names n)) (map name other.columns))
