-- ===== src/Schema/Supply.antt =====
-- app/models/schema.py: `find_unsatisfied_columns`, `is_subset_of` and `subtract`.
use carbonpaper.Prelude.{
  true, false, String, some, List, [], ◌∷◌, ◌++◌, ◌≡◌, refl, arith, ◌⊎◌, inl, inr, ◌↔◌, string_eq,
  list_eq, bool_eq, nat_eq, option_eq, lookup, Option-cases, flat_map, All, list_beq_iff,
  option_beq_iff, bool_beq_iff,
}
use carbonpaper.Schema.Column.{
  Column, column, name, nullable, bound_eq, attributes, fields, column_type,
}
use carbonpaper.Schema.Spec.{index_by_name, column_spec_differences, fields_spec_equal}
use carbonpaper.Schema.Table.{
  TableSchema, find_unsatisfied_columns, find_unsatisfied, relevant_differences, compatible,
}

append-eq-nil : {A : Type 0} (xs ys : List A) → xs ++ ys ≡ [] → (xs ≡ []) × (ys ≡ [])
append-eq-nil [] ys h = (refl, h)
append-eq-nil (x ∷ xs) ys h = cc

-- What a supplied column owes a required one: the same spec, but for a null that the required
-- column tolerates.
pub record IsSuppliedBy (required supplied : Column) : Type 0 where
  pub same_type : column_type required ≡ column_type supplied
  pub same_range : (attributes required).range ≡ (attributes supplied).range
  pub same_enum : (attributes required).enum ≡ (attributes supplied).enum
  pub same_fields : fields_spec_equal (fields required) (fields supplied) ≡ true
  pub same_value_type : (attributes required).value_type ≡ (attributes supplied).value_type
  pub null_tolerated : (nullable required ≡ true) ⊎ (nullable supplied ≡ false)

relevant-nil_iff :
    (required supplied : Column)
    → (relevant_differences compatible required supplied ≡ []) ↔ IsSuppliedBy required supplied
unfolding relevant_differences column_spec_differences
relevant-nil_iff (column a f) (column b g) = ground (
  arith,
  list_beq_iff a.type b.type,
  option_beq_iff a.range b.range,
  option_beq_iff a.enum b.enum,
  option_beq_iff a.value_type b.value_type,
  bool_beq_iff a.nullable b.nullable,
)

abbrev IsSuppliedFrom : List (String × Column) → Column → Type 0
IsSuppliedFrom by_name r = (d : Column) × (lookup (name r) by_name ≡ some d) × IsSuppliedBy r d

find_unsatisfied-nil_iff :
    (by_name : List (String × Column)) (r : Column)
    → (find_unsatisfied compatible by_name r ≡ []) ↔ IsSuppliedFrom by_name r
unfolding find_unsatisfied
find_unsatisfied-nil_iff by_name r = elim (Option-cases (lookup (name r) by_name)) [
  | inl e ↦ (λ h. ground arith, λ h. ground arith)
  | inr (d, e) ↦ (
    λ h. (d, e, ground (arith, relevant-nil_iff r d)),
    λ (c, f, g). ground (arith, relevant-nil_iff r c),
  )
]

flat_map-nil_iff :
    (by_name : List (String × Column)) (cs : List Column)
    → (flat_map (find_unsatisfied compatible by_name) cs ≡ []) ↔ All (IsSuppliedFrom by_name) cs
flat_map-nil_iff by_name [] = (λ _. tt, λ _. refl)
flat_map-nil_iff by_name (c ∷ cs) =
    let (to, from) = find_unsatisfied-nil_iff by_name c in
    let (to_rest, from_rest) = flat_map-nil_iff by_name cs in
    (
      λ h. let (first, rest) = append-eq-nil _ _ h in (to first, to_rest rest),
      λ (first, rest). rw (from first) (from_rest rest),
    )

-- A producer satisfies a schema, as an input schema must be satisfied, exactly where it holds
-- under each required name a column that supplies the required one.
pub find_unsatisfied_columns-nil_iff :
    (s producer : TableSchema)
    → (find_unsatisfied_columns s producer compatible ≡ [])
      ↔ All
          (λ r.
            (d : Column) × (lookup (name r) (index_by_name producer.columns) ≡ some d)
            × IsSuppliedBy r d)
          s.columns
unfolding find_unsatisfied_columns
find_unsatisfied_columns-nil_iff s producer =
    flat_map-nil_iff (index_by_name producer.columns) s.columns
