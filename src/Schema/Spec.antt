-- ===== src/Schema/Spec.antt =====
-- app/models/schema.py: spec equality of columns, which reads everything but a column's name and
-- its prose (`description`, `source`).
use carbonpaper.Prelude.{
  Bool, true, false, ◌&&◌, ◌||◌, String, none, some, List, [], ◌∷◌, ◌++◌, map, ◌==◌, Eq, string_eq,
  nat_eq, bool_eq, list_eq, option_eq, contains, all, is_empty, if◌then◌else◌, dict_of, lookup,
}
use carbonpaper.Schema.Column.{
  Column, column, SubColumns, absent, declared, Columns, nil, cons, attributes, name, to_list,
  bound_eq,
}
use carbonpaper.Schema.Column as Col

pub data SpecField : Type 0 where
  type nullable range enum fields value_type : SpecField

abbrev pub differs {ℓ} : {A : Type ℓ} ⦃e : Eq A⦄ → SpecField → A → A → List SpecField
differs f a b = if a == b then [] else f ∷ []

-- `{c.name: c for c in columns}`
abbrev pub named_pairs : List Column → List (String × Column)
named_pairs columns = map (λ c. (name c, c)) columns

abbrev pub index_by_name : List Column → List (String × Column)
index_by_name columns = dict_of (named_pairs columns)

abbrev pub has_name : String → List Column → Bool
has_name n columns = contains (map name columns) n

abbrev pub same_names : List Column → List Column → Bool
same_names cs ds = all (λ c. has_name (name c) ds) cs && all (λ d. has_name (name d) cs) ds

-- `_column_spec_differences` and `_fields_spec_equal`. A column of `fields` that a later one of its
-- name replaces in the dictionary is passed over.
unfoldable mutual
  pub column_spec_differences : Column → Column → List SpecField
  column_spec_differences (column a f) other =
      let b = attributes other in
      differs type a.type b.type
      ++ (differs nullable a.nullable b.nullable
          ++ (differs range a.range b.range
              ++ (differs enum a.enum b.enum
                  ++ ((if fields_spec_equal f (Col.fields other) then [] else fields ∷ [])
                      ++ differs value_type a.value_type b.value_type))))

  pub fields_spec_equal : SubColumns → SubColumns → Bool
  fields_spec_equal absent absent = true
  fields_spec_equal absent (declared _) = false
  fields_spec_equal (declared cs) absent = false
  fields_spec_equal (declared cs) (declared ds) =
      same_names (to_list cs) (to_list ds) && all_spec_equal cs (index_by_name (to_list ds))

  pub all_spec_equal : Columns → List (String × Column) → Bool
  all_spec_equal nil by_name = true
  all_spec_equal (cons c cs) by_name =
      (has_name (name c) (to_list cs) || (elim (lookup (name c) by_name) [
        | some d ↦ is_empty (column_spec_differences c d)
        | none ↦ false
      ]))
      && all_spec_equal cs by_name
