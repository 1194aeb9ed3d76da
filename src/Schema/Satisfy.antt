-- ===== src/Schema/Satisfy.antt =====
-- app/models/schema.py: when one schema satisfies another.
use carbonpaper.Prelude.{
  true, false, ◌||◌, String, none, some, List, [], ◌∷◌, ◌++◌, ◌≡◌, refl, ◌∙◌, arith, subst, Eq,
  string_eq, list_eq, bool_eq, nat_eq, option_eq, all, lookup, lookup_last, lookup-dict_of,
  beq_self,
}
use mathlib.Core.List.{append_assoc}
use carbonpaper.Schema.Column.{
  Column, column, name, SubColumns, absent, declared, Columns, nil, cons, to_list, bound_eq,
}
use carbonpaper.Schema.Spec.{
  named_pairs, index_by_name, has_name, column_spec_differences, fields_spec_equal, all_spec_equal,
  same_names, differs, SpecField,
}

differs_self {ℓ} : {A : Type ℓ} ⦃e : Eq A⦄ (f : SpecField) (a : A) → differs f a a ≡ []
differs_self f a = rw (beq_self a) refl

has_name-append :
    (n : String) (xs ys : List Column) → has_name n (xs ++ ys) ≡ (has_name n xs || has_name n ys)
has_name-append n [] ys = refl
has_name-append n (x ∷ xs) ys = ground (arith, has_name-append n xs ys)

all_have_name : (pre cs : List Column) → all (λ c. has_name (name c) (pre ++ cs)) cs ≡ true
all_have_name pre [] = refl
all_have_name pre (c ∷ cs) =
    let rest =
      subst (λ l. all (λ d. has_name (name d) l) cs ≡ true) (append_assoc pre (c ∷ []) cs)
        (all_have_name (pre ++ c ∷ []) cs) in
    ground (arith, rest, has_name-append (name c) pre (c ∷ cs), beq_self (name c))

same_names_self : (cs : List Column) → same_names cs cs ≡ true
same_names_self cs = rw (all_have_name [] cs) refl

lookup_last-absent :
    (n : String) (cs : List Column) → has_name n cs ≡ false → lookup_last n (named_pairs cs) ≡ none
lookup_last-absent n [] h = refl
lookup_last-absent n (d ∷ cs) h = ground (arith, lookup_last-absent n cs)

lookup_last-pre :
    (pre cs : List Column) (c : Column)
    → has_name (name c) cs ≡ false
    → lookup_last (name c) (named_pairs (pre ++ c ∷ cs)) ≡ some c
lookup_last-pre [] cs c h = ground (arith, lookup_last-absent (name c) cs, beq_self (name c))
lookup_last-pre (d ∷ pre) cs c h = ground (arith, lookup_last-pre pre cs c h)

-- A dictionary built from a list of columns holds the last column of each name.
pub lookup-index-last :
    (pre cs : List Column) (c : Column)
    → has_name (name c) cs ≡ false
    → lookup (name c) (index_by_name (pre ++ c ∷ cs)) ≡ some c
lookup-index-last pre cs c h =
    lookup-dict_of (name c) (named_pairs (pre ++ c ∷ cs)) ∙ lookup_last-pre pre cs c h

mutual
  unfolding column_spec_differences

  spec_self : (c : Column) → column_spec_differences c c ≡ []
  spec_self (column a f) = ground (
    arith,
    differs_self SpecField.type a.type,
    differs_self SpecField.nullable a.nullable,
    differs_self SpecField.range a.range,
    differs_self SpecField.enum a.enum,
    differs_self SpecField.value_type a.value_type,
    fields_self f,
  )

  fields_self : (f : SubColumns) → fields_spec_equal f f ≡ true
  fields_self absent = refl
  fields_self (declared cs) = ground (arith, same_names_self (to_list cs), all_self [] cs)

  all_self :
      (pre : List Column) (cs : Columns)
      → all_spec_equal cs (index_by_name (pre ++ to_list cs)) ≡ true
  all_self pre nil = refl
  all_self pre (cons c cs) =
      let rest =
        subst (λ l. all_spec_equal cs (index_by_name l) ≡ true)
          (append_assoc pre (c ∷ []) (to_list cs)) (all_self (pre ++ c ∷ []) cs) in
      ground (arith, rest, lookup-index-last pre (to_list cs) c, spec_self c)

-- A column differs from itself in nothing.
pub column_spec_differences_self : (c : Column) → column_spec_differences c c ≡ []
column_spec_differences_self c = spec_self c
