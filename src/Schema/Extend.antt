-- ===== src/Schema/Extend.antt =====
-- app/models/schema.py: what `TableSchema.extend` promises.
use carbonpaper.Prelude.{
  true, String, Option, none, some, List, [], ◌∷◌, ◌++◌, map, ◌≡◌, refl, ◌∙◌, ap, subst, sym, arith,
  inl, inr, ◌↔◌, ◌==◌, string_eq, eq_iff, is_unique, if◌then◌else◌, lookup, ok, Option-cases, find,
}
use carbonpaper.Schema.Column.{Column, name}
use carbonpaper.Schema.Spec.{index_by_name, has_name}
use carbonpaper.Schema.Names.{table_schema-ok, table_schema-eq-ok, lookup-index-name}
use carbonpaper.Schema.Table.{TableSchema, column_for_name, or_itself, extend}

pub name-or_itself :
    (rewrites : List Column) (c : Column) → name (or_itself (index_by_name rewrites) c) ≡ name c
name-or_itself rewrites c = elim (Option-cases (lookup (name c) (index_by_name rewrites))) [
  | inl e ↦ ground arith
  | inr (d, e) ↦ ground (arith, lookup-index-name (name c) rewrites d e)
]

names-extended :
    (rewrites adds cs : List Column)
    → map name (map (or_itself (index_by_name rewrites)) cs ++ adds) ≡ map name cs ++ map name adds
names-extended rewrites adds [] = refl
names-extended rewrites adds (c ∷ cs) =
    cc (name-or_itself rewrites c, names-extended rewrites adds cs)

-- An extension succeeds exactly where no name of the input and the added columns stands twice.
pub extend_iff :
    (s : TableSchema) (rewrites adds : List Column)
    → ((t : TableSchema) × (extend s rewrites adds ≡ ok t))
      ↔ (is_unique (map name s.columns ++ map name adds) ≡ true)
unfolding extend
extend_iff s rewrites adds =
    let columns = map (or_itself (index_by_name rewrites)) s.columns ++ adds in
    let names = names-extended rewrites adds s.columns in
    (
      λ (t, h). subst (λ l. is_unique l ≡ true) names (table_schema-eq-ok columns t h).1,
      λ h. (
        record { columns = columns; estimated_rows = none; notes = none },
        table_schema-ok columns (subst (λ l. is_unique l ≡ true) (sym names) h),
      ),
    )

abbrev find_named : String → List Column → Option Column
find_named n cs = find (λ c. name c == n) cs

abbrev extended_column : String → List Column → List Column → List Column → Option Column
extended_column n rewrites adds cs =
    if has_name n cs
    then (elim (lookup n (index_by_name rewrites)) [ some w ↦ some w | none ↦ find_named n cs ])
    else find_named n adds

find-extended :
    (n : String) (rewrites adds cs : List Column)
    → find_named n (map (or_itself (index_by_name rewrites)) cs ++ adds)
      ≡ extended_column n rewrites adds cs
find-extended n rewrites adds [] = refl
find-extended n rewrites adds (c ∷ cs) = ground (
  arith,
  find-extended n rewrites adds cs,
  eq_iff n (name c),
  eq_iff (name (or_itself (index_by_name rewrites) c)) n,
  eq_iff (name c) n,
  name-or_itself rewrites c,
)

-- Which column an extension that succeeds supplies under each name: the rewrite of a column that the input
-- has, the input's own where there is none, and the added one where the input has no such column.
pub extend-column_for_name :
    (s t : TableSchema) (rewrites adds : List Column) (n : String)
    → extend s rewrites adds ≡ ok t
    → column_for_name t n ≡ (
        if has_name n s.columns
        then (elim (lookup n (index_by_name rewrites)) [
          | some w ↦ some w
          | none ↦ column_for_name s n
        ])
        else find (λ c. name c == n) adds)
unfolding extend column_for_name
extend-column_for_name s t rewrites adds n h =
    ap (find_named n) (table_schema-eq-ok _ t h).0 ∙ find-extended n rewrites adds s.columns
