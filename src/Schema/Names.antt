-- ===== src/Schema/Names.antt =====
-- Lemmas on column names: duplicates, and lookups in `index_by_name`.
use carbonpaper.Prelude.{
  Bool, true, false, not, ◌&&◌, String, none, some, List, [], ◌∷◌, map, ◌≡◌, refl, arith, ◌↔◌,
  string_eq, eq_iff, contains, all, is_unique, lookup, lookup_last, lookup-dict_of, ok,
}
use carbonpaper.Schema.Column.{Column, name}
use carbonpaper.Schema.Spec.{named_pairs, index_by_name, has_name}
use carbonpaper.Schema.Table.{TableSchema, find_duplicate, table_schema}

abbrev none_seen : List String → List Column → Bool
none_seen seen cs = all (λ c. not (contains seen (name c))) cs

none_seen-cons :
    (n : String) (seen : List String) (cs : List Column)
    → none_seen (n ∷ seen) cs ≡ (not (has_name n cs) && none_seen seen cs)
none_seen-cons n seen [] = refl
none_seen-cons n seen (c ∷ cs) =
    ground (arith, none_seen-cons n seen cs, eq_iff n (name c), eq_iff (name c) n)

find_duplicate-none :
    (seen : List String) (cs : List Column)
    → (find_duplicate seen cs ≡ none) ↔ ((none_seen seen cs && is_unique (map name cs)) ≡ true)
unfolding find_duplicate
find_duplicate-none seen [] = (λ _. refl, λ _. refl)
find_duplicate-none seen (c ∷ cs) =
    ground (arith, find_duplicate-none (name c ∷ seen) cs, none_seen-cons (name c) seen cs)

all_none_seen : (cs : List Column) → none_seen [] cs ≡ true
all_none_seen [] = refl
all_none_seen (c ∷ cs) = all_none_seen cs

-- A schema can be built exactly from columns whose names differ.
pub table_schema-ok :
    (cs : List Column)
    → is_unique (map name cs) ≡ true
    → table_schema cs ≡ ok (record { columns = cs; estimated_rows = none; notes = none })
unfolding table_schema
table_schema-ok cs h = ground (arith, find_duplicate-none [] cs, all_none_seen cs)

pub table_schema-eq-ok :
    (cs : List Column) (t : TableSchema)
    → table_schema cs ≡ ok t
    → (t.columns ≡ cs) × (is_unique (map name cs) ≡ true)
unfolding table_schema
table_schema-eq-ok cs t h = ground (arith, find_duplicate-none [] cs, all_none_seen cs)

-- What a lookup by name answers carries the name.
lookup_last-name :
    (n : String) (cs : List Column) (c : Column)
    → lookup_last n (named_pairs cs) ≡ some c
    → (name c ≡ n) × (has_name n cs ≡ true)
lookup_last-name n [] c h = cc
lookup_last-name n (d ∷ cs) c h = ground (arith, lookup_last-name n cs c, eq_iff n (name d))

pub lookup-index-name :
    (n : String) (cs : List Column) (c : Column)
    → lookup n (index_by_name cs) ≡ some c
    → (name c ≡ n) × (has_name n cs ≡ true)
lookup-index-name n cs c h = lookup_last-name n cs c (rw lookup-dict_of at h)

lookup_last-none :
    (n : String) (cs : List Column) → lookup_last n (named_pairs cs) ≡ none → has_name n cs ≡ false
lookup_last-none n [] h = refl
lookup_last-none n (d ∷ cs) h = ground (arith, lookup_last-none n cs)

pub lookup-index-none :
    (n : String) (cs : List Column) → lookup n (index_by_name cs) ≡ none → has_name n cs ≡ false
lookup-index-none n cs h = lookup_last-none n cs (rw lookup-dict_of at h)
