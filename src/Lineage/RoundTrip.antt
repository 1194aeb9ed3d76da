-- ===== src/Lineage/RoundTrip.antt =====
-- A lineage that is written to its sidecar and read back.
use carbonpaper.Lineage.Columns.{every_row-map}
use carbonpaper.Prelude.{
  true, all, ok, ℕ, ◌≡◌, ◌≢◌, refl, ap, ◌∙◌, String, Option, some, none, List, [], ◌∷◌, map, ◌==◌,
  string_eq, eq_iff, get_elem?, get_elem?-map, map-range, All-get_elem?, arith, All, Bool-cases,
  inl, inr,
}
use carbonpaper.Lineage.Row.{RowParent, RowLineage}
use carbonpaper.Lineage.Sidecar.{
  missing, items, as_list, names_cell, file_text, sha_text, write_column, write_table, is_int64,
  to_table, SidecarTable, columns_or_none, text_or_none, read_places, read_parents, cell_of_row,
  parents_of_row, every_row,
}

-- What a sidecar can tell apart and hold: no list of columns is empty, nor a file name or a digest,
-- and the row ordinal fits its column.
pub record IsStorable (p : RowParent) : Type 0 where
  pub some_columns : p.columns ≢ some []
  pub some_file : p.source_file ≢ some ""
  pub some_sha : p.source_file_sha ≢ some ""
  pub fits : is_int64 p.row_ordinal ≡ true

names_back : (p : RowParent) → IsStorable p → columns_or_none (names_cell p) ≡ p.columns
unfolding columns_or_none
names_back p h = by_columns p.columns refl
  where
    by_columns :
        (c : Option (List String)) → p.columns ≡ c → columns_or_none (names_cell p) ≡ p.columns
    by_columns none e = ground arith
    by_columns (some []) e = absurd (h.some_columns e)
    by_columns (some (n ∷ ns)) e = ground arith

text_back : (t : Option String) → t ≢ some "" → text_or_none (elim t [ none ↦ "" | some s ↦ s ]) ≡ t
text_back none h = refl
text_back (some s) h = elim (Bool-cases (s == "")) [
  | inl q ↦ absurd (h (ap some ((eq_iff s "").0 q)))
  | inr q ↦ ground arith
]

places_back :
    (entry : List RowParent)
    → All IsStorable entry
    → read_places
        (map (λ p. p.stage_id) entry)
        (map (λ p. p.row_ordinal) entry)
        (map (λ p. p.kind) entry)
        (map names_cell entry)
        (map file_text entry)
        (map sha_text entry)
      ≡ entry
unfolding read_places
places_back [] h = refl
places_back (p ∷ entry) h = cc (
  names_back p h.0,
  text_back p.source_file h.0.some_file,
  text_back p.source_file_sha h.0.some_sha,
  places_back entry h.1,
)

cell_written :
    {A : Type 0} (field : RowParent → A) (parents : RowLineage) (i : ℕ) (entry : List RowParent)
    → get_elem? parents i ≡ some entry
    → cell_of_row (some (write_column field parents)) i ≡ items (map field entry)
unfolding cell_of_row
cell_written field parents i entry h =
    let written = get_elem?-map (λ e. items (map field e)) parents i in
    let found =
      written ∙ ap (λ o. elim o [ some e ↦ some (items (map field e)) | none ↦ none ]) h in
    ap (λ o. elim o [ some c ↦ c | none ↦ missing ]) found

row_back :
    (parents : RowLineage) (i : ℕ) (entry : List RowParent)
    → All (All IsStorable) parents
    → get_elem? parents i ≡ some entry
    → parents_of_row (write_table parents) i ≡ entry
unfolding parents_of_row read_parents as_list
row_back parents i entry h e =
    rw
      (
        cell_written (λ p. p.stage_id) parents i entry e,
        cell_written (λ p. p.row_ordinal) parents i entry e,
        cell_written (λ p. p.kind) parents i entry e,
        cell_written names_cell parents i entry e,
        cell_written file_text parents i entry e,
        cell_written sha_text parents i entry e,
      )
      (places_back entry (All-get_elem? (All IsStorable) parents i entry h e))

all-fits :
    (entry : List RowParent) → All IsStorable entry → all (λ p. is_int64 p.row_ordinal) entry ≡ true
all-fits [] h = refl
all-fits (p ∷ entry) (h, k) = cc (h.fits, all-fits entry k)

all_fit :
    (parents : RowLineage)
    → All (All IsStorable) parents
    → all (all (λ p. is_int64 p.row_ordinal)) parents ≡ true
all_fit [] h = refl
all_fit (entry ∷ parents) (h, k) = cc (all-fits entry h, all_fit parents k)

-- A lineage is written to a sidecar, and read back from it is that lineage, where no parent has an
-- empty list of columns, an empty file name or an empty digest, and each row ordinal has 64 bits.
pub every_row-to_table :
    (parents : RowLineage)
    → All (All IsStorable) parents
    → (table : SidecarTable) × (to_table parents ≡ ok table) × (every_row table ≡ parents)
unfolding to_table
every_row-to_table parents h = (
  write_table parents,
  rw (all_fit parents h) refl,
  every_row-map (write_table parents)
      ∙ map-range (parents_of_row (write_table parents)) 0 parents (λ i entry e.
        ap (parents_of_row (write_table parents)) (omega arith) ∙ row_back parents i entry h e),
)
