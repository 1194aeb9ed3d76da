-- ===== src/Lineage/Sidecar.antt =====
-- app/runtime/lineage.py: a lineage as a table of list-valued columns, and back.
use Prim.Native.Nat.{◌^◌}
use carbonpaper.Prelude.{
  ℕ, String, Option, some, none, List, [], ◌∷◌, map, ◌==◌, string_eq, length, get_elem?, range, ℤ,
  is_empty, if◌then◌else◌, Bool, zero, suc, pos, negsuc, ltb, all, Result, ok, err,
}
use carbonpaper.Lineage.Row.{RowParent, RowLineage, direct}

-- What one cell of a sidecar can be: no value, one value, or a list.
pub data Cell (A : Type 0) : Type 0 where
  missing : Cell A
  scalar : A → Cell A
  items : List A → Cell A

-- `_as_list`
unfoldable pub as_list : {A : Type 0} → Cell A → List A
as_list missing = []
as_list (scalar a) = a ∷ []
as_list (items xs) = xs

-- A column is its cells, one for each row, or none where the table lacks the column.
pub record SidecarTable : Type 0 where
  pub num_rows : ℕ
  pub stages : Option (List (Cell String))
  pub rows : Option (List (Cell ℤ))
  pub kinds : Option (List (Cell String))
  pub columns : Option (List (Cell (Cell String)))
  pub files : Option (List (Cell String))
  pub shas : Option (List (Cell String))

abbrev or_empty_names : Option (List String) → List String
or_empty_names none = []
or_empty_names (some names) = names

abbrev or_empty_text : Option String → String
or_empty_text none = ""
or_empty_text (some t) = t

abbrev pub write_column : {A : Type 0} → (RowParent → A) → RowLineage → List (Cell A)
write_column field parents = map (λ entry. items (map field entry)) parents

abbrev pub names_cell : RowParent → Cell String
names_cell p = items (or_empty_names p.columns)

abbrev pub file_text : RowParent → String
file_text p = or_empty_text p.source_file

abbrev pub sha_text : RowParent → String
sha_text p = or_empty_text p.source_file_sha

abbrev pub write_table : RowLineage → SidecarTable
write_table parents = record {
  num_rows = length parents;
  stages = some (write_column (λ p. p.stage_id) parents);
  rows = some (write_column (λ p. p.row_ordinal) parents);
  kinds = some (write_column (λ p. p.kind) parents);
  columns = some (write_column names_cell parents);
  files = some (write_column file_text parents);
  shas = some (write_column sha_text parents);
}

-- A row ordinal that the column of `pa.int64()` cannot hold.
pub data OverflowError : Type 0 where
  int_too_large : OverflowError

unfoldable pub is_int64 : ℤ → Bool
is_int64 (pos m) = ltb m (2 ^ 63)
is_int64 (negsuc m) = ltb m (2 ^ 63)

unfoldable pub to_table : RowLineage → Result OverflowError SidecarTable
to_table parents =
    if all (all (λ p. is_int64 p.row_ordinal)) parents
    then ok (write_table parents)
    else err int_too_large

-- `_columns_or_none`
unfoldable pub columns_or_none : Cell String → Option (List String)
unfolding as_list
columns_or_none cell = let names = as_list cell in if is_empty names then none else some names

-- `str(value) or None`
abbrev pub text_or_none : String → Option String
text_or_none t = if t == "" then none else some t

-- `values[k] if k < len(values) else default`, for the k-th place of lists that are read together.
abbrev pub head_or : {A B : Type 0} → (A → B) → B → List A → B
head_or read default [] = default
head_or read default (x ∷ xs) = read x

abbrev pub tail : {A : Type 0} → List A → List A
tail [] = []
tail (x ∷ xs) = xs

unfoldable pub read_places :
    List String
    → List ℤ
    → List String
    → List (Cell String)
    → List String
    → List String
    → List RowParent
unfolding columns_or_none
read_places (stage_id ∷ stage_ids) (row_ordinal ∷ row_ordinals) kinds columns files shas =
    record {
      stage_id = stage_id;
      row_ordinal = row_ordinal;
      kind = head_or (λ k. k) direct kinds;
      columns = head_or columns_or_none none columns;
      source_file = head_or text_or_none none files;
      source_file_sha = head_or text_or_none none shas;
    }
    ∷ read_places stage_ids row_ordinals (tail kinds) (tail columns) (tail files) (tail shas)
read_places _ _ kinds columns files shas = []

unfoldable pub read_parents :
    Cell String
    → Cell ℤ
    → Cell String
    → Cell (Cell String)
    → Cell String
    → Cell String
    → List RowParent
unfolding read_places as_list
read_parents stages rows kinds columns files shas =
    read_places (as_list stages) (as_list rows) (as_list kinds) (as_list columns) (as_list files)
      (as_list shas)

abbrev pub cell_at : {A : Type 0} → List (Cell A) → ℕ → Cell A
cell_at cells index = elim (get_elem? cells index) [ some c ↦ c | none ↦ missing ]

-- The cell of a row, read alone; of a column that the table lacks, no value.
unfoldable pub cell_of_row : {A : Type 0} → Option (List (Cell A)) → ℕ → Cell A
cell_of_row none index = missing
cell_of_row (some cells) index = cell_at cells index

abbrev pub empty_cells : {A : Type 0} → ℕ → List (Cell A)
empty_cells zero = []
empty_cells (suc n) = items [] ∷ empty_cells n

-- A whole column; one that the table lacks reads as an empty list for every row.
unfoldable pub column_cells : {A : Type 0} → Option (List (Cell A)) → ℕ → List (Cell A)
column_cells none num_rows = empty_cells num_rows
column_cells (some cells) num_rows = cells

-- The decoding of one row, by `_cells_of_row`.
unfoldable pub parents_of_row : SidecarTable → ℕ → List RowParent
unfolding read_parents cell_of_row
parents_of_row table index =
    read_parents (cell_of_row table.stages index) (cell_of_row table.rows index)
      (cell_of_row table.kinds index) (cell_of_row table.columns index)
      (cell_of_row table.files index) (cell_of_row table.shas index)

-- The decoding of all rows, by whole columns: `_read_every_row`
unfoldable pub every_row : SidecarTable → RowLineage
unfolding read_parents column_cells
every_row table =
    let stages = column_cells table.stages table.num_rows in
    let rows = column_cells table.rows table.num_rows in
    let kinds = column_cells table.kinds table.num_rows in
    let columns = column_cells table.columns table.num_rows in
    let files = column_cells table.files table.num_rows in
    let shas = column_cells table.shas table.num_rows in
    map
      (λ i.
        read_parents (cell_at stages i) (cell_at rows i) (cell_at kinds i) (cell_at columns i)
          (cell_at files i) (cell_at shas i))
      (range 0 table.num_rows)
