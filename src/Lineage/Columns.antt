-- ===== src/Lineage/Columns.antt =====
-- The two ways in which a sidecar's reader decodes: whole columns, or the cells of one row.
use carbonpaper.Prelude.{ℕ, zero, suc, ◌≡◌, refl, Option, none, some, List, [], ◌∷◌, map, range}
use carbonpaper.Lineage.Sidecar.{
  Cell, SidecarTable, as_list, cell_at, cell_of_row, empty_cells, column_cells, read_parents,
  parents_of_row, every_row,
}

as_list-empty_cells : {A : Type 0} (n i : ℕ) → as_list (cell_at (empty_cells {A = A} n) i) ≡ []
unfolding as_list
as_list-empty_cells {A} zero i = refl
as_list-empty_cells {A} (suc n) zero = refl
as_list-empty_cells {A} (suc n) (suc i) = as_list-empty_cells {A = A} n i

-- A cell that is read alone holds the list that it holds in its column.
as_list-cell_of_row :
    {A : Type 0} (column : Option (List (Cell A))) (n i : ℕ)
    → as_list (cell_at (column_cells column n) i) ≡ as_list (cell_of_row column i)
unfolding as_list cell_of_row column_cells
as_list-cell_of_row {A} none n i = as_list-empty_cells {A = A} n i
as_list-cell_of_row (some cells) n i = refl

-- Reading whole columns decodes each row as reading it alone does.
pub every_row-map :
    (table : SidecarTable) → every_row table ≡ map (parents_of_row table) (range 0 table.num_rows)
unfolding every_row parents_of_row read_parents
every_row-map table = by_places (range 0 table.num_rows)
  where
    n : ℕ
    n = table.num_rows

    by_places :
        (is : List ℕ)
        → map
            (λ i.
              read_parents
                (cell_at (column_cells table.stages n) i)
                (cell_at (column_cells table.rows n) i)
                (cell_at (column_cells table.kinds n) i)
                (cell_at (column_cells table.columns n) i)
                (cell_at (column_cells table.files n) i)
                (cell_at (column_cells table.shas n) i))
            is
          ≡ map (parents_of_row table) is
    by_places [] = refl
    by_places (i ∷ is) = cc (
      as_list-cell_of_row table.stages n i,
      as_list-cell_of_row table.rows n i,
      as_list-cell_of_row table.kinds n i,
      as_list-cell_of_row table.columns n i,
      as_list-cell_of_row table.files n i,
      as_list-cell_of_row table.shas n i,
      by_places is,
    )
