-- ===== src/Lineage/Row.antt =====
-- app/runtime/lineage.py: `RowParent`, `RowLineage`, and the lineages that the stages record.
use carbonpaper.Prelude.{
  ℕ, zero, suc, String, Option, some, none, List, [], ◌∷◌, ◌++◌, map, find, ◌==◌, string_eq, length,
  take, drop, range, ℤ, pos, int_leb, sorted, ◌+ℕ◌, if◌then◌else◌, nat_eq,
}

-- The values of `EdgeKind`.
abbrev pub direct : String
direct = "direct"

abbrev pub contribution : String
contribution = "contribution"

pub record RowParent : Type 0 where
  pub stage_id : String
  pub row_ordinal : ℤ
  pub kind : String
  pub columns : Option (List String)
  pub source_file : Option String
  pub source_file_sha : Option String

-- `RowParent(stage_id, row_ordinal)`
abbrev pub row_parent : String → ℤ → RowParent
row_parent stage_id row_ordinal = record {
  stage_id = stage_id;
  row_ordinal = row_ordinal;
  kind = direct;
  columns = none;
  source_file = none;
  source_file_sha = none;
}

-- `RowLineage.parents`: the parents of each output row.
abbrev pub RowLineage : Type 0
RowLineage = List (List RowParent)

abbrev pub ordinal_from : String → List RowParent → Option ℤ
ordinal_from stage_id entry = elim (find (λ p. p.stage_id == stage_id) entry) [
  | some p ↦ some p.row_ordinal
  | none ↦ none
]

unfoldable pub read_parent_ordinals : String → RowLineage → List (Option ℤ)
read_parent_ordinals stage_id parents = map (ordinal_from stage_id) parents

abbrev pub shift_parent : ℕ → RowParent → RowParent
shift_parent offset p = record p { row_ordinal = p.row_ordinal +ℕ offset }

unfoldable pub shifted : ℕ → RowLineage → RowLineage
shifted offset parents = if offset == 0 then parents else map (map (shift_parent offset)) parents

-- `self.parents[start:end]`, for a start and a length that are not negative.
unfoldable pub sliced : ℕ → Option ℕ → RowLineage → RowLineage
sliced start none parents = drop start parents
sliced start (some count) parents = take count (drop start parents)

unfoldable pub single_parent_lineage : String → List ℤ → RowLineage
single_parent_lineage source_stage_id source_rows =
    map (λ r. row_parent source_stage_id r ∷ []) source_rows

unfoldable pub kept_rows_lineage : String → List ℤ → RowLineage
unfolding single_parent_lineage
kept_rows_lineage source_stage_id kept_indices = single_parent_lineage source_stage_id kept_indices

-- The rows of one input, which are counted from the first row of the window.
abbrev pub rows_of_input : ℕ → String × ℕ → RowLineage
rows_of_input first_row_ordinal (input, rows) =
    map (λ r. row_parent input (pos r) ∷ []) (range first_row_ordinal rows)

-- An input is its stage's id with the number of its rows.
unfoldable pub concatenated_inputs_lineage : List (String × ℕ) → ℕ → RowLineage
concatenated_inputs_lineage [] first_row_ordinal = []
concatenated_inputs_lineage (input ∷ inputs) first_row_ordinal =
    rows_of_input first_row_ordinal input ++ concatenated_inputs_lineage inputs first_row_ordinal

-- One output row of a merge: the inputs that have an ordinal in it, in order.
unfoldable pub merged_entry : List (String × Option ℤ) → List RowParent
merged_entry [] = []
merged_entry ((stage_id, some ordinal) ∷ rest) = row_parent stage_id ordinal ∷ merged_entry rest
merged_entry ((stage_id, none) ∷ rest) = merged_entry rest

-- `zip(*columns)`, which ends with the shortest column; with no column there is no row. The bound
-- is the length of the first column.
abbrev pub heads :
    {A : Type 0} → List (String × List A) → Option (List (String × A) × List (String × List A))
heads [] = some ([], [])
heads ((stage_id, []) ∷ rest) = none
heads ((stage_id, x ∷ xs) ∷ rest) = elim (heads rest) [
  | none ↦ none
  | some (row, tails) ↦ some ((stage_id, x) ∷ row, (stage_id, xs) ∷ tails)
]

unfoldable pub zip_rows : {A : Type 0} → ℕ → List (String × List A) → List (List (String × A))
zip_rows zero inputs = []
zip_rows (suc bound) inputs = elim (heads inputs) [
  | none ↦ []
  | some (row, tails) ↦ row ∷ zip_rows bound tails
]

abbrev pub first_length : {A : Type 0} → List (String × List A) → ℕ
first_length [] = 0
first_length ((stage_id, xs) ∷ rest) = length xs

unfoldable pub merged_inputs_lineage : List (String × List (Option ℤ)) → RowLineage
unfolding merged_entry zip_rows
merged_inputs_lineage inputs = map merged_entry (zip_rows (first_length inputs) inputs)

-- The rows that fed one output row, each once with the columns that it fed, in row order.
abbrev pub contributions_of_row : String → List (ℤ × List String) → List RowParent
contributions_of_row source_stage_id row_contributors =
    map
      (λ (ordinal, columns). record (row_parent source_stage_id ordinal) {
        kind = contribution;
        columns = some columns;
      })
      (sorted (λ p q. int_leb p.0 q.0) row_contributors)

-- The contributors of each output row are a dictionary from ordinals to columns.
unfoldable pub grouped_contributions_lineage : String → List (List (ℤ × List String)) → RowLineage
grouped_contributions_lineage source_stage_id contributors =
    map (contributions_of_row source_stage_id) contributors
