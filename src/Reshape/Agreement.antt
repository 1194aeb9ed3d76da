-- ===== src/Reshape/Agreement.antt =====
-- app/runtime/stages/agreement.py: a value that the rows of a group agree on, or a refusal.
use carbonpaper.Prelude.{
  ℕ, suc, Bool, ◌||◌, String, Option, some, none, List, [], ◌∷◌, ◌++◌, any, get_elem?, string_eq,
  ◌==◌, Result, ok, err, if◌then◌else◌,
}

-- What Python does with the values of cells: `==`, `str`, and which of them are containers.
pub record Cells (A : Type 0) : Type 0 where
  pub equals : A → A → Bool
  pub str : A → String
  pub is_container : A → Bool

pub data StepRefused (A : Type 0) : Type 0 where
  disagreement : (column : String) (values : List A) → StepRefused A
  -- a row without a cell, a column that the table lacks, and a `by` that is not given
  index_error : StepRefused A
  key_error : String → StepRefused A
  no_ranking_column : StepRefused A

module _ {A : Type 0} (cells : Cells A) where
  -- `_same`
  unfoldable pub same : A → A → Bool
  same left right =
      if cells.is_container left || cells.is_container right
      then cells.str left == cells.str right
      else cells.equals left right

  abbrev pub distinct_from : List A → List A → List A
  distinct_from seen [] = seen
  distinct_from seen (v ∷ vs) =
      distinct_from (if any (same v) seen then seen else seen ++ v ∷ []) vs

  -- `_distinct`
  abbrev pub distinct : List A → List A
  distinct values = distinct_from [] values

  abbrev pub agreed_value : String → List A → Result (StepRefused A) (Option A)
  agreed_value column [] = ok none
  agreed_value column (v ∷ []) = ok (some v)
  agreed_value column (v ∷ w ∷ vs) = err (disagreement column (v ∷ w ∷ vs))

  unfoldable pub take_the_agreed_value : List A → String → Result (StepRefused A) (Option A)
  take_the_agreed_value present column = agreed_value column (distinct present)

  abbrev Checked : Type 0
  Checked = Result {0, 0} (StepRefused A) Unit

  -- `[row[position] for row in rows]`
  abbrev pub column_at : ℕ → List (List A) → Option (List A)
  column_at position [] = some []
  column_at position (row ∷ rows) = elim (get_elem? row position) [
    | none ↦ none
    | some v ↦ (elim (column_at position rows) [ none ↦ none | some vs ↦ some (v ∷ vs) ])
  ]

  abbrev pub one_value : String → List A → Checked → Checked
  one_value column (v ∷ w ∷ vs) rest = err (disagreement column (v ∷ w ∷ vs))
  one_value column _ rest = rest

  abbrev pub column_agrees : String → Option (List A) → Checked → Checked
  column_agrees column none rest = err index_error
  column_agrees column (some values) rest = one_value column (distinct values) rest

  abbrev pub refuse_from : ℕ → List (List A) → List String → Checked
  refuse_from position rows [] = ok tt
  refuse_from position rows (column ∷ columns) =
      column_agrees column (column_at position rows) (refuse_from (suc position) rows columns)

  unfoldable pub refuse_a_disagreeing_group : List (List A) → List String → Checked
  refuse_a_disagreeing_group rows columns = refuse_from 0 rows columns
