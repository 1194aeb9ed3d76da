-- ===== src/Executor/Window.antt =====
-- app/runtime/executor.py: the window of rows that a run asks a stage to read, and the lineage of
-- what it then makes.
pub mod Read
use carbonpaper.Prelude.{
  ℕ, String, Bool, true, false, ◌&&◌, not, Option, some, none, List, [], ◌∷◌, map, lookup,
  string_eq, nat_eq, ◌==◌, length, take, drop, range, ltb, is_empty, is_none, ℤ, pos, if◌then◌else◌,
}
use carbonpaper.Lineage.Row.{
  RowLineage, sliced, shifted, concatenated_inputs_lineage, kept_rows_lineage,
}
use carbonpaper.Signature.{WorkflowStageInput}
use carbonpaper.Stage.{type_of}
use carbonpaper.Stage.Kind.{StageType, is_grain_and_order_preserving}
use carbonpaper.Workflow.Resolve.{WorkflowStage}
use carbonpaper.Executor.Records.{
  Table, StageOutput, StageRecord, RowSource, skipped_rows, read_rows, add_note,
}

-- app/models/run_parameters.py: the row windows of `RunParameters`, by stage id.
pub record RunParameters : Type 0 where
  pub limits : List (String × ℤ)
  pub offsets : List (String × ℤ)

pub record RowWindow : Type 0 where
  pub start : ℕ
  pub cap : Option ℕ

abbrev pub start_of : Option ℤ → ℕ
start_of (some (pos n)) = n
start_of _ = 0

abbrev pub cap_of : Option ℤ → Option ℕ
cap_of (some (pos n)) = some n
cap_of _ = none

unfoldable pub resolve_row_window : WorkflowStage → RunParameters → RowWindow
resolve_row_window ws params = record {
  start = start_of (lookup ws.stage.id params.offsets);
  cap = cap_of (lookup ws.stage.id params.limits);
}

abbrev pub min : ℕ → ℕ → ℕ
min a b = if ltb a b then a else b

abbrev pub is_union : StageType → Bool
is_union StageType.union = true
is_union _ = false

module _ {Row : Type 0} where
  -- `table.slice(start)`
  abbrev pub slice_from : ℕ → Table Row → Table Row
  slice_from start t = record t { rows = drop start t.rows }

  -- `table.slice(0, count)`
  abbrev pub slice_to : ℕ → Table Row → Table Row
  slice_to count t = record t { rows = take count t.rows }

  -- `len(inputs[ref.id])` of each input, in order.
  abbrev pub input_lengths : List WorkflowStageInput → List (String × Table Row) → List (String × ℕ)
  input_lengths refs inputs =
      map (λ ref. (ref.id, elim (lookup ref.id inputs) [ some t ↦ length t.rows | none ↦ 0 ])) refs

  unfoldable pub sliced_input_lineage : WorkflowStage → Table Row → RowWindow → Option RowLineage
  unfolding is_grain_and_order_preserving
  sliced_input_lineage ws output window =
      if window.start == 0 && is_none window.cap
      then none
      else if not (is_grain_and_order_preserving (type_of ws.stage))
      then none
      else elim ws.inputs [
        | input ∷ [] ↦
            some (kept_rows_lineage input.id (map pos (range window.start (length output.rows))))
        | _ ↦ none
      ]

module _ {Row Usage : Type 0} where
  abbrev pub skip_rows :
      Table Row → ℕ → RowSource → StageRecord Usage → Table Row × StageRecord Usage
  skip_rows table start source r =
      let total = length table.rows in
      if ltb 0 start && ltb 0 total
      then (slice_from start table, add_note r (skipped_rows start (min start total) total source))
      else (table, r)

  abbrev pub cap_rows :
      Option ℕ → RowSource → Table Row × StageRecord Usage → Table Row × StageRecord Usage
  cap_rows none source (table, r) = (table, r)
  cap_rows (some cap) source (table, r) =
      let total = length table.rows in
      if ltb cap total
      then (slice_to cap table, add_note r (read_rows cap total source))
      else (table, r)

  -- The cut table, with the record that notes each cut taken.
  unfoldable pub take_row_window :
      Table Row → RowWindow → RowSource → StageRecord Usage → Table Row × StageRecord Usage
  take_row_window table window source r =
      cap_rows window.cap source (skip_rows table window.start source r)

  unfoldable pub stage_row_lineage :
      WorkflowStage
      → StageOutput Row Usage
      → List (String × Table Row)
      → RowWindow
      → Option RowLineage
  unfolding sliced_input_lineage
  stage_row_lineage ws output inputs window = elim output.lineage [
    | some lineage ↦
        if is_empty ws.inputs
        then some (sliced window.start window.cap lineage)
        else some (shifted window.start lineage)
    | none ↦
        if is_union (type_of ws.stage)
        then some (concatenated_inputs_lineage (input_lengths ws.inputs inputs) window.start)
        else sliced_input_lineage ws output.table window
  ]
