-- ===== src/Reshape/Dedupe.antt =====
-- app/runtime/stages/reshape.py: `handle_dedupe`, up to the rows that it takes.
use carbonpaper.Prelude.{
  ℕ, Bool, true, false, not, ◌&&◌, String, Option, some, none, List, [], ◌∷◌, ◌++◌, map, filter,
  contains, lookup, string_eq, get_elem?, range, is_empty, leb, sorted, pos, Result, ok, err, ◌>>=◌,
  if◌then◌else◌,
}
use carbonpaper.Lineage.Row.{RowLineage, single_parent_lineage}
use carbonpaper.Stage.Blocks.{DedupeKeep, DedupeConfig}
use carbonpaper.Reshape.Agreement.{
  Cells, StepRefused, index_error, key_error, no_ranking_column, refuse_a_disagreeing_group,
}

-- A table: the columns by name.
pub record Frame (A : Type 0) : Type 0 where
  pub num_rows : ℕ
  pub columns : List (String × List A)

pub data Direction : Type 0 where
  ascending descending : Direction

-- The rows of one key: the one that survives, and those that it stands for.
pub record Group (A : Type 0) : Type 0 where
  pub key : List A
  pub winner : ℕ
  pub collapsed : List ℕ

abbrev pub members : {A : Type 0} → Group A → List ℕ
members g = g.winner ∷ g.collapsed

-- The rows that were taken, by ordinal, and where each came from.
pub record Taken : Type 0 where
  pub ordinals : List ℕ
  pub lineage : RowLineage

-- `[f(x) for x in xs]`, for an `f` that may raise.
abbrev pub each : {A B E : Type 0} → (A → Result E B) → List A → Result E (List B)
each f [] = ok []
each f (x ∷ xs) = f x >>= λ y. (each f xs >>= λ ys. ok (y ∷ ys))

module _ {A : Type 0} where
  -- `table.column(name).to_pylist()`
  abbrev pub column_of : Frame A → String → Result (StepRefused A) (List A)
  column_of table name = elim (lookup name table.columns) [
    | some values ↦ ok values
    | none ↦ err (key_error name)
  ]

  abbrev pub cell_at : ℕ → List A → Result (StepRefused A) A
  cell_at ordinal column = elim (get_elem? column ordinal) [
    | some v ↦ ok v
    | none ↦ err index_error
  ]

  -- `[column[ordinal] for column in columns]`
  abbrev pub row_at : List (List A) → ℕ → Result (StepRefused A) (List A)
  row_at columns ordinal = each (cell_at ordinal) columns

  abbrev pub keyed : List (List A) → ℕ → Result (StepRefused A) (List A × ℕ)
  keyed key_columns ordinal = row_at key_columns ordinal >>= λ key. ok (key, ordinal)

  module _ (sort_indices : Frame A → String → Direction → List ℕ) where
    abbrev pub ranking :
        Frame A → Direction → Option String → Result (StepRefused A) (Option (List ℕ))
    ranking table direction none = err no_ranking_column
    ranking table direction (some by) = ok (some (sort_indices table by direction))

    -- `_ranking_for_keep`
    abbrev pub ranking_for_keep :
        Frame A → DedupeKeep → Option String → Result (StepRefused A) (Option (List ℕ))
    ranking_for_keep table DedupeKeep.first by = ok none
    ranking_for_keep table DedupeKeep.agree by = ok none
    ranking_for_keep table DedupeKeep.lowest by = ranking table ascending by
    ranking_for_keep table DedupeKeep.highest by = ranking table descending by

  abbrev pub order_of : Frame A → Option (List ℕ) → List ℕ
  order_of table none = range 0 table.num_rows
  order_of table (some ranked) = ranked

  module _ (cells : Cells A) where
    -- `==` of two tuples
    abbrev pub same_key : List A → List A → Bool
    same_key [] [] = true
    same_key (x ∷ xs) (y ∷ ys) = cells.equals x y && same_key xs ys
    same_key _ _ = false

    -- `groups.setdefault(key, []).append(ordinal)`
    abbrev pub add_to : List A → ℕ → List (Group A) → List (Group A)
    add_to key ordinal [] = record { key = key; winner = ordinal; collapsed = [] } ∷ []
    add_to key ordinal (g ∷ groups) =
        if same_key key g.key
        then record g { collapsed = g.collapsed ++ ordinal ∷ [] } ∷ groups
        else g ∷ add_to key ordinal groups

    abbrev pub group_from : List (Group A) → List (List A × ℕ) → List (Group A)
    group_from groups [] = groups
    group_from groups ((key, ordinal) ∷ rest) = group_from (add_to key ordinal groups) rest

    -- `_group_ordinals`
    abbrev pub group_ordinals :
        Frame A → List String → Option (List ℕ) → Result (StepRefused A) (List (Group A))
    group_ordinals table keys ranked = each (column_of table) keys >>= λ key_columns.
        (each (keyed key_columns) (order_of table ranked) >>= λ rows. ok (group_from [] rows))

    abbrev Checked : Type 0
    Checked = Result {0, 0} (StepRefused A) Unit

    -- A group of one row is passed over.
    abbrev pub group_agrees : List (List A) → List String → Group A → Checked
    group_agrees columns carried g =
        if is_empty g.collapsed
        then ok tt
        else (each (row_at columns) (members g) >>= λ rows.
            refuse_a_disagreeing_group cells rows carried)

    abbrev pub groups_agree : List (List A) → List String → List (Group A) → Checked
    groups_agree columns carried [] = ok tt
    groups_agree columns carried (g ∷ groups) =
        group_agrees columns carried g >>= λ _. groups_agree columns carried groups

    abbrev pub carried_names : Frame A → List String → List String
    carried_names table keys =
        filter (λ name. not (contains keys name)) (map (λ c. c.0) table.columns)

    -- `_refuse_a_disagreeing_group`
    abbrev pub refuse_disagreeing_groups : Frame A → List String → List (Group A) → Checked
    refuse_disagreeing_groups table keys groups =
        let carried = carried_names table keys in
        if is_empty carried
        then ok tt
        else (each (column_of table) carried >>= λ columns. groups_agree columns carried groups)

    abbrev pub refuse_if_agree : DedupeKeep → Frame A → List String → List (Group A) → Checked
    refuse_if_agree DedupeKeep.agree table keys groups = refuse_disagreeing_groups table keys groups
    refuse_if_agree _ table keys groups = ok tt

    abbrev pub taken : String → List (Group A) → Taken
    taken input_id groups =
        let kept_in_input_order = sorted leb (map (λ g. g.winner) groups) in
        record {
          ordinals = kept_in_input_order;
          lineage = single_parent_lineage input_id (map pos kept_in_input_order);
        }

    unfoldable pub handle_dedupe :
        (Frame A → String → Direction → List ℕ)
        → DedupeConfig
        → String
        → Frame A
        → Result (StepRefused A) Taken
    handle_dedupe sort_indices config input_id table = do
      ranked ← ranking_for_keep sort_indices table config.keep config.by
      groups ← group_ordinals table config.keys ranked
      _ ← refuse_if_agree config.keep table config.keys groups
      ok (taken input_id groups)
