-- ===== src/Trace/Walk.antt =====
-- app/runtime/trace.py: the loop of `trace_row_from`, one stage at a time.
use carbonpaper.Prelude.{
  ℕ, zero, suc, String, Bool, true, false, not, Option, some, none, List, [], ◌∷◌, contains, keys,
  lookup, string_eq, nat_eq, ◌==◌, ℤ, if◌then◌else◌, Result, ok, err, ◌>>=◌,
}
use carbonpaper.Lineage.Row.{RowParent}
use carbonpaper.Stage.Kind.{StageType}
use carbonpaper.Trace.Frames.{
  StageRecord, Table, RunFrames, parents_of, is_row_preserving, origin_of, lineage_hops,
  split_spine, new_columns, columns_parent_id,
}
use carbonpaper.Trace.FanIn.{
  RowSampleChoice, TraceError, stage_not_in_run, row_out_of_range, key_error, find_fan_in,
  sample_from_fan_in, read_row_sample,
}
use carbonpaper.Trace.Step.{
  Manifest, Next, StageTransform, Trace, Turn, Walked, after_turn, ended, file_of, file_row,
  finished, follow, hop, in_range, is_input_data, lineage_parent_not_in_run,
  manifest_parent_not_in_run, no_input_edge, not_preserving, or_no_hops, output_missing,
  parent_row_out_of_range, recorded, row_count_differs, rows_originate_here, stop, stops,
  summarizes_nothing,
}

module _ (manifest : Manifest) (frames : RunFrames) where
  abbrev pub is_in_run : String → Bool
  is_in_run sid = contains (keys manifest.by_id) sid

  abbrev pub hop_into : String → RowParent → Option Table → Next
  hop_into sid spine none = stop (stops spine.stage_id output_missing)
  hop_into sid spine (some table) =
      if in_range spine.row_ordinal table.num_rows
      then hop spine.stage_id spine.row_ordinal
      else stop (stops sid parent_row_out_of_range)

  unfoldable pub advance_via_lineage : String → RowParent → Next
  advance_via_lineage sid spine =
      if not (is_in_run spine.stage_id)
      then stop (stops sid lineage_parent_not_in_run)
      else hop_into sid spine (frames.output spine.stage_id)

  abbrev pub stay_at_row : String → String → ℤ → Table → Option Table → Next
  stay_at_row sid parent_id r table none = stop (stops parent_id output_missing)
  stay_at_row sid parent_id r table (some parent_table) =
      if not (parent_table.num_rows == table.num_rows)
      then stop (stops sid row_count_differs)
      else hop parent_id r

  unfoldable pub advance_positionally : String → String → ℤ → Table → Next
  advance_positionally sid parent_id r table =
      if not (is_in_run parent_id)
      then stop (stops sid manifest_parent_not_in_run)
      else stay_at_row sid parent_id r table (frames.output parent_id)

  -- With nothing recorded, the row of the same place in the only input.
  abbrev pub advance_unrecorded : String → Option StageType → ℤ → Table → List String → Next
  advance_unrecorded sid type r table [] = stop (stops sid no_input_edge)
  advance_unrecorded sid type r table (parent ∷ []) =
      if not (is_row_preserving type)
      then stop (stops sid (not_preserving type))
      else advance_positionally sid parent r table
  advance_unrecorded sid type r table (parent ∷ _ ∷ _) = stop (stops sid (not_preserving type))

  abbrev pub advance_recorded :
      String
      → Option StageType
      → ℤ
      → Table
      → List String
      → Option RowParent
      → Option (List RowParent)
      → Option RowParent
      → Next
  advance_recorded sid type r table parents (some spine) fan_in followed =
      advance_via_lineage sid spine
  advance_recorded sid type r table parents none fan_in (some followed) =
      advance_via_lineage sid followed
  advance_recorded sid type r table parents none (some fan_in) none =
      stop (stops sid summarizes_nothing)
  advance_recorded sid type r table parents none none none =
      advance_unrecorded sid type r table parents

  unfoldable pub advance :
      String
      → Option StageType
      → ℤ
      → Table
      → List String
      → Option RowParent
      → Option (List RowParent)
      → Option RowParent
      → Next
  unfolding advance_via_lineage advance_positionally
  advance sid type r table parents spine fan_in followed =
      if is_input_data type
      then stop (record { reached_origin = true; at_stage = sid; message = rows_originate_here })
      else advance_recorded sid type r table parents spine fan_in followed

  abbrev columns_parent : Option String → Option Table
  columns_parent none = none
  columns_parent (some id) = if is_in_run id then frames.output id else none

  abbrev pub record_step :
      String
      → StageRecord
      → ℤ
      → Table
      → List RowParent
      → Option RowParent
      → Option (List RowParent)
      → Option RowParent
      → StageTransform
  record_step sid stage_record r table branches spine fan_in followed =
      let parents = parents_of stage_record in
      record {
        stage_id = sid;
        stage_type = stage_record.type;
        row_ordinal = r;
        columns_new = new_columns table (columns_parent (columns_parent_id parents spine));
        origin = origin_of stage_record.type;
        branches = branches;
        source_file = file_of spine;
        source_row = file_row spine;
        source_file_count = lookup sid manifest.files_read;
        sampled = read_row_sample fan_in followed;
      }

  abbrev pub turn_at_row :
      String → StageRecord → ℤ → Table → List RowSampleChoice → Result TraceError Turn
  turn_at_row sid stage_record r table pending =
      let hops = lineage_hops frames sid r in
      let (spine, branches) = split_spine (or_no_hops hops) in
      let fan_in = find_fan_in stage_record.type spine hops in
      follow sid fan_in pending >>= λ (followed, left). ok (
        recorded (record_step sid stage_record r table branches spine fan_in followed)
          (advance sid stage_record.type r table (parents_of stage_record) spine fan_in followed)
          left)

  -- Whether the row is one of the table's is decided before anything is read.
  abbrev pub turn_if_in_range :
      String → StageRecord → ℤ → List RowSampleChoice → Table → Bool → Result TraceError Turn
  turn_if_in_range sid stage_record r pending table true =
      turn_at_row sid stage_record r table pending
  turn_if_in_range sid stage_record r pending table false = err (row_out_of_range sid r)

  abbrev pub turn_in_stage :
      String → StageRecord → ℤ → List RowSampleChoice → Option Table → Result TraceError Turn
  turn_in_stage sid stage_record r pending none = ok (ended (stops sid output_missing) pending)
  turn_in_stage sid stage_record r pending (some table) =
      turn_if_in_range sid stage_record r pending table (in_range r table.num_rows)

  abbrev pub turn_of_record :
      String → ℤ → List RowSampleChoice → Option StageRecord → Result TraceError Turn
  turn_of_record sid r pending none = err (key_error sid)
  turn_of_record sid r pending (some stage_record) =
      turn_in_stage sid stage_record r pending (frames.output sid)

  unfoldable pub turn : String → ℤ → List RowSampleChoice → Result TraceError Turn
  unfolding advance parents_of is_row_preserving origin_of lineage_hops split_spine new_columns
      columns_parent_id find_fan_in sample_from_fan_in read_row_sample
  turn sid r pending = turn_of_record sid r pending (lookup sid manifest.by_id)

  -- The loop, on fuel: `none` is a walk that has not ended.
  unfoldable pub walk : ℕ → String → ℤ → List RowSampleChoice → Option Walked
  unfolding turn
  walk zero sid r pending = none
  walk (suc fuel) sid r pending = after_turn (walk fuel) (turn sid r pending)

  unfoldable pub trace_row_from :
      ℕ → String → ℤ → List RowSampleChoice → Option (Result TraceError Trace)
  trace_row_from fuel sid r choices =
      if not (is_in_run sid)
      then some (err (stage_not_in_run sid))
      else (elim (walk fuel sid r choices) [ none ↦ none | some w ↦ some (finished sid r w) ])
