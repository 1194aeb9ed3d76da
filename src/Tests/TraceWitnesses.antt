-- ===== src/Tests/TraceWitnesses.antt =====
-- The theorems on traces, lineages and recorded branches at a small run.
use carbonpaper.Prelude.{
  ℕ, suc, zero, ◌+◌, ◌<◌, ◌≤◌, ◌≡◌, refl, sym, ap, ◌∙◌, subst, String, Bool, true, false, Option,
  some, none, List, [], ◌∷◌, map, ℤ, pos, negsuc, int_eq, nat_eq, string_eq, ◌==◌, eq_iff,
  if◌then◌else◌, Result, ok, All, arith, lookup, length, get_elem?, ◌⊎◌,
}
use carbonpaper.Lineage.Row.{
  RowParent, row_parent, RowLineage, contribution, read_parent_ordinals, merged_inputs_lineage,
  concatenated_inputs_lineage,
}
use carbonpaper.Lineage.Sidecar.{SidecarTable, is_int64, write_table, to_table, every_row}
use carbonpaper.Lineage.RoundTrip.{IsStorable, every_row-to_table}
use carbonpaper.Lineage.Reader.{open_sidecar, get_item, list_index}
use carbonpaper.Lineage.Coherent.{IsCoherent, IsCoherent-open_sidecar, get_item-IsCoherent}
use carbonpaper.Lineage.Merged.{first_given, read_parent_ordinals-merged}
use carbonpaper.Lineage.Moves.{concatenated_inputs_lineage-at}
use carbonpaper.Branches.Recorder.{BranchRecorder, new_recorder, run_rows, rows_kept}
use carbonpaper.Branches.Recorded.{run_rows-rows_kept}
use carbonpaper.Stage.Kind.{StageType}
use carbonpaper.Trace.Frames.{StageRecord, Table, RunFrames, parents_of, lineage_hops, parents_at}
use carbonpaper.Trace.FanIn.{RowSampleChoice, TraceError, read_row_sample, sample_from_fan_in}
use carbonpaper.Trace.Step.{Manifest, output_missing, Trace, follow}
use carbonpaper.Trace.Walk.{walk, trace_row_from}
use carbonpaper.Trace.Landing.{IsRow}
use carbonpaper.Trace.Traced.{IsRanked, trace_row_from-total}
use carbonpaper.Trace.Sampled.{read_row_sample-bounds}

abbrev fed_by : ℕ → RowParent
fed_by row = record {
  stage_id = "people";
  row_ordinal = pos row;
  kind = contribution;
  columns = some ("total" ∷ []);
  source_file = none;
  source_file_sha = none;
}

-- One row that summarizes the two rows of a source.
abbrev totals : RowLineage
totals = (fed_by 1 ∷ fed_by 0 ∷ []) ∷ []

abbrev people_record : StageRecord
people_record = record { stage_id = "people"; type = some StageType.input_data; phases = [] }

abbrev total_record : StageRecord
total_record = record {
  stage_id = "total";
  type = some StageType.aggregate;
  phases = "input:people" ∷ "output" ∷ [];
}

abbrev run_manifest : Manifest
run_manifest = record {
  by_id = ("people", people_record) ∷ ("total", total_record) ∷ [];
  files_read = ("people", 1) ∷ [];
}

abbrev people_table : Table
people_table = record { num_rows = 2; column_names = "age" ∷ "city" ∷ [] }

abbrev total_table : Table
total_table = record { num_rows = 1; column_names = "total" ∷ [] }

abbrev run_frames : RunFrames
run_frames = record {
  output = λ id.
      if id == "people"
      then some people_table
      else if id == "total"
      then some total_table
      else none;
  lineage = λ id. if id == "total" then some totals else none;
}

abbrev place_in_run : String → ℕ
place_in_run id = if id == "people" then 0 else 1

fed_by_people :
    (r : ℤ) (hops : List RowParent)
    → parents_at totals r ≡ some hops
    → All (λ p. place_in_run p.stage_id < 1) hops
fed_by_people (pos zero) hops e =
    subst (All (λ p. place_in_run p.stage_id < 1)) (some_inj e) (omega arith)
  where
    some_inj : {a b : List RowParent} → ◌≡◌ {A = Option (List RowParent)} (some a) (some b) → a ≡ b
    some_inj f = cc
fed_by_people (pos (suc r)) hops e = cc
fed_by_people (negsuc r) hops e = cc

ranked_lineage :
    (b : Bool) (sid : String) (r : ℤ) (hops : List RowParent)
    → (sid == "total") ≡ b
    → (elim (if b then some totals else none) [ none ↦ none | some parents ↦ parents_at parents r ])
      ≡ some hops
    → All (λ p. place_in_run p.stage_id < place_in_run sid) hops
ranked_lineage false sid r hops q e = cc
ranked_lineage true sid r hops q e =
    subst (λ s. All (λ p. place_in_run p.stage_id < place_in_run s) hops)
      (sym ((eq_iff sid "total").0 q)) (fed_by_people r hops e)

ranked_manifest :
    (b c : Bool) (sid : String) (stage_record : StageRecord) (parent : String)
    → (sid == "people") ≡ b
    → (sid == "total") ≡ c
    → (if b then some people_record else if c then some total_record else none) ≡ some stage_record
    → parents_of stage_record ≡ parent ∷ []
    → place_in_run parent < place_in_run sid
unfolding parents_of
ranked_manifest true c sid stage_record parent q t e f = absurd-of (ap parents_of (some_inj e) ∙ f)
  where
    some_inj : {a b : StageRecord} → ◌≡◌ {A = Option StageRecord} (some a) (some b) → a ≡ b
    some_inj g = cc

    absurd-of : [] ≡ parent ∷ [] → place_in_run parent < place_in_run sid
    absurd-of g = cc
ranked_manifest false false sid stage_record parent q t e f = cc
ranked_manifest false true sid stage_record parent q t e f =
    subst (λ s. place_in_run s < place_in_run sid) (head_inj (ap parents_of (some_inj e) ∙ f))
      (subst (λ s. 0 < place_in_run s) (sym ((eq_iff sid "total").0 t)) (omega arith))
  where
    some_inj : {a b : StageRecord} → ◌≡◌ {A = Option StageRecord} (some a) (some b) → a ≡ b
    some_inj g = cc

    head_inj : {s : String} → "people" ∷ [] ≡ s ∷ [] → "people" ≡ s
    head_inj g = cc

run-IsRanked : IsRanked run_manifest run_frames place_in_run
unfolding lineage_hops
run-IsRanked = record {
  by_lineage = λ sid r hops e. ranked_lineage (sid == "total") sid r hops refl e;
  by_manifest = λ sid stage_record parent e f.
      ranked_manifest (sid == "people") (sid == "total") sid stage_record parent refl refl e f;
}

-- The second of the rows that the total summarizes.
abbrev second_chosen : List RowSampleChoice
second_chosen = record { stage_id = "people"; row_ordinal = pos 1 } ∷ []

trace_row_from-total_example :
    (answer : Result TraceError Trace) × (trace_row_from run_manifest run_frames 2 "total"
        (pos 0)
        second_chosen
      ≡ some answer)
    × (second_chosen ≡ []
        → IsRow run_manifest run_frames "total" (pos 0)
        → (trace : Trace) × (answer ≡ ok trace))
trace_row_from-total_example =
    trace_row_from-total run_manifest run_frames place_in_run 2 "total" (pos 0) second_chosen
      run-IsRanked (omega arith)

abbrev no_trace : Trace
no_trace = record {
  start_stage = "";
  start_row = pos 0;
  steps = [];
  last = record { reached_origin = false; at_stage = ""; message = output_missing };
}

abbrev trace_of : Option (Result TraceError Trace) → Trace
trace_of (some (ok trace)) = trace
trace_of _ = no_trace

abbrev total_trace : Trace
total_trace = trace_of (trace_row_from run_manifest run_frames 2 "total" (pos 0) second_chosen)

goes_to_second : map (λ s. s.row_ordinal) total_trace.steps ≡ pos 0 ∷ pos 1 ∷ []
unfolding trace_row_from walk
goes_to_second = refl

first_is_followed : follow "total" (some (fed_by 0 ∷ fed_by 1 ∷ [])) [] ≡ ok (some (fed_by 0), [])
unfolding sample_from_fan_in
first_is_followed = refl

read_row_sample-bounds_example :
    (i : ℕ) × (read_row_sample (some (fed_by 0 ∷ fed_by 1 ∷ [])) (some (fed_by 0))
      ≡ some (record { place = i + 1; of = 2 }))
    × (1 ≤ i + 1)
    × (i + 1 ≤ 2)
    × (get_elem? (fed_by 0 ∷ fed_by 1 ∷ []) i ≡ some (fed_by 0))
read_row_sample-bounds_example =
    read_row_sample-bounds "total" (fed_by 0 ∷ fed_by 1 ∷ []) [] [] (fed_by 0) first_is_followed

fed_by-IsStorable : (row : ℕ) → is_int64 (pos row) ≡ true → IsStorable (fed_by row)
fed_by-IsStorable row h = record {
  some_columns = λ e. cc;
  some_file = λ e. cc;
  some_sha = λ e. cc;
  fits = h;
}

first_fits : is_int64 (pos 0) ≡ true
unfolding is_int64
first_fits = refl

second_fits : is_int64 (pos 1) ≡ true
unfolding is_int64
second_fits = refl

every_row-to_table_example :
    (table : SidecarTable) × (to_table totals ≡ ok table) × (every_row table ≡ totals)
every_row-to_table_example =
    every_row-to_table totals
      ((fed_by-IsStorable 1 second_fits, (fed_by-IsStorable 0 first_fits, tt)), tt)

get_item-IsCoherent_example :
    ((get_item (open_sidecar (write_table totals)) (negsuc 0)).0
      ≡ list_index (every_row (open_sidecar (write_table totals)).table) (negsuc 0))
    × IsCoherent (get_item (open_sidecar (write_table totals)) (negsuc 0)).1
    × ((get_item (open_sidecar (write_table totals)) (negsuc 0)).1.table
        ≡ (open_sidecar (write_table totals)).table)
get_item-IsCoherent_example =
    get_item-IsCoherent (open_sidecar (write_table totals)) (negsuc 0)
      (IsCoherent-open_sidecar (write_table totals))

abbrev matched : List (Option ℤ)
matched = some (pos 4) ∷ none ∷ []

abbrev merge_inputs : List (String × List (Option ℤ))
merge_inputs =
    ("people", some (pos 5) ∷ none ∷ [])
    ∷ ("cities", matched)
    ∷ ("people", none ∷ some (pos 6) ∷ [])
    ∷ []

read_parent_ordinals-merged_example :
    (length (read_parent_ordinals "people" (merged_inputs_lineage merge_inputs)) ≡ 2)
    × ((i : ℕ)
        → i < 2
        → get_elem? (read_parent_ordinals "people" (merged_inputs_lineage merge_inputs)) i
          ≡ some (first_given "people" i merge_inputs))
read_parent_ordinals-merged_example =
    read_parent_ordinals-merged merge_inputs "people" (refl, (refl, (refl, tt)))

second_people : first_given "people" 1 merge_inputs ≡ some (pos 6)
second_people = refl

concatenated_inputs_lineage-at_example :
    (length (concatenated_inputs_lineage (("a", 2) ∷ ("b", 3) ∷ []) 5) ≡ 5)
    × (get_elem? (concatenated_inputs_lineage (("a", 2) ∷ ("b", 3) ∷ []) 5) (2 + 1)
        ≡ some (row_parent "b" (pos (5 + 1)) ∷ []))
concatenated_inputs_lineage-at_example =
    concatenated_inputs_lineage-at (("a", 2) ∷ []) [] "b" 3 1 5 (omega arith)

abbrev two_rows : List (ℕ × List String)
two_rows = (0, "then" ∷ []) ∷ (2, []) ∷ []

run_rows-rows_kept_example :
    (b : BranchRecorder) × (run_rows new_recorder two_rows ≡ ok b)
    × ((rows_kept b (0 ∷ 1 ∷ []) ≡ some (map (λ i. lookup i two_rows) (0 ∷ 1 ∷ [])))
        ⊎ ((rows_kept b (0 ∷ 1 ∷ []) ≡ none) × All (λ r. r.1 ≡ []) two_rows))
run_rows-rows_kept_example = run_rows-rows_kept two_rows (0 ∷ 1 ∷ []) refl
