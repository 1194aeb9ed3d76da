-- ===== src/Trace/Step.antt =====
-- app/runtime/trace.py: what one round of `trace_row_from` records, and what may follow.
use carbonpaper.Prelude.{
  ℕ, String, Bool, true, false, Option, some, none, List, [], ◌∷◌, string_eq, nat_eq, ◌==◌, ℤ, pos,
  negsuc, ltb, if◌then◌else◌, Result, ok, err,
}
use carbonpaper.Lineage.Row.{RowParent}
use carbonpaper.Stage.Kind.{StageType}
use carbonpaper.Trace.Frames.{StageRecord, Origin}
use carbonpaper.Trace.FanIn.{
  RowSampleChoice, RowSample, TraceError, no_fan_in_for, sample_from_fan_in,
}

-- The manifest: the stage records by id, and how many files each stage read.
pub record Manifest : Type 0 where
  pub by_id : List (String × StageRecord)
  pub files_read : List (String × ℕ)

-- `StageTransform`, but for the cells of the row.
pub record StageTransform : Type 0 where
  pub stage_id : String
  pub stage_type : Option StageType
  pub row_ordinal : ℤ
  pub columns_new : List String
  pub origin : Origin
  pub branches : List RowParent
  pub source_file : Option String
  pub source_row : Option ℤ
  pub source_file_count : Option ℕ
  pub sampled : Option RowSample

pub data EndMessage : Type 0 where
  output_missing rows_originate_here lineage_parent_not_in_run parent_row_out_of_range : EndMessage
  manifest_parent_not_in_run row_count_differs summarizes_nothing no_input_edge : EndMessage
  not_preserving : Option StageType → EndMessage

pub record TraceEnd : Type 0 where
  pub reached_origin : Bool
  pub at_stage : String
  pub message : EndMessage

abbrev pub stops : String → EndMessage → TraceEnd
stops sid message = record { reached_origin = false; at_stage = sid; message = message }

-- What follows a stage: a row of another stage, or the end.
pub data Next : Type 0 where
  hop : String → ℤ → Next
  stop : TraceEnd → Next

abbrev pub in_range : ℤ → ℕ → Bool
in_range (pos r) rows = ltb r rows
in_range (negsuc _) rows = false

-- What the walk follows at a fan-in; nothing where it faces none.
abbrev pub follow :
    String
    → Option (List RowParent)
    → List RowSampleChoice
    → Result TraceError (Option RowParent × List RowSampleChoice)
follow sid none pending = ok (none, pending)
follow sid (some fan_in) pending = sample_from_fan_in sid fan_in pending

abbrev pub or_no_hops : Option (List RowParent) → List RowParent
or_no_hops none = []
or_no_hops (some hops) = hops

abbrev pub is_input_data : Option StageType → Bool
is_input_data (some StageType.input_data) = true
is_input_data _ = false

-- One round of the loop: the end without a step, or a step with what follows it and the choices
-- that are left.
pub data Turn : Type 0 where
  ended : TraceEnd → List RowSampleChoice → Turn
  recorded : StageTransform → Next → List RowSampleChoice → Turn

-- What the loop leaves: the steps, the end, and the choices that are left.
abbrev pub Walked : Type 0
Walked = Result TraceError (List StageTransform × TraceEnd × List RowSampleChoice)

abbrev pub behind : StageTransform → Option Walked → Option Walked
behind s none = none
behind s (some (err e)) = some (err e)
behind s (some (ok (steps, last, left))) = some (ok (s ∷ steps, last, left))

pub record Trace : Type 0 where
  pub start_stage : String
  pub start_row : ℤ
  pub steps : List StageTransform
  pub last : TraceEnd

abbrev pub finished : String → ℤ → Walked → Result TraceError Trace
finished sid r (err e) = err e
finished sid r (ok (steps, last, [])) =
    ok (record { start_stage = sid; start_row = r; steps = steps; last = last })
finished sid r (ok (steps, last, choice ∷ _)) = err (no_fan_in_for choice)

abbrev pub file_row : Option RowParent → Option ℤ
file_row none = none
file_row (some spine) = elim spine.source_file [
  | some file ↦ if file == "" then none else some spine.row_ordinal
  | none ↦ none
]

abbrev pub file_of : Option RowParent → Option String
file_of none = none
file_of (some spine) = spine.source_file

abbrev pub after_turn :
    (String → ℤ → List RowSampleChoice → Option Walked) → Result TraceError Turn → Option Walked
after_turn go (err e) = some (err e)
after_turn go (ok (ended last left)) = some (ok ([], last, left))
after_turn go (ok (recorded s (stop last) left)) = some (ok (s ∷ [], last, left))
after_turn go (ok (recorded s (hop sid r) left)) = behind s (go sid r left)
