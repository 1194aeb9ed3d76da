-- ===== src/Branches/Recorder.antt =====
-- app/runtime/branches.py: `BranchRecorder` and `RowBranches`.
use carbonpaper.Prelude.{
  ℕ, String, Bool, not, Option, some, none, List, [], ◌∷◌, ◌++◌, map, any, lookup, insert, nat_eq,
  is_empty, Result, ok, err, if◌then◌else◌, ◌>>=◌,
}

pub data BranchRecordingError : Type 0 where
  never_closed : ℕ → BranchRecordingError
  outside_a_row : String → BranchRecordingError
  no_row_open : BranchRecordingError

pub record BranchRecorder : Type 0 where
  pub open_index : Option ℕ
  pub taken : List String
  pub by_input : List (ℕ × List String)

-- `BranchRecorder()`
abbrev pub new_recorder : BranchRecorder
new_recorder = record { open_index = none; taken = []; by_input = [] }

unfoldable pub open_row : BranchRecorder → ℕ → Result BranchRecordingError BranchRecorder
open_row b index = elim b.open_index [
  | some i ↦ err (never_closed i)
  | none ↦ ok (record b { open_index = some index; taken = [] })
]

-- `record`
unfoldable pub record_branch : BranchRecorder → String → Result BranchRecordingError BranchRecorder
record_branch b branch_id = elim b.open_index [
  | none ↦ err (outside_a_row branch_id)
  | some _ ↦ ok (record b { taken = b.taken ++ branch_id ∷ [] })
]

unfoldable pub close_row : BranchRecorder → Result BranchRecordingError BranchRecorder
close_row b = elim b.open_index [
  | none ↦ err no_row_open
  | some i ↦ ok (record { open_index = none; taken = []; by_input = insert i b.taken b.by_input })
]

unfoldable pub replay_row : BranchRecorder → ℕ → Option (List String) → BranchRecorder
replay_row b index none = b
replay_row b index (some branches) = record b { by_input = insert index branches b.by_input }

unfoldable pub branches_for : BranchRecorder → ℕ → Option (List String)
branches_for b index = lookup index b.by_input

-- `RowBranches.taken`: what each output row took, none where the run never executed it.
abbrev pub RowBranches : Type 0
RowBranches = List (Option (List String))

abbrev pub took_some : ℕ × List String → Bool
took_some (i, branches) = not (is_empty branches)

unfoldable pub rows_kept : BranchRecorder → List ℕ → Option RowBranches
rows_kept b kept_indices =
    if not (any took_some b.by_input)
    then none
    else some (map (λ i. lookup i b.by_input) kept_indices)

-- The sidecar: one list-valued cell for each row, or null.
pub record BranchTable : Type 0 where
  pub cells : List (Option (List String))

unfoldable pub to_table : RowBranches → BranchTable
to_table taken = record { cells = map (λ ids. elim ids [ none ↦ none | some l ↦ some l ]) taken }

unfoldable pub from_table : BranchTable → RowBranches
from_table table = map (λ cell. elim cell [ none ↦ none | some l ↦ some l ]) table.cells

-- One row's calls: it is opened, its branches are reported, and it is closed.
unfoldable pub record_all :
    BranchRecorder → List String → Result BranchRecordingError BranchRecorder
unfolding record_branch
record_all b [] = ok b
record_all b (branch ∷ branches) = record_branch b branch >>= λ b'. record_all b' branches

unfoldable pub run_row :
    BranchRecorder → ℕ → List String → Result BranchRecordingError BranchRecorder
unfolding open_row record_all close_row
run_row b index branches = do
  opened ← open_row b index
  reported ← record_all opened branches
  close_row reported

-- The rows of one execution, in the order in which they run.
unfoldable pub run_rows :
    BranchRecorder → List (ℕ × List String) → Result BranchRecordingError BranchRecorder
unfolding run_row
run_rows b [] = ok b
run_rows b ((index, branches) ∷ rows) = run_row b index branches >>= λ b'. run_rows b' rows
